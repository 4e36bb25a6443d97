-- ===== src/Kalloc/Owners.antt =====
-- The clients of xv6/kalloc.c: pages handed out and given back in any order.
use oslab.Common.{
  ℕ, ◌+◌, ◌≤◌, ◌<◌, ◌≡◌, ◌≢◌, ◌⊎◌, sym, ap, subst, All, arith, List, [], ◌∷◌, some, get_elem?,
  erase_at, count, count-erase_at, inl, inr, ==_refl,
}
use oslab.Kalloc.{Kmem, kfree, kalloc}
use oslab.Kalloc.Spec.{IsPage, IsFree, kfree-IsFree, kalloc-IsFree}

-- The allocator, and the pages that its clients hold.
pub record Pool : Type 0 where
  pub kmem : Kmem
  pub held : List ℕ

pub data Step (end : ℕ) (s : Pool) : Pool → Type 0 where
  allocates :
      (kalloc s.kmem).0 ≢ 0
      → Step end s (record { kmem = (kalloc s.kmem).1; held = (kalloc s.kmem).0 ∷ s.held })
  fails : (kalloc s.kmem).0 ≡ 0 → Step end s (record s { kmem = (kalloc s.kmem).1 })
  frees :
      (i : ℕ) {x : ℕ} {k : Kmem}
      → get_elem? s.held i ≡ some x
      → kfree end x s.kmem ≡ some k
      → Step end s (record { kmem = k; held = erase_at s.held i })

pub data Reach (end : ℕ) (s : Pool) : Pool → Type 0 where
  here : Reach end s s
  next : {t u : Pool} → Reach end s t → Step end t u → Reach end s u

-- The free pages and the held pages are together the pages of `pool`, each as often.
pub record Shares (end : ℕ) (pool : List ℕ) (s : Pool) : Type 0 where
  pub free : List ℕ
  pub is_free : IsFree end s.kmem free
  pub total : (a : ℕ) → count a free + count a s.held ≡ count a pool

module _ (end : ℕ) (pos : 0 < end) (pool : List ℕ) (once : (a : ℕ) → count a pool ≤ 1) where
  allocates-Shares :
      (s : Pool)
      → Shares end pool s
      → (kalloc s.kmem).0 ≢ 0
      → Shares end pool (record { kmem = (kalloc s.kmem).1; held = (kalloc s.kmem).0 ∷ s.held })
  allocates-Shares s v ne = elim (kalloc-IsFree end s.kmem v.free pos v.is_free) [
    | inl (x, rest, split, got, f, _) ↦ record {
      free = rest;
      is_free = f;
      total = λ a. ground (arith, v.total a, ap (count a) split);
    }
    | inr (_, empty) ↦ absurd (ne (ap (λ (r : ℕ × Kmem). r.0) empty))
  ]

  fails-Shares :
      (s : Pool)
      → Shares end pool s
      → (kalloc s.kmem).0 ≡ 0
      → Shares end pool (record s { kmem = (kalloc s.kmem).1 })
  fails-Shares s v eq = elim (kalloc-IsFree end s.kmem v.free pos v.is_free) [
    | inl (x, rest, split, got, f, _) ↦
        let good = subst (All (IsPage end)) split v.is_free.good in
        absurd (omega (arith, good.0.after_kernel))
    | inr (_, empty) ↦
        let same : s.kmem ≡ (kalloc s.kmem).1 = ap (λ (r : ℕ × Kmem). r.1) (sym empty) in
        rw same at v
  ]

  frees-Shares :
      (s : Pool) (i x : ℕ) (k : Kmem)
      → Shares end pool s
      → get_elem? s.held i ≡ some x
      → kfree end x s.kmem ≡ some k
      → Shares end pool (record { kmem = k; held = erase_at s.held i })
  frees-Shares s i x k v at e =
      let mine : 0 < count x s.held = ground (arith, count-erase_at x s.held i x at, ==_refl x) in
      let gone : count x v.free ≡ 0 = omega (arith, v.total x, once x) in
      elim (kfree-IsFree end s.kmem v.free v.is_free x gone) [
        | inl (k', _, freed, f, _) ↦
            let same : k' ≡ k = ground (arith, freed, e) in
            record {
              free = x ∷ v.free;
              is_free = rw same at f;
              total = λ a. ground (arith, v.total a, count-erase_at a s.held i x at);
            }
        | inr (bad, _) ↦ cc bad
      ]

  Step-Shares : {s t : Pool} → Step end s t → Shares end pool s → Shares end pool t
  Step-Shares {s} (allocates ne) v = allocates-Shares s v ne
  Step-Shares {s} (fails eq) v = fails-Shares s v eq
  Step-Shares {s} (frees i {x} {k} at e) v = frees-Shares s i x k v at e

  Reach-Shares : {s t : Pool} → Shares end pool s → Reach end s t → Shares end pool t
  Reach-Shares v here = v
  Reach-Shares v (next r st) = Step-Shares st (Reach-Shares v r)

-- What `kalloc` gives a client: a page that no client holds, or 0 if the clients hold every page.
abbrev pub IsFresh : ℕ → List ℕ → Pool → ℕ → Type 0
IsFresh end pool t x =
    (IsPage end x × (count x t.held ≡ 0) × (count x pool ≡ 1))
    ⊎ ((x ≡ 0) × ((a : ℕ) → count a t.held ≡ count a pool))

Shares-IsFresh :
    (end : ℕ) (pool : List ℕ) (t : Pool)
    → 0 < end
    → ((a : ℕ) → count a pool ≤ 1)
    → Shares end pool t
    → IsFresh end pool t (kalloc t.kmem).0
Shares-IsFresh end pool t pos once v = elim (kalloc-IsFree end t.kmem v.free pos v.is_free) [
  | inl (x, rest, split, got, f, _) ↦
      let good = subst (All (IsPage end)) split v.is_free.good in
      let here : 0 < count x v.free = rw split (ground (arith, ==_refl x)) in
      rw got (inl (good.0, omega (arith, v.total x, once x), omega (arith, v.total x, once x)))
  | inr (split, empty) ↦
      inr (ap (λ (r : ℕ × Kmem). r.0) empty, λ a. ground (arith, v.total a, ap (count a) split))
]

-- Exclusive ownership. Start from an allocator whose free pages are `pool`, each once, with no page
-- held; let clients take pages and give back pages that they hold, in any order. Then in every state
-- that is reached the free pages are still linked and good, free and held pages together are `pool`,
-- and the next `kalloc` returns a page of `pool` that no client holds, or 0 when all are held.
pub kalloc-Reach :
    (end : ℕ) (pool : List ℕ) (k : Kmem) (t : Pool)
    → 0 < end
    → IsFree end k pool
    → Reach end (record { kmem = k; held = [] }) t
    → Shares end pool t × IsFresh end pool t (kalloc t.kmem).0
kalloc-Reach end pool k t pos f r =
    let start : Shares end pool (record { kmem = k; held = [] }) = record {
      free = pool;
      is_free = f;
      total = λ a. omega arith;
    } in
    let v = Reach-Shares end pos pool f.once start r in (v, Shares-IsFresh end pool t pos f.once v)
