-- ===== src/Kalloc/Range.antt =====
-- `freerange` of xv6/kalloc.c: which pages it frees, and that its loop ends.
use oslab.Common.{
  ℕ, zero, suc, ◌+◌, ◌-◌, ◌/◌, ◌%◌, ◌≤◌, ◌<◌, ◌≡◌, refl, subst, sym, arith, List, [], ◌∷◌, some,
  leb, count, Bool-cases, inl, inr, ◌∙◌,
}
use oslab.Kalloc.{Kmem, pgsize, phystop, kernbase, pgroundup, free_from, freerange, kinit1}
use oslab.Kalloc.Spec.{IsPage, IsFree, kfree-IsFree}

-- `n` pages from `p` on, in the order of a free list on which they were put one after the other.
abbrev pub pages_from : ℕ → ℕ → List ℕ → List ℕ
pages_from p zero rest = rest
pages_from p (suc n) rest = pages_from (p + pgsize) n (p ∷ rest)

-- The addresses from `p` to `vend` are pages of the allocator.
record IsRange (end p vend : ℕ) : Type 0 where
  aligned : p % pgsize ≡ 0
  low : end ≤ p
  mapped : kernbase ≤ p
  high : vend ≤ kernbase + phystop

IsPage-IsRange : (end p vend : ℕ) → IsRange end p vend → p + pgsize ≤ vend → IsPage end p
IsPage-IsRange end p vend r h = record {
  aligned = r.aligned;
  after_kernel = r.low;
  physical = omega (arith, r.mapped, r.high);
}

free_from-IsFree :
    (fuel end vend p : ℕ) (k : Kmem) (pages : List ℕ)
    → (vend - p) / pgsize < fuel
    → IsRange end p vend
    → IsFree end k pages
    → ((a : ℕ) → p ≤ a → count a pages ≡ 0)
    → (k' : Kmem) × (free_from fuel end vend p k ≡ some k')
      × IsFree end k' (pages_from p ((vend - p) / pgsize) pages)
      × (k'.use_lock ≡ k.use_lock)
unfolding free_from
free_from-IsFree zero end vend p k pages h r f new = absurd (omega arith)
free_from-IsFree (suc fuel) end vend p k pages h r f new =
    elim (Bool-cases (leb (p + pgsize) vend)) [
      | inl more ↦
          let here : p + pgsize ≤ vend = ground arith in
          let page = IsPage-IsRange end p vend r here in
          let n : (vend - p) / pgsize ≡ suc ((vend - (p + pgsize)) / pgsize) = omega arith in
          elim (kfree-IsFree end k pages f p (new p (omega arith))) [
            | inl (k', _, freed, f', l) ↦
                let (k'', rest, f'', l') =
                  free_from-IsFree fuel end vend (p + pgsize) k' (p ∷ pages) (omega arith)
                    (record {
                      aligned = omega (arith, r.aligned);
                      low = omega (arith, r.low);
                      mapped = omega (arith, r.mapped);
                      high = r.high;
                    })
                    f' (λ a h. ground (arith, new a)) in
                (
                  k'',
                  rw (more, freed, free_from) rest,
                  subst (λ m. IsFree end k'' (pages_from p m pages)) (sym n) f'',
                  l' ∙ l,
                )
            | inr (_, bad) ↦ absurd (bad page)
          ]
      | inr stop ↦
          let n : (vend - p) / pgsize ≡ 0 = ground arith in (k, rw (stop, free_from), rw n f, refl)
    ]

-- `kinit1` over a range of the allocator's memory that does not wrap, with nothing free before it,
-- returns, and leaves exactly the whole pages between PGROUNDUP(vstart) and `vend` free, each of them
-- once, the highest first; the lock is not in use.
pub kinit1-IsFree :
    (end vstart vend : ℕ) (k : Kmem)
    → end ≤ vstart
    → kernbase ≤ vstart
    → vstart < kernbase + phystop
    → vend ≤ kernbase + phystop
    → IsFree end k []
    → (k' : Kmem) × (kinit1 end vstart vend k ≡ some k')
      × IsFree end k' (pages_from (pgroundup vstart) ((vend - pgroundup vstart) / pgsize) [])
      × (k'.use_lock ≡ 0)
unfolding kinit1 freerange
kinit1-IsFree end vstart vend k low mapped start high f =
    free_from-IsFree (vend / pgsize + 1) end vend (pgroundup vstart) (record k { use_lock = 0 }) []
      (omega arith)
      (record { aligned = omega arith; low = omega arith; mapped = omega arith; high = high })
      (record { chain = f.chain; good = tt; once = λ a. omega arith }) (λ a h. refl)
