-- ===== src/Kalloc/Spec.antt =====
-- xv6/kalloc.c against a list of pages: `kfree` adds a page to it and `kalloc` takes one from it.
use oslab.Common.{
  ℕ, ◌%◌, ◌≤◌, ◌<◌, ◌≡◌, ◌≢◌, ◌⊎◌, refl, arith, false, List, [], ◌∷◌, none, some, ◌==◌,
  if◌then◌else◌, count, All, ==_refl, Bool-cases, inl, inr,
}
use oslab.Kalloc.{Kmem, pgsize, phystop, v2p, junk, bad_page, kfree, kalloc}

-- A page that the allocator may hold.
pub record IsPage (end v : ℕ) : Type 0 where
  pub aligned : v % pgsize ≡ 0
  pub after_kernel : end ≤ v
  pub physical : v2p v < phystop

-- From pointer `p` the words at the pages' starts lead through the pages of the list to 0.
abbrev pub Chain : (ℕ → ℕ) → ℕ → List ℕ → Type 0
Chain memory p [] = p ≡ 0
Chain memory p (x ∷ xs) = (p ≡ x) × Chain memory (memory x) xs

-- The free list is the list of pages, each of them once.
pub record IsFree (end : ℕ) (k : Kmem) (pages : List ℕ) : Type 0 where
  pub chain : Chain k.memory k.freelist pages
  pub good : All (IsPage end) pages
  pub once : (a : ℕ) → count a pages ≤ 1

Chain-frame :
    (m m' : ℕ → ℕ) (p : ℕ) (xs : List ℕ)
    → ((x : ℕ) → 0 < count x xs → m' x ≡ m x)
    → Chain m p xs
    → Chain m' p xs
Chain-frame m m' p [] same h = h
Chain-frame m m' p (x ∷ xs) same h =
    (h.0, rw (same x (ground arith)) (Chain-frame m m' (m x) xs (λ y i. same y (omega arith)) h.1))

All_count : (P : ℕ → Type 0) (xs : List ℕ) (x : ℕ) → All P xs → 0 < count x xs → P x
All_count P [] x h i = absurd (omega arith)
All_count P (y ∷ ys) x h i = elim (Bool-cases (x == y)) [
  | inl e ↦ let same : x ≡ y = ground arith in rw same h.0
  | inr e ↦ All_count P ys x h.1 (ground arith)
]

bad_page_iff : (end v : ℕ) → IsPage end v → bad_page end v ≡ false
bad_page_iff end v h = ground arith

bad_page_not : (end v : ℕ) → bad_page end v ≡ false → IsPage end v
bad_page_not end v h = ground arith

module _ (end : ℕ) (k : Kmem) (pages : List ℕ) (f : IsFree end k pages) where
  -- The words at the starts of the other free pages are not written.
  others :
      (v : ℕ)
      → count v pages ≡ 0
      → IsPage end v
      → (x : ℕ) → 0 < count x pages
      → (if x == v then k.freelist else junk k.memory v x) ≡ k.memory x
  others v new page x i =
      let aligned : x % pgsize ≡ 0 = (All_count (IsPage end) pages x f.good i).aligned in
      let apart : x ≢ v = λ e. let gone : count x pages ≡ 0 = rw e new in omega arith in
      ground (arith, page.aligned)

  -- `kfree` of a page of the allocator's range that is not free puts it at the head of the free pages;
  -- any address that is no such page is a panic.
  pub kfree-IsFree :
      (v : ℕ)
      → count v pages ≡ 0
      → ((k' : Kmem) × IsPage end v
          × (kfree end v k ≡ some k')
          × IsFree end k' (v ∷ pages)
          × (k'.use_lock ≡ k.use_lock))
        ⊎ ((kfree end v k ≡ none) × ¬ IsPage end v)
  unfolding kfree
  kfree-IsFree v new = elim (Bool-cases (bad_page end v)) [
    | inl bad ↦ inr (rw (bad, kfree), λ h. cc (bad_page_iff end v h))
    | inr good ↦
        let page = bad_page_not end v good in
        inl (
          record k { freelist = v; memory = λ a. if a == v then k.freelist else junk k.memory v a },
          page,
          rw (good, kfree),
          record {
            chain = (
              refl,
              rw (==_refl v) (Chain-frame k.memory _ k.freelist pages (others v new page) f.chain),
            );
            good = (page, f.good);
            once = λ a. ground (arith, f.once a);
          },
          refl,
        )
  ]

-- `kalloc` takes the page at the head of the free pages; if there is none it returns 0 and changes
-- nothing. The kernel does not end at address 0.
pub kalloc-IsFree :
    (end : ℕ) (k : Kmem) (pages : List ℕ)
    → 0 < end
    → IsFree end k pages
    → ((x : ℕ) × (rest : List ℕ) × (pages ≡ x ∷ rest)
        × ((kalloc k).0 ≡ x)
        × IsFree end (kalloc k).1 rest
        × ((kalloc k).1.use_lock ≡ k.use_lock))
      ⊎ ((pages ≡ []) × (kalloc k ≡ (0, k)))
unfolding kalloc
kalloc-IsFree end k [] pos f = inr (refl, rw f.chain)
kalloc-IsFree end k (x ∷ rest) pos f =
    let at : k.freelist ≡ x = f.chain.0 in
    let page : end ≤ x = f.good.0.after_kernel in
    let ne : (k.freelist == 0) ≡ false = ground arith in
    inl (
      x,
      rest,
      refl,
      at,
      rw ne (record {
        chain = rw at f.chain.1;
        good = f.good.1;
        once = λ a. ground (arith, f.once a);
      }),
      rw ne,
    )
