-- ===== src/Fs/Icache/Counts.antt =====
-- The pointers to the entries of the inode cache of xv6/fs.c.
use oslab.Common.{
  ℕ, ◌<◌, ◌≡◌, ◌≢◌, ◌∙◌, refl, sym, ap, subst, arith, true, false, some, List, ◌∷◌, ==_refl, ==_ne,
  ℕ_discrete, get_elem?, count, count-erase_at,
}
use oslab.Fs.Inode.{Inode}
use oslab.Fs.Icache.{Icache, ninode, put_inode, is_inode, more_refs}

-- The cache, and the pointers that its users hold, once for each reference.
pub record Users : Type 0 where
  pub cache : Icache
  pub held : List ℕ

-- Each entry counts its pointers, and no two entries in use are of the same inode.
pub record IsIcache (s : Users) : Type 0 where
  pub counted : (k : ℕ) → k < ninode → (s.cache.inode k).refs ≡ count k s.held
  pub inside : (k : ℕ) → 0 < count k s.held → k < ninode
  pub unique :
      (j k : ℕ)
      → 0 < count j s.held
      → 0 < count k s.held
      → (s.cache.inode j).dev ≡ (s.cache.inode k).dev
      → (s.cache.inode j).inum ≡ (s.cache.inode k).inum
      → j ≡ k

pub is_inode-true :
    (dev inum : ℕ) (ip : Inode)
    → 0 < ip.refs
    → ip.dev ≡ dev
    → ip.inum ≡ inum
    → is_inode dev inum ip ≡ true
is_inode-true dev inum ip held d i = ground (arith, held, d, i)

-- A change of one entry that keeps its numbers, with the pointers to match.
pub same-IsIcache :
    (s t : Users) (k : ℕ)
    → IsIcache s
    → (t.cache.inode k).dev ≡ (s.cache.inode k).dev
    → (t.cache.inode k).inum ≡ (s.cache.inode k).inum
    → ((j : ℕ) → j ≢ k → t.cache.inode j ≡ s.cache.inode j)
    → (k < ninode → (t.cache.inode k).refs ≡ count k t.held)
    → ((j : ℕ) → j ≢ k → count j t.held ≡ count j s.held)
    → (0 < count k t.held → 0 < count k s.held)
    → IsIcache t
same-IsIcache s t k v dev inum away counted others less =
    let held : (j : ℕ) → 0 < count j t.held → 0 < count j s.held = λ j h. elim (ℕ_discrete j k) [
      | yes e ↦ subst (λ i. 0 < count i s.held) (sym e) (less (subst (λ i. 0 < count i t.held) e h))
      | no ne ↦ omega (arith, h, others j ne)
    ] in
    let dev_of : (j : ℕ) → (t.cache.inode j).dev ≡ (s.cache.inode j).dev = λ j.
      elim (ℕ_discrete j k) [
        | yes e ↦ subst (λ i. (t.cache.inode i).dev ≡ (s.cache.inode i).dev) (sym e) dev
        | no ne ↦ ap (λ (x : Inode). x.dev) (away j ne)
      ] in
    let inum_of : (j : ℕ) → (t.cache.inode j).inum ≡ (s.cache.inode j).inum = λ j.
      elim (ℕ_discrete j k) [
        | yes e ↦ subst (λ i. (t.cache.inode i).inum ≡ (s.cache.inode i).inum) (sym e) inum
        | no ne ↦ ap (λ (x : Inode). x.inum) (away j ne)
      ] in
    record {
      counted = λ j lt. elim (ℕ_discrete j k) [
        | yes e ↦
            subst (λ i. (t.cache.inode i).refs ≡ count i t.held) (sym e) (counted (omega arith))
        | no ne ↦ ap (λ (x : Inode). x.refs) (away j ne) ∙ v.counted j lt ∙ sym (others j ne)
      ];
      inside = λ j h. v.inside j (held j h);
      unique = λ i j i_h j_h d n.
          v.unique i j (held i i_h) (held j j_h) (sym (dev_of i) ∙ d ∙ dev_of j)
            (sym (inum_of i) ∙ n ∙ inum_of j);
    }

pub mine : (k i : ℕ) (xs : List ℕ) → get_elem? xs i ≡ some k → 0 < count k xs
mine k i xs at = ground (arith, count-erase_at k xs i k at, ==_refl k)

pub more-IsIcache :
    (s : Users) (k : ℕ)
    → IsIcache s
    → 0 < count k s.held
    → IsIcache
        (record { cache = put_inode s.cache k (more_refs (s.cache.inode k)); held = k ∷ s.held })
more-IsIcache s k v held =
    let t : Users = record {
      cache = put_inode s.cache k (more_refs (s.cache.inode k));
      held = k ∷ s.held;
    } in
    same-IsIcache s t k v (rw (==_refl k) refl) (rw (==_refl k) refl)
      (λ j ne. rw (==_ne j k ne) refl) (λ lt. rw (==_refl k) (omega (arith, v.counted k lt)))
      (λ j ne. ground (arith, ne)) (λ h. held)

abbrev fresh : ℕ → ℕ → Inode → Inode
fresh dev inum ip = record ip { dev = dev; inum = inum; refs = 1; valid = false }

-- An entry that nobody uses becomes the one of an inode that no entry is of.
pub fresh-IsIcache :
    (s : Users) (dev inum k : ℕ)
    → IsIcache s
    → k < ninode
    → (s.cache.inode k).refs ≡ 0
    → ((j : ℕ) → j < ninode → is_inode dev inum (s.cache.inode j) ≡ false)
    → IsIcache (record {
      cache = put_inode s.cache k (fresh dev inum (s.cache.inode k));
      held = k ∷ s.held;
    })
fresh-IsIcache s dev inum k v lt free miss =
    let t : Users = record {
      cache = put_inode s.cache k (fresh dev inum (s.cache.inode k));
      held = k ∷ s.held;
    } in
    let unused : count k s.held ≡ 0 = sym (v.counted k lt) ∙ free in
    let here : t.cache.inode k ≡ fresh dev inum (s.cache.inode k) = rw (==_refl k) refl in
    let away : (j : ℕ) → j ≢ k → t.cache.inode j ≡ s.cache.inode j =
      λ j ne. rw (==_ne j k ne) refl in
    let old : (j : ℕ) → j ≢ k → 0 < count j t.held → 0 < count j s.held =
      λ j ne h. ground (arith, ne, h) in
    let clash : (j : ℕ)
        → j ≢ k
        → 0 < count j t.held
        → (t.cache.inode j).dev ≡ (t.cache.inode k).dev
        → (t.cache.inode j).inum ≡ (t.cache.inode k).inum
        → ⊥ =
      λ j ne h d n.
        let inside = v.inside j (old j ne h) in
        let refs : 0 < (s.cache.inode j).refs = omega (arith, v.counted j inside, old j ne h) in
        cc (
          miss j inside,
          is_inode-true dev inum (s.cache.inode j) refs
              (ap (λ (x : Inode). x.dev) (sym (away j ne)) ∙ d ∙ ap (λ (x : Inode). x.dev) here)
              (ap (λ (x : Inode). x.inum) (sym (away j ne)) ∙ n ∙ ap (λ (x : Inode). x.inum) here),
        ) in
    record {
      counted = λ j j_lt. elim (ℕ_discrete j k) [
        | yes e ↦
            subst (λ i. (t.cache.inode i).refs ≡ count i t.held) (sym e)
              (ap (λ (x : Inode). x.refs) here ∙ ground (arith, unused))
        | no ne ↦ ap (λ (x : Inode). x.refs) (away j ne) ∙ v.counted j j_lt ∙ ground (arith, ne)
      ];
      inside = λ j h. elim (ℕ_discrete j k) [
        | yes e ↦ omega (arith, e, lt)
        | no ne ↦ v.inside j (old j ne h)
      ];
      unique = λ i j i_h j_h d n. elim (ℕ_discrete i k) [
        | yes i_k ↦ elim (ℕ_discrete j k) [
          | yes j_k ↦ i_k ∙ sym j_k
          | no j_ne ↦
              let at = λ (x : ℕ). t.cache.inode x in
              absurd (
                clash j j_ne j_h (sym d ∙ ap (λ x. (at x).dev) i_k)
                  (sym n ∙ ap (λ x. (at x).inum) i_k))
        ]
        | no i_ne ↦ elim (ℕ_discrete j k) [
          | yes j_k ↦
              let at = λ (x : ℕ). t.cache.inode x in
              absurd
                (clash i i_ne i_h (d ∙ ap (λ x. (at x).dev) j_k) (n ∙ ap (λ x. (at x).inum) j_k))
          | no j_ne ↦
              v.unique i j (old i i_ne i_h) (old j j_ne j_h)
                (ap (λ (x : Inode). x.dev) (sym (away i i_ne))
                  ∙ d
                  ∙ ap (λ (x : Inode). x.dev) (away j j_ne))
                (ap (λ (x : Inode). x.inum) (sym (away i i_ne))
                  ∙ n
                  ∙ ap (λ (x : Inode). x.inum) (away j j_ne))
        ]
      ];
    }
