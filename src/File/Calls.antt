-- ===== src/File/Calls.antt =====
-- `filealloc` and `fileclose` of xv6/file.c on each of their branches.
use oslab.Common.{
  ℕ, zero, suc, ◌+◌, ◌-◌, ◌<◌, ◌≤◌, ◌≡◌, ◌≢◌, ◌⊎◌, ◌∙◌, refl, sym, ap, arith, Option, none, some,
  ltb, ==_ne, Bool-cases, inl, inr, ℕ_discrete, lt→ltb, le→ltb,
}
use oslab.File.{
  Table, nfile, put_file, find_file, filealloc, Release, nothing, release_of, fileclose, fd_none,
}

-- The ends of the loop of `filealloc`.
Finds : ℕ → Table → Option ℕ → Type 0
Finds i t none = (j : ℕ) → i ≤ j → j < nfile → (t j).refs ≢ 0
Finds i t (some k) = (k < nfile) × ((t k).refs ≡ 0)

find_file-Finds : (rounds i : ℕ) (t : Table) → i + rounds ≡ nfile → Finds i t (find_file rounds i t)
unfolding find_file Finds
find_file-Finds zero i t all = λ j lo hi. absurd (omega arith)
find_file-Finds (suc rounds) i t all = elim (ℕ_discrete (t i).refs 0) [
  | yes z ↦ rw (z, find_file) (omega arith, z)
  | no used ↦
      rw (==_ne (t i).refs 0 used, find_file)
        (later (find_file rounds (suc i) t) used (find_file-Finds rounds (suc i) t (omega arith)))
]
  where
    later : (r : Option ℕ) → (t i).refs ≢ 0 → Finds (suc i) t r → Finds i t r
    later none used h = λ j lo hi. elim (ℕ_discrete j i) [
      | yes e ↦ λ z. used (ap (λ k. (t k).refs) (sym e) ∙ z)
      | no ne ↦ h j (omega arith) hi
    ]
    later (some k) used h = h

-- The ends of `filealloc`: a file without references that now has one, or no such file.
unfoldable pub Opens : Table → Option (ℕ × Table) → Type 0
Opens t none = (j : ℕ) → j < nfile → (t j).refs ≢ 0
Opens t (some r) =
    (r.0 < nfile) × ((t r.0).refs ≡ 0) × (r.1 ≡ put_file t r.0 (record (t r.0) { refs = 1 }))

pub filealloc-Opens : (t : Table) → Opens t (filealloc t)
unfolding filealloc Opens Finds
filealloc-Opens t = go (find_file nfile 0 t) (find_file-Finds nfile 0 t (omega arith))
  where
    go :
        (r : Option ℕ)
        → Finds 0 t r
        → Opens t
            (elim r [ none ↦ none | some k ↦ some (k, put_file t k (record (t k) { refs = 1 })) ])
    go none h = λ j lt. h j (omega arith) lt
    go (some k) h = (h.0, h.1, refl)

-- The ends of `fileclose`: the panic, a reference less, or the last one, with what is released.
unfoldable pub Closes : ℕ → Table → Option (Release × Table) → Type 0
Closes k t none = (t k).refs ≡ 0
Closes k t (some r) =
    ((1 < (t k).refs)
      × (r.0 ≡ nothing)
      × (r.1 ≡ put_file t k (record (t k) { refs = (t k).refs - 1 })))
    ⊎ (((t k).refs ≡ 1)
        × (r.0 ≡ release_of (t k).kind (t k).writable)
        × (r.1 ≡ put_file t k (record (t k) { refs = 0; kind = fd_none })))

pub fileclose-Closes : (k : ℕ) (t : Table) → Closes k t (fileclose k t)
unfolding fileclose Closes
fileclose-Closes k t = elim (Bool-cases (ltb (t k).refs 1)) [
  | inl free ↦ rw free (ground (arith, free))
  | inr used ↦ elim (Bool-cases (ltb 0 ((t k).refs - 1))) [
    | inl more ↦ rw (used, more) (inl (ground (arith, more), refl, refl))
    | inr last ↦ rw (used, last) (inr (ground (arith, used, last), refl, refl))
  ]
]

pub fileclose-shared :
    (k : ℕ) (t : Table)
    → 1 < (t k).refs
    → fileclose k t ≡ some (nothing, put_file t k (record (t k) { refs = (t k).refs - 1 }))
unfolding fileclose
fileclose-shared k t lt =
    rw (le→ltb (t k).refs 1 (omega arith), lt→ltb 0 ((t k).refs - 1) (omega arith)) refl

pub fileclose-last :
    (k : ℕ) (t : Table)
    → (t k).refs ≡ 1
    → fileclose k t
      ≡ some (
        release_of (t k).kind (t k).writable,
        put_file t k (record (t k) { refs = 0; kind = fd_none }),
      )
unfolding fileclose
fileclose-last k t e =
    rw (le→ltb (t k).refs 1 (omega (arith, e)), le→ltb 0 ((t k).refs - 1) (omega (arith, e))) refl
