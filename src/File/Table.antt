-- ===== src/File/Table.antt =====
-- The users of the file table of xv6/file.c: files opened, shared and closed in any order.
use oslab.Common.{
  ℕ, ◌+◌, ◌-◌, ◌<◌, ◌≡◌, ◌≢◌, ◌∙◌, refl, sym, subst, arith, Option, none, some, List, [], ◌∷◌, ltb,
  ==_refl, ==_ne, Bool-cases, inl, inr, ℕ_discrete, get_elem?, erase_at, count, count-erase_at,
}
use mathlib.Core.Option.{some-injective}
use oslab.File.{
  FileEntry, Table, nfile, put_file, filealloc, filedup, Release, nothing, fileclose, fd_none,
  fd_pipe, fd_inode, close_pipe, put_inode,
}
use oslab.File.Calls.{
  Opens, filealloc-Opens, Closes, fileclose-Closes, fileclose-shared, fileclose-last,
}

-- The table, and the file pointers that its users hold, once for each reference.
pub record Users : Type 0 where
  pub table : Table
  pub held : List ℕ

pub data Step (s : Users) : Users → Type 0 where
  opens :
      (k : ℕ) {t : Table}
      → filealloc s.table ≡ some (k, t)
      → Step s (record { table = t; held = k ∷ s.held })
  dups :
      (i k : ℕ) {t : Table}
      → get_elem? s.held i ≡ some k
      → filedup k s.table ≡ some t
      → Step s (record { table = t; held = k ∷ s.held })
  closes :
      (i k : ℕ) (r : Release) {t : Table}
      → get_elem? s.held i ≡ some k
      → fileclose k s.table ≡ some (r, t)
      → Step s (record { table = t; held = erase_at s.held i })
  works :
      (i k : ℕ) (f : FileEntry)
      → get_elem? s.held i ≡ some k
      → f.refs ≡ (s.table k).refs
      → Step s (record s { table = put_file s.table k f })

pub data Reach (s : Users) : Users → Type 0 where
  here : Reach s s
  next : {t u : Users} → Reach s t → Step t u → Reach s u

-- Each file counts its pointers.
pub Counted : Users → Type 0
Counted s = (k : ℕ) → (s.table k).refs ≡ count k s.held

-- One file's count changes with its pointers.
put-Counted :
    (s : Users) (k : ℕ) (f : FileEntry) (held : List ℕ)
    → Counted s
    → f.refs ≡ count k held
    → ((j : ℕ) → j ≢ k → count j held ≡ count j s.held)
    → Counted (record { table = put_file s.table k f; held = held })
unfolding Counted
put-Counted s k f held v refs others j = elim (ℕ_discrete j k) [
  | yes e ↦ rw (e, ==_refl k) refs
  | no ne ↦ rw (==_ne j k ne) (v j ∙ sym (others j ne))
]

opens-Counted :
    (s : Users) (k : ℕ) (t : Table)
    → Counted s
    → filealloc s.table ≡ some (k, t)
    → Counted (record { table = t; held = k ∷ s.held })
unfolding Counted Opens
opens-Counted s k t v e =
    let h : Opens s.table (some (k, t)) = subst (Opens s.table) e (filealloc-Opens s.table) in
    let more : Counted (record {
      table = put_file s.table k (record (s.table k) { refs = 1 });
      held = k ∷ s.held;
    }) =
      put-Counted s k (record (s.table k) { refs = 1 }) (k ∷ s.held) v
        (ground (arith, v k, h.1, ==_refl k)) (λ j ne. ground (arith, ne)) in
    subst (λ u. Counted (record { table = u; held = k ∷ s.held })) (sym h.2) more

dups-Counted :
    (s : Users) (k : ℕ) (t : Table)
    → Counted s
    → filedup k s.table ≡ some t
    → Counted (record { table = t; held = k ∷ s.held })
unfolding Counted filedup
dups-Counted s k t v e = elim (Bool-cases (ltb (s.table k).refs 1)) [
  | inl free ↦ cc (rw free at e)
  | inr used ↦
      let f : FileEntry = record (s.table k) { refs = (s.table k).refs + 1 } in
      let is : put_file s.table k f ≡ t = some-injective _ _ (rw used at e) in
      subst (λ u. Counted (record { table = u; held = k ∷ s.held })) is
        (put-Counted s k f (k ∷ s.held) v (ground (arith, v k, ==_refl k))
          (λ j ne. ground (arith, ne)))
]

closes-Counted :
    (s : Users) (i k : ℕ) (r : Release) (t : Table)
    → Counted s
    → get_elem? s.held i ≡ some k
    → fileclose k s.table ≡ some (r, t)
    → Counted (record { table = t; held = erase_at s.held i })
unfolding Counted Closes
closes-Counted s i k r t v at e =
    let h : Closes k s.table (some (r, t)) =
      subst (Closes k s.table) e (fileclose-Closes k s.table) in
    let less = count-erase_at k s.held i k at in
    let others : (j : ℕ) → j ≢ k → count j (erase_at s.held i) ≡ count j s.held =
      λ j ne. ground (arith, count-erase_at j s.held i k at, ne) in
    elim h [
      | inl (more, nothing_done, is) ↦
          subst (λ u. Counted (record { table = u; held = erase_at s.held i })) (sym is)
            (put-Counted s k (record (s.table k) { refs = (s.table k).refs - 1 })
              (erase_at s.held i) v (ground (arith, v k, less, ==_refl k)) others)
      | inr (last, released, is) ↦
          subst (λ u. Counted (record { table = u; held = erase_at s.held i })) (sym is)
            (put-Counted s k (record (s.table k) { refs = 0; kind = fd_none }) (erase_at s.held i) v
              (ground (arith, v k, less, last, ==_refl k)) others)
    ]

Step-Counted : {s t : Users} → Step s t → Counted s → Counted t
unfolding Counted
Step-Counted {s} (opens k {t} e) v = opens-Counted s k t v e
Step-Counted {s} (dups i k {t} at e) v = dups-Counted s k t v e
Step-Counted {s} (closes i k r {t} at e) v = closes-Counted s i k r t v at e
Step-Counted {s} (works i k f at same) v = put-Counted s k f s.held v (same ∙ v k) (λ j ne. refl)

Reach-Counted : {s t : Users} → Counted s → Reach s t → Counted t
Reach-Counted v here = v
Reach-Counted v (next r st) = Step-Counted st (Reach-Counted v r)

-- The end of the `fileclose` that closes a file's last pointer: the file is free, and what it was is closed.
abbrev pub Last : ℕ → Table → Option (Release × Table) → Type 0
Last k t none = ⊥
Last k t (some (r, u)) =
    ((p : ℕ) → (t k).kind ≡ fd_pipe p → r ≡ close_pipe p (t k).writable)
    × ((ip : ℕ) → (t k).kind ≡ fd_inode ip → r ≡ put_inode ip)
    × ((t k).kind ≡ fd_none → r ≡ nothing)
    × (u ≡ put_file t k (record (t k) { refs = 0; kind = fd_none }))

fileclose-Last : (k : ℕ) (t : Table) → (t k).refs ≡ 1 → Last k t (fileclose k t)
fileclose-Last k t e =
    subst (Last k t) (sym (fileclose-last k t e))
      (λ p is. rw is refl, λ ip is. rw is refl, λ is. rw is refl, refl)

-- What the calls give in a state.
pub record Fair (s : Users) : Type 0 where
  pub counted : (k : ℕ) → (s.table k).refs ≡ count k s.held
  pub fresh : (k : ℕ) (t : Table) → filealloc s.table ≡ some (k, t) → count k s.held ≡ 0
  pub full : filealloc s.table ≡ none → (k : ℕ) → k < nfile → 0 < count k s.held
  pub shared :
      (k : ℕ)
      → 1 < count k s.held
      → fileclose k s.table
        ≡ some (nothing, put_file s.table k (record (s.table k) { refs = (s.table k).refs - 1 }))
  pub last : (k : ℕ) → count k s.held ≡ 1 → Last k s.table (fileclose k s.table)

-- Open files. Start from a table without references and let users open files with `filealloc`, share
-- them with `filedup` and close them with `fileclose`, in any order, with changes in between to the
-- files that they hold. Then in every state that is reached each file counts its pointers; `filealloc`
-- gives a file that nobody holds, and fails only when all 100 are held; `fileclose` of a held file
-- does not panic. With the last pointer it frees the file, and closes the pipe's end, by the file's
-- writable flag, or puts the inode; with another one it takes off one reference and closes nothing.
pub fileclose-Reach :
    (t : Table) (s : Users)
    → ((k : ℕ) → (t k).refs ≡ 0)
    → Reach (record { table = t; held = [] }) s
    → Fair s
unfolding Counted Opens
fileclose-Reach t s unused r =
    let v : Counted s = Reach-Counted unused r in
    record {
      counted = v;
      fresh = λ k u e.
          let h : Opens s.table (some (k, u)) = subst (Opens s.table) e (filealloc-Opens s.table) in
          sym (v k) ∙ h.1;
      full = λ e k lt.
          let h : Opens s.table none = subst (Opens s.table) e (filealloc-Opens s.table) in
          omega (arith, h k lt, v k);
      shared = λ k lt. fileclose-shared k s.table (omega (arith, v k, lt));
      last = λ k one. fileclose-Last k s.table (v k ∙ one);
    }
