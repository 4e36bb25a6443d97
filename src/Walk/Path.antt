-- ===== src/Walk/Path.antt =====
-- `namex` of xv6/fs.c ends, and keeps the references of the inodes balanced.
use oslab.Common.{
  ℕ, zero, suc, ◌+◌, ◌<◌, ◌≡◌, refl, arith, Bool, not, ◌&&◌, Option, none, some, List, [], ◌==◌,
  if◌then◌else◌, ==_refl, ==_ne, ℕ_discrete, length, Bool-cases, inl, inr,
}
use oslab.Fs.Inode.{Inode, Dev, ilock}
use oslab.Fs.Icache.{Icache, put_inode, iget, idup, iput}
use oslab.Path.{skipelem}
use oslab.Path.Elements.{Skips, skipelem-Skips}
use oslab.Walk.{
  Outcome, done, panic, timeout, t_dir, file_at, dirlookup, put_none, is_end, namex_from,
  starts_slash, namex,
}
use oslab.Walk.Refs.{Adds, SameRefs, iget-Adds, Looks, dirlookup-Looks}
use oslab.Walk.Holds.{found_at, Walks, Walks-if, Walks-after, iput-less, put_none-Walks, ilock-refs}

module _ (devsw : ℕ → Dev) where
  -- After `dirlookup`: the walk goes on from what was found.
  looked-Walks :
      (rounds k : ℕ) (parent : Bool) (rest element : List ℕ) (c : Icache)
      (r : Outcome (Option (ℕ × ℕ) × Icache))
      → ((j : ℕ) (d : Icache)
          → 0 < (d.inode j).refs
          → Walks j d (namex_from devsw rounds parent rest element j d))
      → 0 < (c.inode k).refs
      → Looks c r
      → Walks k c (elim r [
        | panic ↦ panic
        | timeout ↦ timeout
        | done (none, e) ↦ put_none k element e
        | done (some (j, off), e) ↦ elim (iput k e) [
          | none ↦ panic
          | some g ↦ namex_from devsw rounds parent rest element j g
        ]
      ])
  looked-Walks rounds k parent rest element c panic later held h = tt
  looked-Walks rounds k parent rest element c timeout later held h = h
  looked-Walks rounds k parent rest element c (done (none, e)) later held h =
      Walks-after k c e (put_none k element e) h
        (put_none-Walks k element e (omega (arith, h k, held)))
  looked-Walks rounds k parent rest element c (done (some (i, off), e)) later held h =
      go (iput k e) refl
    where
      on :
          (g : Icache) (r : Outcome (Option ℕ × List ℕ × Icache))
          → ((j : ℕ) → (g.inode j).refs + (if j == k then 1 else 0) ≡ (e.inode j).refs)
          → Walks i g r
          → Walks k c r
      on g timeout less w = w
      on g panic less w = tt
      on g (done r) less w = λ j. ground (arith, less j, w j, h j)

      go :
          (r : Option Icache)
          → iput k e ≡ r
          → Walks k c
              (elim r [ none ↦ panic | some g ↦ namex_from devsw rounds parent rest element i g ])
      go none eq = tt
      go (some g) eq =
          let less = iput-less k e g eq (omega (arith, h k, held)) in
          on g (namex_from devsw rounds parent rest element i g) less
            (later i g (ground (arith, less i, h i, held)))

  namex_from-Walks :
      (rounds : ℕ) (parent : Bool) (path name : List ℕ) (k : ℕ) (c : Icache)
      → length path < rounds
      → 0 < (c.inode k).refs
      → Walks k c (namex_from devsw rounds parent path name k c)
  unfolding namex_from
  namex_from-Walks zero parent path name k c enough held = absurd (omega arith)
  namex_from-Walks (suc rounds) parent path name k c enough held =
      go (λ parent rest element j d lt. namex_from-Walks rounds parent rest element j d lt)
        (skipelem path) (skipelem-Skips path)
    where
      locked :
          (element rest : List ℕ) (r : Option Inode)
          → ((j : ℕ) (d : Icache)
              → 0 < (d.inode j).refs
              → Walks j d (namex_from devsw rounds parent rest element j d))
          → ((ip : Inode) → r ≡ some ip → ip.refs ≡ (c.inode k).refs)
          → Walks k c (elim r [
            | none ↦ panic
            | some ip ↦
                let d = put_inode c k ip in
                if not (ip.type == t_dir)
                then put_none k element d
                else if parent && is_end rest
                then done (some k, element, d)
                else elim (dirlookup devsw k element d) [
                  | panic ↦ panic
                  | timeout ↦ timeout
                  | done (none, e) ↦ put_none k element e
                  | done (some (j, off), e) ↦ elim (iput k e) [
                    | none ↦ panic
                    | some g ↦ namex_from devsw rounds parent rest element j g
                  ]
                ]
          ])
      locked element rest none later kept = tt
      locked element rest (some ip) later kept =
          let d = put_inode c k ip in
          let same : SameRefs c d = λ j. elim (ℕ_discrete j k) [
            | yes e ↦ rw (e, ==_refl k) (kept ip refl)
            | no ne ↦ rw (==_ne j k ne) refl
          ] in
          let mine : 0 < (d.inode k).refs = omega (arith, same k, held) in
          Walks-after k c d _ same (
            Walks-if k d (not (ip.type == t_dir)) _ _ (put_none-Walks k element d mine) (
              Walks-if k d (parent && is_end rest) _ _ (λ j. refl)
                (looked-Walks rounds k parent rest element d (dirlookup devsw k element d) later
                  mine (dirlookup-Looks devsw k element d))))

      go :
          ((parent : Bool) (rest element : List ℕ) (j : ℕ) (d : Icache)
            → length rest < rounds
            → 0 < (d.inode j).refs
            → Walks j d (namex_from devsw rounds parent rest element j d))
          → (r : Option (List ℕ × List ℕ)) → Skips path r
          → Walks k c (elim r [
            | none ↦ if parent then put_none k name c else done (some k, name, c)
            | some (element, rest) ↦ elim (ilock (file_at c k)) [
              | none ↦ panic
              | some ip ↦
                  let d = put_inode c k ip in
                  if not (ip.type == t_dir)
                  then put_none k element d
                  else if parent && is_end rest
                  then done (some k, element, d)
                  else elim (dirlookup devsw k element d) [
                    | panic ↦ panic
                    | timeout ↦ timeout
                    | done (none, e) ↦ put_none k element e
                    | done (some (j, off), e) ↦ elim (iput k e) [
                      | none ↦ panic
                      | some g ↦ namex_from devsw rounds parent rest element j g
                    ]
                  ]
            ]
          ])
      go later none h =
          Walks-if k c parent (put_none k name c) (done (some k, name, c))
            (put_none-Walks k name c held) (λ j. refl)
      go later (some (element, rest)) h =
          locked element rest (ilock (file_at c k))
            (λ j d mine. later parent rest element j d (omega (arith, h.2)) mine)
            (ilock-refs (file_at c k))

-- The end of a call of `namex`: no pointer is lost, and the result, if there is one, has one reference.
abbrev pub Named : Icache → Outcome (Option ℕ × List ℕ × Icache) → Type 0
Named c timeout = ⊥
Named c panic = Unit
Named c (done r) = (j : ℕ) → (r.2.inode j).refs ≡ (c.inode j).refs + found_at r.0 j

Walks-Named :
    (k : ℕ) (c d : Icache) (r : Outcome (Option ℕ × List ℕ × Icache))
    → Adds c d k
    → Walks k d r
    → Named c r
Walks-Named k c d timeout more w = w
Walks-Named k c d panic more w = tt
Walks-Named k c d (done r) more w = λ j. omega (arith, w j, more j)

idup-Adds : (k : ℕ) (c : Icache) → Adds c (idup k c) k
unfolding idup
idup-Adds k c j = elim (ℕ_discrete j k) [
  | yes e ↦ rw (e, ==_refl k) refl
  | no ne ↦ rw (==_ne j k ne) (omega arith)
]

-- `namex` ends, in at most one round for each byte of the path and one more, with as many rounds for a
-- directory as it has bytes. If it does not panic, it has given back every reference that it took, but
-- for one to the inode that it returns: every other count of references is as before the call.
pub namex-Named :
    (devsw : ℕ → Dev) (parent : Bool) (path : List ℕ) (cwd : ℕ) (c : Icache)
    → Named c (namex devsw parent path cwd c)
unfolding namex
namex-Named devsw parent path cwd c = elim (Bool-cases (starts_slash path)) [
  | inr relative ↦ rw relative (
      let more = idup-Adds cwd c in
      Walks-Named cwd c (idup cwd c) _ more (
        namex_from-Walks devsw (suc (length path)) parent path [] cwd (idup cwd c) (omega arith)
          (ground (arith, more cwd, ==_refl cwd))))
  | inl absolute ↦ rw absolute (go (iget 1 1 c) refl)
]
  where
    go :
        (r : Option (ℕ × Icache))
        → iget 1 1 c ≡ r
        → Named c (elim r [
          | none ↦ panic
          | some (k, d) ↦ namex_from devsw (suc (length path)) parent path [] k d
        ])
    go none e = tt
    go (some (k, d)) e =
        let more = iget-Adds 1 1 k c d e in
        Walks-Named k c d _ more (
          namex_from-Walks devsw (suc (length path)) parent path [] k d (omega arith)
            (ground (arith, more k, ==_refl k)))
