-- ===== src/Walk/Link.antt =====
-- `dirlink` of xv6/fs.c.
use oslab.Common.{
  ℕ, zero, suc, ◌+◌, ◌-◌, ◌*◌, ◌/◌, ◌%◌, ◌≤◌, ◌≡◌, ◌∙◌, refl, arith, Bool, true, false, not, Option,
  none, some, List, ◌==◌, ltb, if◌then◌else◌, get_or, ==_refl, ==_ne, Bool-cases, inl, inr,
  ℕ_discrete, le→ltb,
}
use oslab.Common.Int.{ℤ, pos, negsuc}
use oslab.Fs.Inode.{File, Dev, short_at, readi, writei}
use oslab.Fs.Icache.{Icache, iput}
use oslab.Walk.{Outcome, done, panic, timeout, file_at, put_back, is_pos, dirlookup}
use oslab.Walk.Lookup.{Kept, readi-Kept}
use oslab.Walk.Refs.{Adds, SameRefs, Looks, dirlookup-Looks}
use oslab.Walk.Holds.{iput-less}
use oslab.Walk.Stores.{writei-refs}

-- The bytes of a directory entry: the number, and the name padded with zeros as `strncpy` does.
abbrev pub dirent : List ℕ → ℕ → ℕ → ℕ
dirent name inum j =
    if j == 0 then inum % 256 else if j == 1 then inum / 256 % 256 else get_or name (j - 2) 0

module _ (devsw : ℕ → Dev) where
  -- The loop of `dirlink`: the offset of the first entry that is empty, or the size.
  unfoldable pub free_entry : ℕ → ℕ → ℕ → Icache → Outcome (ℕ × Icache)
  free_entry zero off k c = if ltb off (c.inode k).size then timeout else done (off, c)
  free_entry (suc rounds) off k c = elim (ltb off (c.inode k).size) [
    | false ↦ done (off, c)
    | true ↦ elim (readi devsw off 16 (λ j. 0) (file_at c k)) [
      | none ↦ panic
      | some (r, de, f) ↦
          let d = put_back c k f in
          let rest = free_entry rounds (off + 16) k d in
          if not (is_pos 16 r) then panic else if short_at de 0 == 0 then done (off, d) else rest
    ]
  ]

  -- The store of the entry.
  unfoldable pub put_entry : ℕ → ℕ → List ℕ → ℕ → Icache → Outcome (ℤ × Icache)
  put_entry off k name inum c = elim (writei devsw off 16 (dirent name inum) (file_at c k)) [
    | none ↦ panic
    | some (r, f) ↦ if is_pos 16 r then done (pos 0, put_back c k f) else panic
  ]

  -- `dirlink`
  unfoldable pub dirlink : ℕ → List ℕ → ℕ → Icache → Outcome (ℤ × Icache)
  dirlink k name inum c = elim (dirlookup devsw k name c) [
    | panic ↦ panic
    | timeout ↦ timeout
    | done (some (j, off), d) ↦ elim (iput j d) [ none ↦ panic | some e ↦ done (negsuc 0, e) ]
    | done (none, d) ↦ elim (free_entry (d.inode k).size 0 k d) [
      | panic ↦ panic
      | timeout ↦ timeout
      | done (off, e) ↦ put_entry off k name inum e
    ]
  ]

-- The ends of a call that takes no reference for its caller.
abbrev pub Balanced : {A : Type 0} → Icache → Outcome (A × Icache) → Type 0
Balanced c timeout = ⊥
Balanced c panic = Unit
Balanced c (done r) = SameRefs c r.1

Balanced-if :
    {A : Type 0} (c : Icache) (b : Bool) (x y : Outcome (A × Icache))
    → Balanced c x
    → Balanced c y
    → Balanced c (if b then x else y)
Balanced-if c true x y h k = h
Balanced-if c false x y h k = k

Balanced-after :
    {A : Type 0} (c d : Icache) (r : Outcome (A × Icache))
    → SameRefs c d
    → Balanced d r
    → Balanced c r
Balanced-after c d panic same h = tt
Balanced-after c d timeout same h = h
Balanced-after c d (done r) same h = λ j. h j ∙ same j

put_back_refs :
    (c : Icache) (k : ℕ) (f : File) → f.ip.refs ≡ (c.inode k).refs → SameRefs c (put_back c k f)
put_back_refs c k f same j = elim (ℕ_discrete j k) [
  | yes e ↦ rw (e, ==_refl k) same
  | no ne ↦ rw (==_ne j k ne) refl
]

module _ (devsw : ℕ → Dev) where
  free_entry-Balanced :
      (rounds off k : ℕ) (c : Icache)
      → (c.inode k).size ≤ off + 16 * rounds
      → Balanced c (free_entry devsw rounds off k c)
  unfolding free_entry
  free_entry-Balanced zero off k c enough =
      rw (le→ltb off (c.inode k).size (omega arith)) (λ j. refl)
  free_entry-Balanced (suc rounds) off k c enough = elim (Bool-cases (ltb off (c.inode k).size)) [
    | inr past ↦ rw (past, free_entry) (λ j. refl)
    | inl more ↦
        rw (more, free_entry)
          (go (free_entry-Balanced rounds) (readi devsw off 16 (λ j. 0) (file_at c k))
            (readi-Kept devsw off 16 (λ j. 0) (file_at c k)))
  ]
    where
      go :
          ((off k : ℕ) (c : Icache)
            → (c.inode k).size ≤ off + 16 * rounds
            → Balanced c (free_entry devsw rounds off k c))
          → (r : Option (ℤ × (ℕ → ℕ) × File))
          → ((x : ℤ × (ℕ → ℕ) × File) → r ≡ some x → Kept x.2.ip (c.inode k))
          → Balanced c (elim r [
            | none ↦ panic
            | some (r, de, f) ↦
                let d = put_back c k f in
                let rest = free_entry devsw rounds (off + 16) k d in
                if not (is_pos 16 r)
                then panic
                else if short_at de 0 == 0
                then done (off, d)
                else rest
          ])
      go later none kept = tt
      go later (some (r, de, f)) kept =
          let d = put_back c k f in
          let same = kept (r, de, f) refl in
          let size : (d.inode k).size ≡ (c.inode k).size = rw (==_refl k) same.3 in
          let rest = later (off + 16) k d (omega (arith, size)) in
          Balanced-after c d _ (put_back_refs c k f same.0) (
            Balanced-if d (not (is_pos 16 r)) panic _ tt
              (Balanced-if d (short_at de 0 == 0) (done (off, d)) _ (λ j. refl) rest))

  put_entry-Balanced :
      (off k : ℕ) (name : List ℕ) (inum : ℕ) (c : Icache)
      → Balanced c (put_entry devsw off k name inum c)
  unfolding put_entry
  put_entry-Balanced off k name inum c =
      go (writei devsw off 16 (dirent name inum) (file_at c k))
        (writei-refs devsw off 16 (dirent name inum) (file_at c k))
    where
      go :
          (r : Option (ℤ × File))
          → ((x : ℤ × File) → r ≡ some x → x.1.ip.refs ≡ (c.inode k).refs)
          → Balanced c (elim r [
            | none ↦ panic
            | some (r, f) ↦ if is_pos 16 r then done (pos 0, put_back c k f) else panic
          ])
      go none kept = tt
      go (some (r, f)) kept =
          Balanced-if c (is_pos 16 r) (done (pos 0, put_back c k f)) panic
            (put_back_refs c k f (kept (r, f) refl)) tt

  -- `dirlink` ends, and if it does not panic the counts of references are as before the call, also
  -- where it finds the name and gives back the pointer that `dirlookup` took.
  pub dirlink-Balanced :
      (k : ℕ) (name : List ℕ) (inum : ℕ) (c : Icache) → Balanced c (dirlink devsw k name inum c)
  unfolding dirlink
  dirlink-Balanced k name inum c = go (dirlookup devsw k name c) (dirlookup-Looks devsw k name c)
    where
      stores :
          (d : Icache) (r : Outcome (ℕ × Icache))
          → Balanced d r
          → Balanced d (elim r [
            | panic ↦ panic
            | timeout ↦ timeout
            | done (off, e) ↦ put_entry devsw off k name inum e
          ])
      stores d panic h = tt
      stores d timeout h = h
      stores d (done (off, e)) h =
          Balanced-after d e (put_entry devsw off k name inum e) h
            (put_entry-Balanced off k name inum e)

      gives :
          (j : ℕ) (d : Icache) (r : Option Icache)
          → Adds c d j
          → iput j d ≡ r
          → Balanced c (elim r [ none ↦ panic | some e ↦ done (negsuc 0, e) ])
      gives j d none more e = tt
      gives j d (some g) more e = λ i.
          let less = iput-less j d g e (ground (arith, more j, ==_refl j)) i in
          omega (arith, less, more i)

      go :
          (r : Outcome (Option (ℕ × ℕ) × Icache))
          → Looks c r
          → Balanced c (elim r [
            | panic ↦ panic
            | timeout ↦ timeout
            | done (some (j, off), d) ↦ elim (iput j d) [
              | none ↦ panic
              | some e ↦ done (negsuc 0, e)
            ]
            | done (none, d) ↦ elim (free_entry devsw (d.inode k).size 0 k d) [
              | panic ↦ panic
              | timeout ↦ timeout
              | done (off, e) ↦ put_entry devsw off k name inum e
            ]
          ])
      go panic h = tt
      go timeout h = h
      go (done (some (j, off), d)) h = gives j d (iput j d) h refl
      go (done (none, d)) h = Balanced-after c d _ h (
          stores d (free_entry devsw (d.inode k).size 0 k d)
            (free_entry-Balanced (d.inode k).size 0 k d (omega arith)))
