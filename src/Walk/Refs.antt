-- ===== src/Walk/Refs.antt =====
-- The references that `dirlookup` of xv6/fs.c takes, and that it ends.
use oslab.Common.{
  ℕ, zero, suc, ◌+◌, ◌*◌, ◌≤◌, ◌≡◌, ◌∙◌, refl, ap, subst, arith, Bool, true, false, not, Option,
  none, some, List, ◌==◌, ltb, if◌then◌else◌, ==_refl, ==_ne, Bool-cases, inl, inr, ℕ_discrete,
  le→ltb,
}
use oslab.Common.Int.{ℤ}
use oslab.Fs.Inode.{File, Dev, short_at, readi}
use oslab.Fs.Icache.{Icache, iget}
use oslab.Fs.Icache.Gets.{Gets, iget-Gets}
use oslab.Walk.{
  Outcome, done, panic, timeout, t_dir, file_at, put_back, is_pos, same_name, lookup_from,
  dirlookup,
}
use oslab.Walk.Lookup.{Kept, readi-Kept}

-- One more reference to entry `k`, or none.
abbrev pub Adds : Icache → Icache → ℕ → Type 0
Adds c d k = (j : ℕ) → (d.inode j).refs ≡ (c.inode j).refs + (if j == k then 1 else 0)

abbrev pub SameRefs : Icache → Icache → Type 0
SameRefs c d = (j : ℕ) → (d.inode j).refs ≡ (c.inode j).refs

pub iget-Adds : (dev inum k : ℕ) (c d : Icache) → iget dev inum c ≡ some (k, d) → Adds c d k
iget-Adds dev inum k c d e =
    let g : Gets dev inum c (some (k, d)) = subst (Gets dev inum c) e (iget-Gets dev inum c) in
    elim g.1 [
      | inl (hit, is) ↦ rw is (λ j. elim (ℕ_discrete j k) [
        | yes eq ↦ rw (eq, ==_refl k) refl
        | no ne ↦ rw (==_ne j k ne) (omega arith)
      ])
      | inr (miss, free, is) ↦ rw is (λ j. elim (ℕ_discrete j k) [
        | yes eq ↦ rw (eq, ==_refl k) (omega (arith, free))
        | no ne ↦ rw (==_ne j k ne) (omega arith)
      ])
    ]

-- The ends of `dirlookup`: it never runs out of fuel, and what it finds has one more reference.
abbrev pub Looks : Icache → Outcome (Option (ℕ × ℕ) × Icache) → Type 0
Looks c timeout = ⊥
Looks c panic = Unit
Looks c (done (none, d)) = SameRefs c d
Looks c (done (some (j, off), d)) = Adds c d j

Looks-after :
    (c d : Icache) (r : Outcome (Option (ℕ × ℕ) × Icache)) → SameRefs c d → Looks d r → Looks c r
Looks-after c d timeout same h = h
Looks-after c d panic same h = tt
Looks-after c d (done (none, e)) same h = λ j. h j ∙ same j
Looks-after c d (done (some (k, off), e)) same h =
    λ j. h j ∙ ap (λ n. n + (if j == k then 1 else 0)) (same j)

Looks-if :
    (c : Icache) (b : Bool) (x y : Outcome (Option (ℕ × ℕ) × Icache))
    → Looks c x
    → Looks c y
    → Looks c (if b then x else y)
Looks-if c true x y h k = h
Looks-if c false x y h k = k

pub put_back-SameRefs :
    (c : Icache) (k : ℕ) (f : File) → Kept f.ip (c.inode k) → SameRefs c (put_back c k f)
put_back-SameRefs c k f kept j = elim (ℕ_discrete j k) [
  | yes e ↦ rw (e, ==_refl k) kept.0
  | no ne ↦ rw (==_ne j k ne) refl
]

module _ (devsw : ℕ → Dev) where
  lookup_from-Looks :
      (rounds off k : ℕ) (name : List ℕ) (c : Icache)
      → (c.inode k).size ≤ off + 16 * rounds
      → Looks c (lookup_from devsw rounds off k name c)
  unfolding lookup_from
  lookup_from-Looks zero off k name c enough =
      rw (le→ltb off (c.inode k).size (omega arith)) (λ j. refl)
  lookup_from-Looks (suc rounds) off k name c enough =
      elim (Bool-cases (ltb off (c.inode k).size)) [
        | inr past ↦ rw (past, lookup_from) (λ j. refl)
        | inl more ↦
            rw (more, lookup_from)
              (go (lookup_from-Looks rounds) (readi devsw off 16 (λ j. 0) (file_at c k))
                (readi-Kept devsw off 16 (λ j. 0) (file_at c k)))
      ]
    where
      found :
          (off : ℕ) (d : Icache) (r : Option (ℕ × Icache)) (dev inum : ℕ)
          → iget dev inum d ≡ r
          → Looks d (elim r [ none ↦ panic | some (j, e) ↦ done (some (j, off), e) ])
      found off d none dev inum e = tt
      found off d (some (j, g)) dev inum e = iget-Adds dev inum j d g e

      go :
          ((off k : ℕ) (name : List ℕ) (c : Icache)
            → (c.inode k).size ≤ off + 16 * rounds
            → Looks c (lookup_from devsw rounds off k name c))
          → (r : Option (ℤ × (ℕ → ℕ) × File))
          → ((x : ℤ × (ℕ → ℕ) × File) → r ≡ some x → Kept x.2.ip (c.inode k))
          → Looks c (elim r [
            | none ↦ panic
            | some (r, de, f) ↦
                let d = put_back c k f in
                let rest = lookup_from devsw rounds (off + 16) k name d in
                if not (is_pos 16 r)
                then panic
                else if short_at de 0 == 0
                then rest
                else if same_name name de
                then elim (iget (d.inode k).dev (short_at de 0) d) [
                  | none ↦ panic
                  | some (j, e) ↦ done (some (j, off), e)
                ]
                else rest
          ])
      go later none kept = tt
      go later (some (r, de, f)) kept =
          let d = put_back c k f in
          let same = kept (r, de, f) refl in
          let size : (d.inode k).size ≡ (c.inode k).size = rw (==_refl k) same.3 in
          let rest = later (off + 16) k name d (omega (arith, size)) in
          Looks-after c d _ (put_back-SameRefs c k f same) (
            Looks-if d (not (is_pos 16 r)) panic _ tt (
              Looks-if d (short_at de 0 == 0) _ _ rest (
                Looks-if d (same_name name de) _ _
                  (found off d (iget (d.inode k).dev (short_at de 0) d) (d.inode k).dev
                    (short_at de 0) refl)
                  rest)))

  pub dirlookup-Looks : (k : ℕ) (name : List ℕ) (c : Icache) → Looks c (dirlookup devsw k name c)
  unfolding dirlookup
  dirlookup-Looks k name c =
      Looks-if c ((c.inode k).type == t_dir) (lookup_from devsw (c.inode k).size 0 k name c) panic
        (lookup_from-Looks (c.inode k).size 0 k name c (omega arith)) tt
