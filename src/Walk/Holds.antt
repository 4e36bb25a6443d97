-- ===== src/Walk/Holds.antt =====
-- References that `namex` of xv6/fs.c holds, step by step.
use oslab.Common.{
  ℕ, ◌+◌, ◌<◌, ◌≡◌, ◌∙◌, refl, sym, ap, arith, Bool, true, false, Option, none, some, List, ◌==◌,
  if◌then◌else◌, ==_refl, ==_ne, ℕ_discrete, ◌*◌, ◌%◌, Bool-cases, inl, inr,
}
use mathlib.Core.Option.{some-injective}
use oslab.Fs.{ipb, iblock}
use oslab.Fs.Inode.{Inode, File, short_at, ilock}
use oslab.Fs.Icache.{Icache, iput}
use oslab.Fs.Icache.Puts.{iput-Puts}
use oslab.Walk.{Outcome, done, panic, timeout, put_none}
use oslab.Walk.Refs.{SameRefs}

abbrev pub found_at : Option ℕ → ℕ → ℕ
found_at none j = 0
found_at (some k) j = if j == k then 1 else 0

-- The ends of a walk with a reference to entry `k`: it does not run out of fuel; if it does not panic
-- either, the reference is given back, and the result has one.
abbrev pub Walks : ℕ → Icache → Outcome (Option ℕ × List ℕ × Icache) → Type 0
Walks k c timeout = ⊥
Walks k c panic = Unit
Walks k c (done r) =
    (j : ℕ) → (r.2.inode j).refs + (if j == k then 1 else 0) ≡ (c.inode j).refs + found_at r.0 j

pub Walks-if :
    (k : ℕ) (c : Icache) (b : Bool) (x y : Outcome (Option ℕ × List ℕ × Icache))
    → Walks k c x
    → Walks k c y
    → Walks k c (if b then x else y)
Walks-if k c true x y h i = h
Walks-if k c false x y h i = i

pub Walks-after :
    (k : ℕ) (c d : Icache) (r : Outcome (Option ℕ × List ℕ × Icache))
    → SameRefs c d
    → Walks k d r
    → Walks k c r
Walks-after k c d timeout same h = h
Walks-after k c d panic same h = tt
Walks-after k c d (done r) same h = λ j. h j ∙ ap (λ n. n + found_at r.0 j) (same j)

-- `iput` of a pointer with a reference.
pub iput-less :
    (k : ℕ) (c d : Icache)
    → iput k c ≡ some d
    → 0 < (c.inode k).refs
    → (j : ℕ) → (d.inode j).refs + (if j == k then 1 else 0) ≡ (c.inode j).refs
iput-less k c d e held j =
    let p = iput-Puts k c d e in
    elim (ℕ_discrete j k) [
      | yes eq ↦ rw (eq, ==_refl k) (omega (arith, p.refs, held))
      | no ne ↦ rw (==_ne j k ne) (omega (arith, ap (λ (x : Inode). x.refs) (p.away j ne)))
    ]

pub put_none-Walks :
    (k : ℕ) (name : List ℕ) (c : Icache) → 0 < (c.inode k).refs → Walks k c (put_none k name c)
unfolding put_none
put_none-Walks k name c held = go (iput k c) refl
  where
    go :
        (r : Option Icache)
        → iput k c ≡ r
        → Walks k c (elim r [ none ↦ panic | some d ↦ done (none, name, d) ])
    go none e = tt
    go (some d) e = λ j. iput-less k c d e held j ∙ omega arith

pub ilock-refs : (f : File) (ip : Inode) → ilock f ≡ some ip → ip.refs ≡ f.ip.refs
unfolding ilock
ilock-refs f ip e =
    let at = f.ip.inum % ipb * 64 in
    let bytes = f.fs.block (iblock f.ip.inum f.fs.sb) in
    elim (Bool-cases (f.ip.refs == 0)) [
      | inl free ↦ cc (rw free at e)
      | inr held ↦ elim (Bool-cases f.ip.valid) [
        | inl read ↦ ap (λ (x : Inode). x.refs) (sym (some-injective _ _ (rw (held, read) at e)))
        | inr unread ↦ elim (Bool-cases (short_at bytes at == 0)) [
          | inl none_there ↦ cc (rw (held, unread, none_there) at e)
          | inr there ↦
              ap (λ (x : Inode). x.refs) (sym (some-injective _ _ (rw (held, unread, there) at e)))
        ]
      ]
    ]
