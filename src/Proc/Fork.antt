-- ===== src/Proc/Fork.antt =====
-- `allocproc`, `fork` and `userinit` of xv6/proc.c: the slot that a new process gets, and the tree.
use oslab.Common.{
  ℕ, ◌+◌, ◌<◌, ◌≡◌, ◌≢◌, ◌⊎◌, ◌^◌, ◌-◌, refl, sym, arith, true, false, Option, none, some, ◌==◌,
  if◌then◌else◌, Bool-cases, inl, inr, ℕ_discrete, dec_lt, ==_refl, ==_ne,
}
use oslab.Proc.{
  nproc, State, Proc, Table, put, is_unused, is_alive, scan, embryo_in, set_state, allocproc,
  fork_child, fork,
}
use oslab.Proc.Scan.{Scanned, scan-Scanned}
use oslab.Proc.Invariant.{IsTree, Keeps-IsTree, refl-Same, leaf-IsTree}

is_unused-eq : (s : State) → is_unused s ≡ true → s ≡ State.unused
is_unused-eq State.unused h = refl
is_unused-eq State.embryo h = cc
is_unused-eq State.sleeping h = cc
is_unused-eq State.runnable h = cc
is_unused-eq State.running h = cc
is_unused-eq State.zombie h = cc

-- Slot `i` is the first that is unused.
pub record IsFirst (t : Table) (i : ℕ) : Type 0 where
  pub in_range : i < nproc
  pub unused : (t.proc i).state ≡ State.unused
  pub first : (j : ℕ) → j < i → is_unused (t.proc j).state ≡ false

-- The ends of `allocproc`.
pub data Allocates (kstack : ℕ) (t : Table) : Option ℕ × Table → Type 0 where
  full : ((j : ℕ) → j < nproc → is_unused (t.proc j).state ≡ false) → Allocates kstack t (none, t)
  no_stack :
      (i : ℕ)
      → IsFirst t i
      → kstack ≡ 0
      → Allocates kstack t (none, set_state (embryo_in t i) i State.unused)
  gives :
      (i : ℕ)
      → IsFirst t i
      → 0 < kstack
      → Allocates kstack t
          (some i, put (embryo_in t i) i (record ((embryo_in t i).proc i) { kstack = kstack }))

pub allocproc-Allocates : (kstack : ℕ) (t : Table) → Allocates kstack t (allocproc kstack t)
unfolding allocproc
allocproc-Allocates kstack t =
    go (scan (λ p. is_unused p.state) nproc 0 t)
      (scan-Scanned (λ p. is_unused p.state) nproc 0 nproc t refl)
  where
    go :
        (r : Option ℕ)
        → Scanned (λ p. is_unused p.state) 0 nproc t r
        → Allocates kstack t (elim r [
          | none ↦ (none, t)
          | some i ↦
              let u = embryo_in t i in
              if kstack == 0
              then (none, set_state u i State.unused)
              else (some i, put u i (record (u.proc i) { kstack = kstack }))
        ])
    go none h = full (λ j lt. h j (omega arith) lt)
    go (some i) h =
        let first : IsFirst t i = record {
          in_range = h.1;
          unused = is_unused-eq (t.proc i).state h.2;
          first = λ j lt. h.3 j (omega arith) lt;
        } in
        elim (Bool-cases (kstack == 0)) [
          | inl z ↦ rw z (no_stack i first (ground arith))
          | inr nz ↦ rw nz (gives i first (ground arith))
        ]

nextpid-IsTree : (t : Table) (n : ℕ) → IsTree t → IsTree (record t { nextpid = n })
nextpid-IsTree t n =
    Keeps-IsTree t (record t { nextpid = n }) refl (λ j. (refl-Same (t.proc j), λ w. w))

-- A slot without a live process is filled with none.
blank-IsTree :
    (t : Table) (i : ℕ) (p : Proc)
    → is_alive (t.proc i).state ≡ false
    → (p.state ≡ State.unused) ⊎ (p.state ≡ State.embryo)
    → IsTree t
    → IsTree (put t i p)
blank-IsTree t i p dead (inl e) =
    leaf-IsTree t i p dead (rw e refl) (rw e refl)
      (λ live. let l : false ≡ true = rw e at live in cc)
blank-IsTree t i p dead (inr e) =
    leaf-IsTree t i p dead (rw e refl) (rw e refl)
      (λ live. let l : false ≡ true = rw e at live in cc)

embryo_in-IsTree :
    (t : Table) (i : ℕ) → is_alive (t.proc i).state ≡ false → IsTree t → IsTree (embryo_in t i)
embryo_in-IsTree t i dead h =
    let p = record (t.proc i) { state = State.embryo; pid = t.nextpid; scheduler = 2 ^ 32 - 1 } in
    nextpid-IsTree (put t i p) (t.nextpid + 1) (blank-IsTree t i p dead (inr refl) h)

Allocates-IsTree :
    (kstack : ℕ) (t : Table) (r : Option ℕ × Table) → Allocates kstack t r → IsTree t → IsTree r.1
Allocates-IsTree kstack t r (full _) h = h
Allocates-IsTree kstack t r (no_stack i f z) h =
    blank-IsTree (embryo_in t i) i _ (rw (==_refl i) refl) (inl refl)
      (embryo_in-IsTree t i (rw f.unused refl) h)
Allocates-IsTree kstack t r (gives i f nz) h =
    blank-IsTree (embryo_in t i) i _ (rw (==_refl i) refl) (inr (rw (==_refl i) refl))
      (embryo_in-IsTree t i (rw f.unused refl) h)

pub allocproc-IsTree : (kstack : ℕ) (t : Table) → IsTree t → IsTree (allocproc kstack t).1
allocproc-IsTree kstack t =
    Allocates-IsTree kstack t (allocproc kstack t) (allocproc-Allocates kstack t)

-- Whatever `fork` makes of the slot that it was given, the table stays a tree.
pub fork_child-IsTree :
    (me i pgdir : ℕ) (t : Table)
    → me < nproc
    → is_alive (t.proc me).state ≡ true
    → is_alive (t.proc i).state ≡ false
    → IsTree t
    → IsTree (fork_child me i pgdir t).1
unfolding fork_child
fork_child-IsTree me i pgdir t lt live dead h = elim (Bool-cases (pgdir == 0)) [
  | inl z ↦ rw z (blank-IsTree t i _ dead (inl refl) h)
  | inr nz ↦ rw nz (leaf-IsTree t i _ dead refl refl (λ _. (me, refl, lt, live)) h)
]

-- What `fork` by slot `me` makes of its slot `i`; every other slot is as before.
pub record Forked (me i kstack pgdir : ℕ) (t t' : Table) : Type 0 where
  pub first : IsFirst t i
  pub others : (j : ℕ) → i ≢ j → t'.proc j ≡ t.proc j
  pub child : t'.proc i ≡ record (t.proc i) {
    state = State.runnable;
    pid = t.nextpid;
    scheduler = 2 ^ 32 - 1;
    kstack = kstack;
    pgdir = pgdir;
    sz = (t.proc me).sz;
    parent = some me;
  }

-- `fork` fails exactly when no slot is unused, or there is no kernel stack or no page table for the
-- child.
abbrev pub CannotFork : ℕ → ℕ → Table → Type 0
CannotFork kstack pgdir t =
    ((j : ℕ) → j < nproc → is_unused (t.proc j).state ≡ false) ⊎ ((kstack ≡ 0) ⊎ (pgdir ≡ 0))

used-apart : (t : Table) (i j : ℕ) → IsFirst t i → is_unused (t.proc j).state ≡ false → i ≢ j
used-apart t i j f used e =
    let is : is_unused (t.proc j).state ≡ true = rw (sym e, f.unused) refl in cc

pub IsFirst-unique : (t : Table) (i j : ℕ) → IsFirst t i → IsFirst t j → i ≡ j
IsFirst-unique t i j f g = elim (ℕ_discrete i j) [
  | yes e ↦ e
  | no ne ↦ elim (dec_lt i j) [
    | yes l ↦
        let busy = g.first i l in
        let free : is_unused (t.proc i).state ≡ true = rw f.unused refl in cc
    | no n ↦
        let busy = f.first j (omega arith) in
        let free : is_unused (t.proc j).state ≡ true = rw g.unused refl in cc
  ]
]

pub live-apart : (t : Table) (i j : ℕ) → IsFirst t i → is_alive (t.proc j).state ≡ true → i ≢ j
live-apart t i j f live e =
    let is : is_alive (t.proc j).state ≡ false = rw (sym e, f.unused) refl in cc

Allocates-Forked :
    (me kstack pgdir : ℕ) (t : Table) (r : Option ℕ × Table)
    → is_alive (t.proc me).state ≡ true
    → Allocates kstack t r
    → (let forked : Option ℕ × Table = elim r.0 [
      | none ↦ (none, r.1)
      | some i ↦ fork_child me i pgdir r.1
    ] in
        (CannotFork kstack pgdir t
          × (forked.0 ≡ none)
          × ((j : ℕ) → is_unused (t.proc j).state ≡ false → forked.1.proc j ≡ t.proc j))
        ⊎ ((i : ℕ) × (forked.0 ≡ some t.nextpid) × Forked me i kstack pgdir t forked.1))
unfolding fork_child
Allocates-Forked me kstack pgdir t r live (full f) = inl (inl f, refl, λ j _. refl)
Allocates-Forked me kstack pgdir t r live (no_stack i f z) =
    inl (inr (inl z), refl, λ j used. rw (==_ne i j (used-apart t i j f used)) refl)
Allocates-Forked me kstack pgdir t r live (gives i f nz) = elim (Bool-cases (pgdir == 0)) [
  | inl z ↦ rw z (
      inl (inr (inr (ground arith)), refl, λ j used. rw (==_ne i j (used-apart t i j f used)) refl))
  | inr go ↦ rw go (
      inr (
        i,
        rw (==_refl i) refl,
        record {
          first = f;
          others = λ j ne. rw (==_ne i j ne) refl;
          child = rw (==_refl i, ==_ne i me (live-apart t i me f live)) refl;
        },
      ))
]

pub fork-Forked :
    (me kstack pgdir : ℕ) (t : Table)
    → is_alive (t.proc me).state ≡ true
    → (CannotFork kstack pgdir t
        × ((fork me kstack pgdir t).0 ≡ none)
        × ((j : ℕ)
            → is_unused (t.proc j).state ≡ false
            → (fork me kstack pgdir t).1.proc j ≡ t.proc j))
      ⊎ ((i : ℕ) × ((fork me kstack pgdir t).0 ≡ some t.nextpid)
          × Forked me i kstack pgdir t (fork me kstack pgdir t).1)
unfolding fork
fork-Forked me kstack pgdir t live =
    Allocates-Forked me kstack pgdir t (allocproc kstack t) live (allocproc-Allocates kstack t)
