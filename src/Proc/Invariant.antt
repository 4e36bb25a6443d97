-- ===== src/Proc/Invariant.antt =====
-- The table of xv6/proc.c as a tree of processes, and the changes that keep it one.
use oslab.Common.{
  ℕ, ◌<◌, ◌≡◌, ◌≢◌, refl, sym, ap, subst, arith, Bool, true, false, ◌&&◌, ◌||◌, ◌∙◌, Option, none,
  some, ℕ_discrete, ==_refl, ==_ne,
}
use oslab.Proc.{
  nproc, State, Chan, Proc, Table, put, is_sleeping, is_zombie, is_alive, same_chan, is_slot,
}

-- The process in slot `j` sleeps in `wait`.
abbrev pub in_wait : ℕ → Proc → Bool
in_wait j p = is_sleeping p.state && same_chan p.chan (Chan.of_proc j)

-- The process is there: it is alive, or it has exited and its parent has not yet waited for it.
abbrev pub is_used : Proc → Bool
is_used p = is_zombie p.state || is_alive p.state

-- The process in slot `j` has a parent that is alive.
abbrev pub HasParent : Table → ℕ → Type 0
HasParent t j =
    (q : ℕ) × ((t.proc j).parent ≡ some q)
    × (q < nproc)
    × (is_alive (t.proc q).state ≡ true)
    × (q ≢ j)

-- The processes are a tree below init, and none sleeps in `wait` while a child of it has exited.
pub record IsTree (t : Table) : Type 0 where
  pub init_slot : t.initproc < nproc
  pub init_alive : is_alive (t.proc t.initproc).state ≡ true
  pub init_root : (t.proc t.initproc).parent ≡ none
  pub parent : (j : ℕ) → j < nproc → j ≢ t.initproc → is_used (t.proc j) ≡ true → HasParent t j
  pub awake :
      (j q : ℕ)
      → j < nproc
      → is_zombie (t.proc j).state ≡ true
      → (t.proc j).parent ≡ some q
      → in_wait q (t.proc q) ≡ false

pub zombie-not_alive : (s : State) → is_alive s ≡ true → is_zombie s ≡ false
zombie-not_alive State.unused h = refl
zombie-not_alive State.embryo h = refl
zombie-not_alive State.sleeping h = refl
zombie-not_alive State.runnable h = refl
zombie-not_alive State.running h = refl
zombie-not_alive State.zombie h = cc

pub is_sleeping-eq : (s : State) → is_sleeping s ≡ true → s ≡ State.sleeping
is_sleeping-eq State.unused h = cc
is_sleeping-eq State.embryo h = cc
is_sleeping-eq State.sleeping h = refl
is_sleeping-eq State.runnable h = cc
is_sleeping-eq State.running h = cc
is_sleeping-eq State.zombie h = cc

pub is_slot-eq : (o : Option ℕ) (q : ℕ) → is_slot o q ≡ true → o ≡ some q
is_slot-eq none q h = cc
is_slot-eq (some p) q h = let e : p ≡ q = ground arith in ap some e

-- A change of a process that leaves its place in the tree.
pub record Same (p p' : Proc) : Type 0 where
  pub parent : p'.parent ≡ p.parent
  pub alive : is_alive p'.state ≡ is_alive p.state
  pub zombie : is_zombie p'.state ≡ is_zombie p.state

pub refl-Same : (p : Proc) → Same p p
refl-Same p = record { parent = refl; alive = refl; zombie = refl }

pub Same-IsTree :
    (t u : Table)
    → u.initproc ≡ t.initproc
    → ((j : ℕ) → Same (t.proc j) (u.proc j))
    → ((j q : ℕ)
        → j < nproc
        → is_zombie (u.proc j).state ≡ true
        → (u.proc j).parent ≡ some q
        → in_wait q (u.proc q) ≡ false)
    → IsTree t
    → IsTree u
Same-IsTree t u init same awake h =
    let alive : (j : ℕ) → is_alive (u.proc j).state ≡ is_alive (t.proc j).state =
      λ j. (same j).alive in
    record {
      init_slot = rw init h.init_slot;
      init_alive = rw (init, alive t.initproc) h.init_alive;
      init_root = rw (init, (same t.initproc).parent) h.init_root;
      parent = λ j lt ne used.
          let (q, e, in_range, live, other) =
            h.parent j lt (rw init at ne) (rw ((same j).alive, (same j).zombie) at used) in
          (q, (same j).parent ∙ e, in_range, alive q ∙ live, other);
      awake = awake;
    }

-- A change that also does not put the process to sleep in `wait`.
abbrev pub Keeps : ℕ → Proc → Proc → Type 0
Keeps j p p' = Same p p' × (in_wait j p ≡ false → in_wait j p' ≡ false)

pub Keeps-IsTree :
    (t u : Table)
    → u.initproc ≡ t.initproc
    → ((j : ℕ) → Keeps j (t.proc j) (u.proc j))
    → IsTree t
    → IsTree u
Keeps-IsTree t u init keeps h =
    Same-IsTree t u init (λ j. (keeps j).0)
      (λ j q lt z e.
        let (same, _) = keeps j in
        (keeps q).1 (h.awake j q lt (sym same.zombie ∙ z) (sym same.parent ∙ e)))
      h

-- What holds of the new value of one slot and of the old values of the others holds of every slot.
pub put-cases :
    (t : Table) (i : ℕ) (p : Proc) (P : ℕ → Proc → Type 0)
    → P i p
    → ((j : ℕ) → i ≢ j → P j (t.proc j))
    → (j : ℕ) → P j ((put t i p).proc j)
put-cases t i p P here others j = elim (ℕ_discrete i j) [
  | yes e ↦ rw (e, ==_refl j) (subst (λ k. P k p) e here)
  | no ne ↦ rw (==_ne i j ne) (others j ne)
]

pub put-IsTree :
    (t : Table) (i : ℕ) (p : Proc) → Keeps i (t.proc i) p → IsTree t → IsTree (put t i p)
put-IsTree t i p keeps = Keeps-IsTree t (put t i p) refl (λ j. elim (ℕ_discrete i j) [
  | yes e ↦ rw (e, ==_refl j) (subst (λ k. Keeps k (t.proc k) p) e keeps)
  | no ne ↦ rw (==_ne i j ne) (refl-Same (t.proc j), λ w. w)
])

-- Slot `i`, which holds no process that is alive, is filled: with no process, or with a child of a
-- process that is alive.
module _ (t : Table) (i : ℕ) (p : Proc) (dead : is_alive (t.proc i).state ≡ false) where
  apart : (q : ℕ) → is_alive (t.proc q).state ≡ true → i ≢ q
  apart q live e = let live' : is_alive (t.proc i).state ≡ true = rw e live in cc

  pub leaf-IsTree :
      is_zombie p.state ≡ false
      → in_wait i p ≡ false
      → (is_alive p.state ≡ true
          → (q : ℕ) × (p.parent ≡ some q) × (q < nproc) × (is_alive (t.proc q).state ≡ true))
      → IsTree t
      → IsTree (put t i p)
  leaf-IsTree no_zombie no_wait child h =
      let init = apart t.initproc h.init_alive in
      let u = put t i p in
      let other : (q : ℕ) → i ≢ q → u.proc q ≡ t.proc q = λ q ne. rw (==_ne i q ne) in
      let keep : (q : ℕ) → is_alive (t.proc q).state ≡ true → is_alive (u.proc q).state ≡ true =
        λ q live. rw (other q (apart q live)) live in
      let here : u.proc i ≡ p = rw (==_refl i) in
      record {
        init_slot = h.init_slot;
        init_alive = keep t.initproc h.init_alive;
        init_root = rw (other t.initproc init) h.init_root;
        parent = λ j lt ne used. elim (ℕ_discrete i j) [
          | yes e ↦
              let used' : is_alive p.state ≡ true = rw (sym e, here, no_zombie) at used in
              let (q, par, in_range, live) = child used' in
              (
                q,
                ap Proc.parent (sym (ap u.proc e) ∙ here) ∙ par,
                in_range,
                keep q live,
                λ same. apart q live (e ∙ sym same),
              )
          | no diff ↦
              let (q, par, in_range, live, ne') = h.parent j lt ne (rw (other j diff) at used) in
              (q, rw (other j diff) par, in_range, keep q live, ne')
        ];
        awake = λ j q lt z e. elim (ℕ_discrete i q) [
          | yes same ↦ rw (sym same, here) no_wait
          | no diff ↦ rw (other q diff) (elim (ℕ_discrete i j) [
            | yes same ↦ let z' : is_zombie p.state ≡ true = rw (sym same, here) at z in cc
            | no ne ↦ h.awake j q lt (rw (other j ne) at z) (rw (other j ne) at e)
          ])
        ];
      }
