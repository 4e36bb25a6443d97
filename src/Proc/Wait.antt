-- ===== src/Proc/Wait.antt =====
-- `wait` and `fork` of xv6/proc.c: which child `wait` finds, and what the two do to the tree.
use oslab.Common.{
  ℕ, ◌<◌, ◌≡◌, ◌≢◌, ◌⊎◌, ◌∙◌, refl, sym, ap, arith, true, false, ◌&&◌, Option, none, some, ltb,
  if◌then◌else◌, Bool-cases, inl, inr, ℕ_discrete, ==_refl, ==_ne,
}
use oslab.Proc.{
  nproc, State, Chan, Proc, Table, Waited, put, is_zombie, is_alive, is_slot, scan, sleep, wait,
  freed,
}
use oslab.Proc.Scan.{Scanned, scan-Scanned}
use oslab.Proc.Invariant.{
  IsTree, zombie-not_alive, Same, Same-IsTree, refl-Same, leaf-IsTree, put-cases, is_slot-eq,
}

-- The process in slot `j` is a child of `me` that has exited.
abbrev pub IsExited : ℕ → Table → ℕ → Type 0
IsExited me t j = ((t.proc j).parent ≡ some me) × ((t.proc j).state ≡ State.zombie)

is_zombie-eq : (s : State) → is_zombie s ≡ true → s ≡ State.zombie
is_zombie-eq State.zombie z = refl
is_zombie-eq State.unused z = cc
is_zombie-eq State.embryo z = cc
is_zombie-eq State.sleeping z = cc
is_zombie-eq State.runnable z = cc
is_zombie-eq State.running z = cc

-- The three ends of a pass of `wait` by slot `me`: a slot is unused again, with its stack, pid, parent
-- and flag gone; nothing changes; or `me` sleeps on itself.
pub data Waits (me : ℕ) (t : Table) : Waited × Table → Type 0 where
  reaps :
      (i : ℕ)
      → i < nproc
      → IsExited me t i
      → ((j : ℕ) → j < i → ¬ IsExited me t j)
      → Waits me t (
        Waited.child (t.proc i).pid,
        put t i (record (t.proc i) {
          state = State.unused;
          kstack = 0;
          pid = 0;
          parent = none;
          killed = 0;
        }),
      )
  gives_up :
      ((j : ℕ) → j < nproc → ¬ IsExited me t j)
      → (((j : ℕ) → j < nproc → (t.proc j).parent ≢ some me) ⊎ (0 < (t.proc me).killed))
      → Waits me t (Waited.no_child, t)
  sleeps :
      (i : ℕ)
      → i < nproc
      → (t.proc i).parent ≡ some me
      → (t.proc me).killed ≡ 0
      → ((j : ℕ) → j < nproc → ¬ IsExited me t j)
      → Waits me t (
        Waited.sleeps,
        put t me (record (t.proc me) { state = State.sleeping; chan = Chan.of_proc me }),
      )

not_exited :
    (me : ℕ) (p : Proc)
    → (is_slot p.parent me && is_zombie p.state) ≡ false
    → ¬ ((p.parent ≡ some me) × (p.state ≡ State.zombie))
not_exited me p none_here (mine, z) =
    let both : (is_slot p.parent me && is_zombie p.state) ≡ true = rw (mine, ==_refl me, z) refl in
    cc

wait-later :
    (me : ℕ) (t : Table)
    → ((j : ℕ) → j < nproc → ¬ IsExited me t j)
    → (r : Option ℕ) → Scanned (λ p. is_slot p.parent me) 0 nproc t r
    → Waits me t (elim r [
      | none ↦ (Waited.no_child, t)
      | some i ↦
          if ltb 0 (t.proc me).killed
          then (Waited.no_child, t)
          else (Waited.sleeps, sleep me (Chan.of_proc me) t)
    ])
unfolding sleep
wait-later me t none_exited none h = gives_up none_exited (
    inl (λ j lt mine.
      let is : is_slot (t.proc j).parent me ≡ true = rw (mine, ==_refl me) refl in
      cc (h j (omega arith) lt)))
wait-later me t none_exited (some i) h = elim (Bool-cases (ltb 0 (t.proc me).killed)) [
  | inl killed ↦ rw killed (gives_up none_exited (inr (ground arith)))
  | inr alive ↦
      rw alive (sleeps i h.1 (is_slot-eq (t.proc i).parent me h.2) (ground arith) none_exited)
]

-- `wait` reaps the first child that has exited if there is one: it returns its pid, and the slot is unused,
-- without stack, pid, parent and killed flag. Otherwise it returns -1 and changes nothing when the
-- process has no children or is killed; and when it has a child and is not killed, the process
-- sleeps, on itself. No other slot changes.
pub wait-Waits : (me : ℕ) (t : Table) → Waits me t (wait me t)
unfolding wait
wait-Waits me t =
    go (scan (λ p. is_slot p.parent me && is_zombie p.state) nproc 0 t)
      (scan-Scanned (λ p. is_slot p.parent me && is_zombie p.state) nproc 0 nproc t refl)
  where
    go :
        (r : Option ℕ)
        → Scanned (λ p. is_slot p.parent me && is_zombie p.state) 0 nproc t r
        → Waits me t (elim r [
          | some i ↦ (Waited.child (t.proc i).pid, put t i (freed (t.proc i)))
          | none ↦ elim (scan (λ p. is_slot p.parent me) nproc 0 t) [
            | none ↦ (Waited.no_child, t)
            | some i ↦
                if ltb 0 (t.proc me).killed
                then (Waited.no_child, t)
                else (Waited.sleeps, sleep me (Chan.of_proc me) t)
          ]
        ])
    go none h =
        wait-later me t (λ j lt. not_exited me (t.proc j) (h j (omega arith) lt))
          (scan (λ p. is_slot p.parent me) nproc 0 t)
          (scan-Scanned (λ p. is_slot p.parent me) nproc 0 nproc t refl)
    go (some i) h =
        reaps i h.1
          (
            is_slot-eq (t.proc i).parent me (ground (arith, h.2)),
            is_zombie-eq (t.proc i).state (ground (arith, h.2)),
          )
          (λ j lt. not_exited me (t.proc j) (h.3 j (omega arith) lt))

sleeps-IsTree :
    (me : ℕ) (t : Table)
    → is_alive (t.proc me).state ≡ true
    → ((j : ℕ) → j < nproc → ¬ IsExited me t j)
    → IsTree t
    → IsTree (put t me (record (t.proc me) { state = State.sleeping; chan = Chan.of_proc me }))
sleeps-IsTree me t live none_exited h =
    let p = record (t.proc me) { chan = Chan.of_proc me; state = State.sleeping } in
    let same : (j : ℕ) → Same (t.proc j) ((put t me p).proc j) =
      put-cases t me p (λ j p'. Same (t.proc j) p')
        (record { parent = refl; alive = sym live; zombie = sym (zombie-not_alive _ live) })
        (λ j _. refl-Same (t.proc j)) in
    Same-IsTree t (put t me p) refl same
      (λ j q lt z e.
        let z' = sym (same j).zombie ∙ z in
        let e' = sym (same j).parent ∙ e in
        elim (ℕ_discrete me q) [
          | yes mine ↦
              absurd (none_exited j lt (e' ∙ ap some (sym mine), is_zombie-eq (t.proc j).state z'))
          | no diff ↦ rw (==_ne me q diff) (h.awake j q lt z' e')
        ])
      h

Waits-IsTree :
    (me : ℕ) (t : Table) (r : Waited × Table)
    → Waits me t r
    → is_alive (t.proc me).state ≡ true
    → IsTree t
    → IsTree r.1
Waits-IsTree me t r (reaps i lt exited first) live h =
    leaf-IsTree t i (freed (t.proc i)) (ap is_alive exited.1) refl refl (λ e. cc) h
Waits-IsTree me t r (gives_up _ _) live h = h
Waits-IsTree me t r (sleeps i lt mine alive none_exited) live h =
    sleeps-IsTree me t live none_exited h

pub wait-IsTree :
    (me : ℕ) (t : Table) → is_alive (t.proc me).state ≡ true → IsTree t → IsTree (wait me t).1
wait-IsTree me t live h = Waits-IsTree me t (wait me t) (wait-Waits me t) live h
