-- ===== src/Proc/Exit.antt =====
-- `exit` of xv6/proc.c: what becomes of the process, its children and the two parents.
use oslab.Common.{
  ℕ, ◌<◌, ◌≡◌, ◌≢◌, ◌⊎◌, ◌∙◌, refl, sym, ap, subst, arith, true, false, none, some, inl, inr,
  ℕ_discrete, ==_refl, ==_ne,
}
use mathlib.Core.Option.{some-injective}
use oslab.Proc.{
  nproc, State, Table, set_state, is_zombie, is_alive, wakeup1, pass_children, exit, chan_of,
}
use oslab.Proc.Invariant.{in_wait, IsTree, is_used, zombie-not_alive, put-cases}
use oslab.Proc.Adopt.{
  Passed, Passed-IsTree, trans-Passed, wakeup1-Passed, wakeup1-wakes, Swept, pass_children-Swept,
}

-- What `exit` by slot `me` leaves: it waits for its parent, init has its children, every other process
-- is where it was, and the table is a tree.
pub record Exited (me : ℕ) (t t' : Table) : Type 0 where
  pub tree : IsTree t'
  pub init : t'.initproc ≡ t.initproc
  pub zombie : (t'.proc me).state ≡ State.zombie
  pub adopts :
      (j : ℕ) → j < nproc → (t.proc j).parent ≡ some me → (t'.proc j).parent ≡ some t.initproc
  pub keeps : (j : ℕ) → (t.proc j).parent ≢ some me → (t'.proc j).parent ≡ (t.proc j).parent
  pub running :
      (j : ℕ) → j ≢ me → (t.proc j).state ≡ State.running → (t'.proc j).state ≡ State.running
  pub others :
      (j : ℕ)
      → j ≢ me
      → (is_alive (t'.proc j).state ≡ is_alive (t.proc j).state)
        × (is_zombie (t'.proc j).state ≡ is_zombie (t.proc j).state)

chan_of-wakes :
    (t : Table) (me q : ℕ)
    → q < nproc
    → (t.proc me).parent ≡ some q
    → in_wait q ((wakeup1 (chan_of (t.proc me).parent) t).proc q) ≡ false
chan_of-wakes t me q lt e = rw e (wakeup1-wakes q t lt)

-- The last step of `exit`: `me`, which has no children left and whose parent is awake, is a zombie.
zombie-IsTree :
    (me : ℕ) (u : Table)
    → me ≢ u.initproc
    → is_alive (u.proc me).state ≡ true
    → me < nproc
    → ((j : ℕ) → j < nproc → (u.proc j).parent ≢ some me)
    → ((q : ℕ) → (u.proc me).parent ≡ some q → in_wait q (u.proc q) ≡ false)
    → IsTree u
    → IsTree (set_state u me State.zombie)
zombie-IsTree me u ne live lt childless parent_awake h =
    let v = set_state u me State.zombie in
    let other : (q : ℕ) → me ≢ q → v.proc q ≡ u.proc q = λ q d. rw (==_ne me q d) in
    let par : (j : ℕ) → (v.proc j).parent ≡ (u.proc j).parent =
      put-cases u me (record (u.proc me) { state = State.zombie })
        (λ j p. p.parent ≡ (u.proc j).parent) refl (λ j _. refl) in
    let was_used : (j : ℕ) → is_used (v.proc j) ≡ true → is_used (u.proc j) ≡ true =
      put-cases u me (record (u.proc me) { state = State.zombie })
        (λ j p. is_used p ≡ true → is_used (u.proc j) ≡ true)
        (λ _. rw (live, zombie-not_alive (u.proc me).state live) refl) (λ j _ w. w) in
    record {
      init_slot = h.init_slot;
      init_alive = rw (other u.initproc ne) h.init_alive;
      init_root = par u.initproc ∙ h.init_root;
      parent = λ j j_lt j_ne used.
          let (q, e, in_range, a, diff) = h.parent j j_lt j_ne (was_used j used) in
          (
            q,
            par j ∙ e,
            in_range,
            rw (other q (λ same. childless j j_lt (e ∙ ap some (sym same)))) a,
            diff,
          );
      awake = λ j q j_lt z e. elim (ℕ_discrete me q) [
        | yes same ↦ rw (sym same, ==_refl me) refl
        | no q_ne ↦ rw (other q q_ne) (elim (ℕ_discrete me j) [
          | yes same ↦ parent_awake q (ap (λ k. (u.proc k).parent) same ∙ sym (par j) ∙ e)
          | no j_ne ↦ h.awake j q j_lt (rw (other j j_ne) at z) (sym (par j) ∙ e)
        ])
      ];
    }

Swept-Exited :
    (me : ℕ) (t t1 u : Table)
    → me < nproc
    → me ≢ t.initproc
    → is_alive (t.proc me).state ≡ true
    → IsTree t
    → Passed me t t1
    → ((q : ℕ) → q < nproc → (t.proc me).parent ≡ some q → in_wait q (t1.proc q) ≡ false)
    → Swept me 0 nproc t1 u
    → Exited me t (set_state u me State.zombie)
Swept-Exited me t t1 u lt ne live h woke calm (passed, none_left) =
    let all = trans-Passed me t t1 u woke passed in
    let tree = Passed-IsTree me t u all h in
    let (p, e, in_range, _, diff) = h.parent me lt ne (rw (zombie-not_alive _ live) live) in
    let not_mine : (t.proc me).parent ≢ some me = λ e'. diff (some-injective p me (sym e ∙ e')) in
    let par : (j : ℕ) → ((set_state u me State.zombie).proc j).parent ≡ (u.proc j).parent =
      put-cases u me (record (u.proc me) { state = State.zombie })
        (λ j p. p.parent ≡ (u.proc j).parent) refl (λ j _. refl) in
    let keep : (j : ℕ) → (t.proc j).parent ≢ some me → (u.proc j).parent ≡ (t.proc j).parent =
      λ j other. elim (all.parent j) [ inl same ↦ same | inr (mine, _, _) ↦ absurd (other mine) ] in
    record {
      tree =
          zombie-IsTree me u (λ e'. ne (e' ∙ all.init)) (all.alive me ∙ live) lt
            (λ j j_lt. none_left j (omega arith) j_lt)
            (λ q e'. passed.quiet q (
              subst (λ k. in_wait k (t1.proc k) ≡ false)
                (some-injective p q (sym e ∙ sym (keep me not_mine) ∙ e')) (calm p in_range e)))
            tree;
      init = all.init;
      zombie = rw (==_refl me) refl;
      adopts = λ j j_lt mine. par j ∙ elim (all.parent j) [
        | inl same ↦ absurd (none_left j (omega arith) j_lt (same ∙ mine))
        | inr (_, to_init, _) ↦ to_init
      ];
      keeps = λ j other. par j ∙ keep j other;
      running = λ j j_ne r. rw (==_ne me j (λ e'. j_ne (sym e'))) (all.running j r);
      others = λ j j_ne. rw (==_ne me j (λ e'. j_ne (sym e'))) (all.alive j, all.zombie j);
    }

-- `exit` panics for init only. By any other process that is alive it keeps the tree: the process has
-- exited, its children are init's, and neither its parent nor init is left asleep in `wait` over a
-- child that has exited.
pub exit-Exited :
    (me : ℕ) (t : Table)
    → me < nproc
    → is_alive (t.proc me).state ≡ true
    → IsTree t
    → ((me ≡ t.initproc) × (exit me t ≡ none))
      ⊎ ((me ≢ t.initproc) × (t' : Table) × (exit me t ≡ some t') × Exited me t t')
unfolding exit
exit-Exited me t lt live h = elim (ℕ_discrete me t.initproc) [
  | yes e ↦ inl (e, rw (e, ==_refl t.initproc) refl)
  | no ne ↦
      let t1 = wakeup1 (chan_of (t.proc me).parent) t in
      let woke : Passed me t t1 = wakeup1-Passed me (chan_of (t.proc me).parent) t in
      inr (
        ne,
        set_state (pass_children me nproc 0 t1) me State.zombie,
        rw (==_ne me t.initproc ne) refl,
        Swept-Exited me t t1 (pass_children me nproc 0 t1) lt ne live h woke (chan_of-wakes t me) (
            pass_children-Swept me nproc 0 nproc t1 refl (λ e. ne (e ∙ woke.init))
              (subst (λ k. k < nproc) (sym woke.init) h.init_slot)),
      )
]
