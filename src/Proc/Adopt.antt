-- ===== src/Proc/Adopt.antt =====
-- `wakeup1`, and the loop of `exit` in xv6/proc.c that passes a process's children to init.
use oslab.Common.{
  ℕ, zero, suc, ◌+◌, ◌≤◌, ◌<◌, ◌≡◌, ◌≢◌, ◌⊎◌, ◌∙◌, refl, sym, ap, subst, arith, Bool, true, false,
  ◌&&◌, some, ltb, lt→ltb, if◌then◌else◌, Bool-cases, inl, inr, ℕ_discrete, ==_refl,
}
use mathlib.Core.Option.{some-injective}
use oslab.Proc.{
  nproc, State, Chan, Proc, Table, put, is_sleeping, is_zombie, is_alive, same_chan, is_slot,
  wakeup1, pass_children,
}
use oslab.Proc.Invariant.{
  in_wait, IsTree, is_slot-eq, is_sleeping-eq, Keeps, Keeps-IsTree, refl-Same, put-cases,
}

-- `wakeup1` only makes sleepers runnable.
pub wakeup1-Keeps : (c : Chan) (t : Table) (j : ℕ) → Keeps j (t.proc j) ((wakeup1 c t).proc j)
unfolding wakeup1
wakeup1-Keeps c t j =
    elim (Bool-cases (ltb j nproc && is_sleeping (t.proc j).state && same_chan (t.proc j).chan c)) [
      | inr e ↦ rw e (refl-Same (t.proc j), λ w. w)
      | inl e ↦ rw e (runs (t.proc j) (asleep (ltb j nproc) (t.proc j) e))
    ]
  where
    asleep :
        (b : Bool) (p : Proc)
        → (b && is_sleeping p.state && same_chan p.chan c) ≡ true
        → p.state ≡ State.sleeping
    asleep b p e = is_sleeping-eq p.state (ground (arith, e))

    runs : (p : Proc) → p.state ≡ State.sleeping → Keeps j p (record p { state = State.runnable })
    runs p e = (record { parent = refl; alive = rw e refl; zombie = rw e refl }, λ w. refl)

pub wakeup1-IsTree : (c : Chan) (t : Table) → IsTree t → IsTree (wakeup1 c t)
unfolding wakeup1
wakeup1-IsTree c t = Keeps-IsTree t (wakeup1 c t) refl (wakeup1-Keeps c t)

pub wakeup1-running :
    (c : Chan) (t : Table) (j : ℕ)
    → (t.proc j).state ≡ State.running
    → ((wakeup1 c t).proc j).state ≡ State.running
unfolding wakeup1
wakeup1-running c t j run =
    elim (Bool-cases (ltb j nproc && is_sleeping (t.proc j).state && same_chan (t.proc j).chan c)) [
      | inr e ↦ rw e run
      | inl e ↦
          let awake : is_sleeping (t.proc j).state ≡ false = rw run refl in
          absurd (ground (arith, e, awake))
    ]

-- After `wakeup1` on its own slot a process does not sleep in `wait`.
pub wakeup1-wakes :
    (q : ℕ) (t : Table) → q < nproc → in_wait q ((wakeup1 (Chan.of_proc q) t).proc q) ≡ false
unfolding wakeup1
wakeup1-wakes q t lt = elim (Bool-cases (in_wait q (t.proc q))) [
  | inl e ↦ rw (lt→ltb q nproc lt, e) refl
  | inr e ↦ rw (lt→ltb q nproc lt, e) e
]

-- What the loop of `exit` by slot `me` does to the table: a child of `me` may become init's, and then
-- init does not sleep in `wait` if the child has exited.
pub record Passed (me : ℕ) (t u : Table) : Type 0 where
  pub init : u.initproc ≡ t.initproc
  pub alive : (j : ℕ) → is_alive (u.proc j).state ≡ is_alive (t.proc j).state
  pub zombie : (j : ℕ) → is_zombie (u.proc j).state ≡ is_zombie (t.proc j).state
  pub quiet : (j : ℕ) → in_wait j (t.proc j) ≡ false → in_wait j (u.proc j) ≡ false
  pub running : (j : ℕ) → (t.proc j).state ≡ State.running → (u.proc j).state ≡ State.running
  pub parent :
      (j : ℕ)
      → ((u.proc j).parent ≡ (t.proc j).parent)
        ⊎ (((t.proc j).parent ≡ some me)
            × ((u.proc j).parent ≡ some t.initproc)
            × (is_zombie (t.proc j).state ≡ true → in_wait t.initproc (u.proc t.initproc) ≡ false))

refl-Passed : (me : ℕ) (t : Table) → Passed me t t
refl-Passed me t = record {
  init = refl;
  alive = λ j. refl;
  zombie = λ j. refl;
  quiet = λ j w. w;
  running = λ j r. r;
  parent = λ j. inl refl;
}

pub trans-Passed : (me : ℕ) (t u v : Table) → Passed me t u → Passed me u v → Passed me t v
trans-Passed me t u v a b = record {
  init = b.init ∙ a.init;
  alive = λ j. b.alive j ∙ a.alive j;
  zombie = λ j. b.zombie j ∙ a.zombie j;
  quiet = λ j w. b.quiet j (a.quiet j w);
  running = λ j r. b.running j (a.running j r);
  parent = λ j. elim (a.parent j) [
    | inr (mine, to_init, wakes) ↦ inr (
      mine,
      elim (b.parent j) [
        | inl same ↦ same ∙ to_init
        | inr (_, to_init', _) ↦ to_init' ∙ ap some a.init
      ],
      λ z. b.quiet t.initproc (wakes z),
    )
    | inl same ↦ elim (b.parent j) [
      | inl same' ↦ inl (same' ∙ same)
      | inr (mine, to_init, wakes) ↦
          inr (
            sym same ∙ mine,
            to_init ∙ ap some a.init,
            λ z. rw (sym a.init) (wakes (a.zombie j ∙ z)),
          )
    ]
  ];
}

pub Passed-IsTree : (me : ℕ) (t u : Table) → Passed me t u → IsTree t → IsTree u
Passed-IsTree me t u p h =
    let live : (q : ℕ) → is_alive (t.proc q).state ≡ true → is_alive (u.proc q).state ≡ true =
      λ q a. p.alive q ∙ a in
    record {
      init_slot = rw p.init h.init_slot;
      init_alive = rw p.init (live t.initproc h.init_alive);
      init_root = rw p.init (elim (p.parent t.initproc) [
        | inl same ↦ same ∙ h.init_root
        | inr (mine, _, _) ↦ cc (h.init_root)
      ]);
      parent = λ j lt ne used. elim (p.parent j) [
        | inl same ↦
            let (q, par, in_range, a, ne') =
              h.parent j lt (rw p.init at ne) (rw (p.alive j, p.zombie j) at used) in
            (q, same ∙ par, in_range, live q a, ne')
        | inr (_, to_init, _) ↦ (
          t.initproc,
          to_init,
          h.init_slot,
          live t.initproc h.init_alive,
          λ e. ne (sym e ∙ sym p.init),
        )
      ];
      awake = λ j q lt z e. elim (p.parent j) [
        | inl same ↦ p.quiet q (h.awake j q lt (sym (p.zombie j) ∙ z) (sym same ∙ e))
        | inr (_, to_init, wakes) ↦
            let same : t.initproc ≡ q = some-injective t.initproc q (sym to_init ∙ e) in
            rw (sym same) (wakes (sym (p.zombie j) ∙ z))
      ];
    }

-- One round of the loop, at a child of `me`.
abbrev adopted : ℕ → Table → Table
adopted i t =
    let u = put t i (record (t.proc i) { parent = some t.initproc }) in
    if is_zombie (u.proc i).state then wakeup1 (Chan.of_proc t.initproc) u else u

reparented : ℕ → Table → Table
reparented i t = put t i (record (t.proc i) { parent = some t.initproc })

reparented-Passed :
    (me i : ℕ) (t u : Table)
    → (t.proc i).parent ≡ some me
    → u.initproc ≡ t.initproc
    → ((j : ℕ) → Keeps j ((reparented i t).proc j) (u.proc j))
    → ((j : ℕ) → ((reparented i t).proc j).state ≡ State.running → (u.proc j).state ≡ State.running)
    → (is_zombie (t.proc i).state ≡ true → in_wait t.initproc (u.proc t.initproc) ≡ false)
    → Passed me t u
unfolding reparented
reparented-Passed me i t u mine init keeps runs calm =
    let new = record (t.proc i) { parent = some t.initproc } in
    record {
      init = init;
      alive = λ j.
          (keeps j).0.alive
          ∙ put-cases t i new (λ j p. is_alive p.state ≡ is_alive (t.proc j).state) refl
              (λ j _. refl) j;
      zombie = λ j.
          (keeps j).0.zombie
          ∙ put-cases t i new (λ j p. is_zombie p.state ≡ is_zombie (t.proc j).state) refl
              (λ j _. refl) j;
      quiet = λ j w.
          (keeps j).1 (
            put-cases t i new (λ j p. in_wait j p ≡ in_wait j (t.proc j)) refl (λ j _. refl) j ∙ w);
      running = λ j r.
          runs j (put-cases t i new (λ j p. p.state ≡ (t.proc j).state) refl (λ j _. refl) j ∙ r);
      parent = λ j.
          put-cases t i new
            (λ j p.
              (u.proc j).parent ≡ p.parent
              → ((u.proc j).parent ≡ (t.proc j).parent)
                ⊎ (((t.proc j).parent ≡ some me)
                    × ((u.proc j).parent ≡ some t.initproc)
                    × (is_zombie (t.proc j).state ≡ true
                        → in_wait t.initproc (u.proc t.initproc) ≡ false)))
            (λ e. inr (mine, e, calm)) (λ j _ e. inl e) j (keeps j).0.parent;
    }

pub wakeup1-Passed : (me : ℕ) (c : Chan) (t : Table) → Passed me t (wakeup1 c t)
unfolding wakeup1
wakeup1-Passed me c t = record {
  init = refl;
  alive = λ j. (wakeup1-Keeps c t j).0.alive;
  zombie = λ j. (wakeup1-Keeps c t j).0.zombie;
  quiet = λ j. (wakeup1-Keeps c t j).1;
  running = λ j. wakeup1-running c t j;
  parent = λ j. inl (wakeup1-Keeps c t j).0.parent;
}

adopted-Passed :
    (me i : ℕ) (t : Table)
    → t.initproc < nproc
    → (t.proc i).parent ≡ some me
    → Passed me t (adopted i t) × (((adopted i t).proc i).parent ≡ some t.initproc)
unfolding reparented wakeup1
adopted-Passed me i t lt mine = elim (Bool-cases (is_zombie (t.proc i).state)) [
  | inl z ↦
      rw (==_refl i, z)
        (
          reparented-Passed me i t (wakeup1 (Chan.of_proc t.initproc) (reparented i t)) mine refl
              (wakeup1-Keeps (Chan.of_proc t.initproc) (reparented i t))
              (wakeup1-running (Chan.of_proc t.initproc) (reparented i t))
              (λ _. wakeup1-wakes t.initproc (reparented i t) lt),
          (wakeup1-Keeps (Chan.of_proc t.initproc) (reparented i t) i).0.parent
              ∙ rw (==_refl i) refl,
        )
  | inr z ↦
      rw (==_refl i, z)
        (
          reparented-Passed me i t (reparented i t) mine refl
              (λ j. (refl-Same ((reparented i t).proc j), λ w. w)) (λ j r. r) (λ z'. cc),
          rw (==_refl i) refl,
        )
]

-- The slots from `i` up to `end` hold no child of `me` after the loop.
abbrev pub Swept : ℕ → ℕ → ℕ → Table → Table → Type 0
Swept me i end t u = Passed me t u × ((j : ℕ) → i ≤ j → j < end → (u.proc j).parent ≢ some me)

pub pass_children-Swept :
    (me rounds i end : ℕ) (t : Table)
    → i + rounds ≡ end
    → me ≢ t.initproc
    → t.initproc < nproc
    → Swept me i end t (pass_children me rounds i t)
unfolding pass_children
pass_children-Swept me zero i end t e ne lt = (refl-Passed me t, λ j lo hi _. absurd (omega arith))
pass_children-Swept me (suc rounds) i end t e ne lt =
    elim (Bool-cases (is_slot (t.proc i).parent me)) [
      | inl child ↦
          let (p, par) = adopted-Passed me i t lt (is_slot-eq (t.proc i).parent me child) in
          let same : pass_children me rounds (suc i) (adopted i t)
              ≡ pass_children me (suc rounds) i t =
            rw child refl in
          subst (Swept me i end t) same (
            go (adopted i t) p (λ e'. ne (sym (some-injective t.initproc me (sym par ∙ e'))))
              (pass_children-Swept me rounds (suc i) end (adopted i t) (omega arith) (rw p.init ne)
                (rw p.init lt)))
      | inr other ↦
          let same : pass_children me rounds (suc i) t ≡ pass_children me (suc rounds) i t =
            rw other refl in
          subst (Swept me i end t) same (
            go t (refl-Passed me t)
              (λ e'. let is : is_slot (t.proc i).parent me ≡ true = rw e' (==_refl me) in cc)
              (pass_children-Swept me rounds (suc i) end t (omega arith) ne lt))
    ]
  where
    go :
        (u : Table)
        → Passed me t u
        → (u.proc i).parent ≢ some me
        → Swept me (suc i) end u (pass_children me rounds (suc i) u)
        → Swept me i end t (pass_children me rounds (suc i) u)
    go u p gone (later, none_left) = (
      trans-Passed me t u _ p later,
      λ j lo hi. elim (ℕ_discrete i j) [
        | yes same ↦ rw (sym same) (λ mine. elim (later.parent i) [
          | inl kept ↦ gone (sym kept ∙ mine)
          | inr (mine', _, _) ↦ gone mine'
        ])
        | no diff ↦ none_left j (omega arith) hi
      ],
    )
