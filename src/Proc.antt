-- ===== src/Proc.antt =====
-- xv6/proc.c: the process table, and the calls that change it. Each function stands for what the
-- kernel does while it holds `ptable.lock`; files, memory and the saved registers are not here.
-- A pointer to a `struct proc` is the number of its slot.
pub mod Scan
pub mod Invariant
pub mod Adopt
pub mod Exit
pub mod Wait
pub mod Fork
pub mod System
pub mod Cpus
pub mod Safety
pub mod Start
pub mod Kill
mod Tests
use oslab.Common.{
  ℕ, zero, suc, ◌+◌, ◌-◌, ◌^◌, Bool, true, false, ◌&&◌, ◌||◌, not, Option, none, some, ◌==◌, ltb,
  if◌then◌else◌,
}

abbrev pub nproc : ℕ
nproc = 64

-- `enum procstate`
pub data State : Type 0 where
  unused embryo sleeping runnable running zombie : State

-- What a process sleeps on: nothing, a process, or another object by its address.
pub data Chan : Type 0 where
  null : Chan
  of_proc : ℕ → Chan
  object : ℕ → Chan

abbrev pub is_unused : State → Bool
is_unused State.unused = true
is_unused _ = false

abbrev pub is_sleeping : State → Bool
is_sleeping State.sleeping = true
is_sleeping _ = false

abbrev pub is_runnable : State → Bool
is_runnable State.runnable = true
is_runnable _ = false

abbrev pub is_zombie : State → Bool
is_zombie State.zombie = true
is_zombie _ = false

-- Neither unused, under construction nor exited.
abbrev pub is_alive : State → Bool
is_alive State.sleeping = true
is_alive State.runnable = true
is_alive State.running = true
is_alive _ = false

abbrev pub same_chan : Chan → Chan → Bool
same_chan Chan.null Chan.null = true
same_chan (Chan.of_proc i) (Chan.of_proc j) = i == j
same_chan (Chan.object a) (Chan.object b) = a == b
same_chan _ _ = false

-- `p->parent == q`
abbrev pub is_slot : Option ℕ → ℕ → Bool
is_slot none q = false
is_slot (some p) q = p == q

-- `struct proc`, the fields that the calls here read or write.
pub record Proc : Type 0 where
  pub sz : ℕ
  pub pgdir : ℕ
  pub kstack : ℕ
  pub state : State
  pub pid : ℕ
  pub parent : Option ℕ
  pub chan : Chan
  pub killed : ℕ
  pub scheduler : ℕ

-- `ptable`, `nextpid` and `initproc`.
pub record Table : Type 0 where
  pub proc : ℕ → Proc
  pub nextpid : ℕ
  pub initproc : ℕ

abbrev pub put : Table → ℕ → Proc → Table
put t i p = record t { proc = λ j. if i == j then p else t.proc j }

-- `p->state = s`
abbrev pub set_state : Table → ℕ → State → Table
set_state t i s = put t i (record (t.proc i) { state = s })

-- The first slot among the next `rounds` that passes the test.
pub scan : (Proc → Bool) → ℕ → ℕ → Table → Option ℕ
scan test zero i t = none
scan test (suc rounds) i t = elim (test (t.proc i)) [
  | true ↦ some i
  | false ↦ scan test rounds (suc i) t
]

abbrev pub embryo_in : Table → ℕ → Table
embryo_in t i =
    record (put t i
      (record (t.proc i) { state = State.embryo; pid = t.nextpid; scheduler = 2 ^ 32 - 1 })) {
        nextpid = t.nextpid + 1;
      }

-- `allocproc`; `kstack` is what its `kalloc` returns.
unfoldable pub allocproc : ℕ → Table → Option ℕ × Table
allocproc kstack t = elim (scan (λ p. is_unused p.state) nproc 0 t) [
  | none ↦ (none, t)
  | some i ↦
      let u = embryo_in t i in
      if kstack == 0
      then (none, set_state u i State.unused)
      else (some i, put u i (record (u.proc i) { kstack = kstack }))
]

-- The rest of `fork` by slot `me` once `allocproc` has given it slot `i`: the child's pid, or `none`
-- for -1. `pgdir` is what `copyuvm` returns.
unfoldable pub fork_child : ℕ → ℕ → ℕ → Table → Option ℕ × Table
fork_child me i pgdir t =
    if pgdir == 0
    then (none, put t i (record (t.proc i) { kstack = 0; state = State.unused }))
    else (
      some (t.proc i).pid,
      put t i (record (t.proc i) {
        pgdir = pgdir;
        sz = (t.proc me).sz;
        parent = some me;
        state = State.runnable;
      }),
    )

-- `fork` by slot `me`; `kstack` is what `kalloc` returns.
unfoldable pub fork : ℕ → ℕ → ℕ → Table → Option ℕ × Table
unfolding allocproc fork_child
fork me kstack pgdir t = elim (allocproc kstack t).0 [
  | none ↦ (none, (allocproc kstack t).1)
  | some i ↦ fork_child me i pgdir (allocproc kstack t).1
]

-- The table before the first process: static memory is zero, and `nextpid` is 1.
abbrev pub boot : Table
boot = record {
  proc = λ i. record {
    sz = 0;
    pgdir = 0;
    kstack = 0;
    state = State.unused;
    pid = 0;
    parent = none;
    chan = Chan.null;
    killed = 0;
    scheduler = 0;
  };
  nextpid = 1;
  initproc = 0;
}

-- `userinit` once `allocproc` has returned; `none` is the panic, or the fault when it has returned 0.
abbrev pub first_process : ℕ → Option ℕ × Table → Option Table
first_process pgdir (none, u) = none
first_process pgdir (some i, u) =
    if pgdir == 0
    then none
    else some
        (record (put u i (record (u.proc i) { pgdir = pgdir; sz = 4096; state = State.runnable })) {
          initproc = i;
        })

-- `userinit`, with what `kalloc` and `setupkvm` return.
unfoldable pub userinit : ℕ → ℕ → Table → Option Table
unfolding allocproc
userinit kstack pgdir t = first_process pgdir (allocproc kstack t)

-- `wakeup1`
unfoldable pub wakeup1 : Chan → Table → Table
wakeup1 c t = record t {
  proc = λ i.
      if ltb i nproc && is_sleeping (t.proc i).state && same_chan (t.proc i).chan c
      then record (t.proc i) { state = State.runnable }
      else t.proc i;
}

abbrev pub chan_of : Option ℕ → Chan
chan_of none = Chan.null
chan_of (some p) = Chan.of_proc p

-- The loop of `exit` that passes the children of `me` to init.
pub pass_children : ℕ → ℕ → ℕ → Table → Table
unfolding wakeup1
pass_children me zero i t = t
pass_children me (suc rounds) i t =
    let u = put t i (record (t.proc i) { parent = some t.initproc }) in
    let v = if is_zombie (u.proc i).state then wakeup1 (Chan.of_proc t.initproc) u else u in
    pass_children me rounds (suc i) (if is_slot (t.proc i).parent me then v else t)

-- `exit` by slot `me`, from the point where it takes the lock; `none` is the panic of init.
unfoldable pub exit : ℕ → Table → Option Table
exit me t =
    if me == t.initproc
    then none
    else some (
        set_state (pass_children me nproc 0 (wakeup1 (chan_of (t.proc me).parent) t)) me
          State.zombie)

-- The tidying of `sleep` when `me` runs again.
pub woken : ℕ → Table → Table
woken me t = put t me (record (t.proc me) { chan = Chan.null })

-- `yield` by slot `me`, up to the switch to the scheduler.
pub yield : ℕ → Table → Table
yield me t = set_state t me State.runnable

-- `scheduler` with the process that it has found in slot `i`, up to the switch to it.
pub dispatch : ℕ → Table → Table
dispatch i t = set_state t i State.running

-- What a pass of `wait` comes to.
pub data Waited : Type 0 where
  child : ℕ → Waited
  no_child : Waited
  sleeps : Waited

abbrev pub freed : Proc → Proc
freed p = record p { kstack = 0; pid = 0; parent = none; killed = 0; state = State.unused }

-- `sleep(chan, lk)` by slot `me`, up to the switch to the scheduler.
unfoldable pub sleep : ℕ → Chan → Table → Table
sleep me c t = put t me (record (t.proc me) { chan = c; state = State.sleeping })

-- `wait` by slot `me`, from the scan of the table to its return or its sleep. The scan stops at the
-- first zombie among the children.
unfoldable pub wait : ℕ → Table → Waited × Table
wait me t = elim (scan (λ p. is_slot p.parent me && is_zombie p.state) nproc 0 t) [
  | some i ↦ (child (t.proc i).pid, put t i (freed (t.proc i)))
  | none ↦ elim (scan (λ p. is_slot p.parent me) nproc 0 t) [
    | none ↦ (no_child, t)
    | some i ↦
        if ltb 0 (t.proc me).killed then (no_child, t) else (sleeps, sleep me (Chan.of_proc me) t)
  ]
]

-- `kill`: whether there is such a process (0), and not (-1).
unfoldable pub kill : ℕ → Table → Bool × Table
kill pid t = elim (scan (λ p. p.pid == pid) nproc 0 t) [
  | none ↦ (false, t)
  | some i ↦ (
    true,
    put t i (record (t.proc i) {
      killed = 1;
      state = if is_sleeping (t.proc i).state then State.runnable else (t.proc i).state;
    }),
  )
]

-- `uthread_init` by slot `me`.
pub uthread_init : ℕ → ℕ → Table → Table
uthread_init me address t = put t me (record (t.proc me) { scheduler = address })
