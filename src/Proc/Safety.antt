-- ===== src/Proc/Safety.antt =====
-- What holds of xv6/proc.c in every state that the kernel reaches.
use oslab.Common.{
  ℕ, ◌≡◌, ◌≢◌, ◌∙◌, refl, sym, ap, true, false, Option, none, some, ◌==◌, if◌then◌else◌, Bool-cases,
  inl, inr, ==_refl, ==_ne,
}
use mathlib.Core.Option.{some-injective}
use oslab.Proc.{
  State, Chan, Proc, Table, Waited, put, is_alive, is_zombie, allocproc, fork_child, exit, woken,
  yield, dispatch, sleep, wait,
}
use oslab.Proc.Invariant.{in_wait, IsTree, put-IsTree, put-cases, zombie-not_alive}
use oslab.Proc.Adopt.{wakeup1-running, wakeup1-IsTree}
use oslab.Proc.Exit.{exit-Exited, Exited}
use oslab.Proc.Wait.{Waits, wait-Waits, wait-IsTree}
use oslab.Proc.Fork.{Allocates, allocproc-Allocates, allocproc-IsTree, fork_child-IsTree, IsFirst}
use oslab.Proc.Kill.{kill-IsTree, kill-running}
use oslab.Proc.System.{Machine, Step, IsAssigned, leaves_cpu, assign}
use oslab.Proc.Cpus.{same-IsAssigned, leave-IsAssigned, take-IsAssigned, RunsBut}

-- A change of slot `i` leaves the other processes running.
put-RunsBut : (t : Table) (i : ℕ) (p : Proc) → RunsBut i t (put t i p)
put-RunsBut t i p j ne run = rw (==_ne i j ne) run

-- A slot that does not run is changed, and all that run go on.
put-running :
    (t : Table) (i : ℕ) (p : Proc)
    → (t.proc i).state ≢ State.running
    → (j : ℕ) → (t.proc j).state ≡ State.running
    → ((put t i p).proc j).state ≡ State.running
put-running t i p idle =
    put-cases t i p (λ j p'. (t.proc j).state ≡ State.running → p'.state ≡ State.running)
      (λ run. absurd (idle run)) (λ j _ run. run)

not_running : (s : State) → s ≢ State.running → (r : State) → r ≡ s → r ≢ State.running
not_running s ne r e = rw e ne

idle_zombie : (s : State) → is_zombie s ≡ true → s ≢ State.running
idle_zombie s z e = let f : is_zombie s ≡ false = rw e refl in cc

idle_dead : (s : State) → is_alive s ≡ false → s ≢ State.running
idle_dead s d e = let f : is_alive s ≡ true = rw e refl in cc

-- What every reachable machine satisfies.
pub record IsSound (m : Machine) : Type 0 where
  pub tree : IsTree m.table
  pub cpus : IsAssigned m

alive_on :
    (m : Machine) (c i : ℕ) → IsSound m → m.cpu c ≡ some i → is_alive (m.table.proc i).state ≡ true
alive_on m c i h at = rw (h.cpus.running c i at) refl

apart : (t : Table) (i j : ℕ) → IsFirst t i → (t.proc j).state ≡ State.running → i ≢ j
apart t i j f run e =
    let is : State.unused ≡ State.running = sym f.unused ∙ ap (λ k. (t.proc k).state) e ∙ run in
    absurd (idle_dead State.unused refl is)

Allocates-running :
    (kstack : ℕ) (t : Table) (r : Option ℕ × Table)
    → Allocates kstack t r
    → (j : ℕ) → (t.proc j).state ≡ State.running
    → (r.1.proc j).state ≡ State.running
Allocates-running kstack t r (Allocates.full _) j run = run
Allocates-running kstack t r (Allocates.no_stack i f z) j run =
    rw (==_ne i j (apart t i j f run)) run
Allocates-running kstack t r (Allocates.gives i f nz) j run = rw (==_ne i j (apart t i j f run)) run

fork_child-running :
    (me i pgdir : ℕ) (t : Table)
    → is_alive (t.proc i).state ≡ false
    → (j : ℕ) → (t.proc j).state ≡ State.running
    → ((fork_child me i pgdir t).1.proc j).state ≡ State.running
unfolding fork_child
fork_child-running me i pgdir t dead = elim (Bool-cases (pgdir == 0)) [
  | inl z ↦ rw z (put-running t i _ (idle_dead _ dead))
  | inr nz ↦ rw nz (put-running t i _ (idle_dead _ dead))
]

-- `wait` keeps the CPUs' processes: the caller leaves its CPU only if it sleeps.
Waits-IsAssigned :
    (m : Machine) (c i : ℕ) (r : Waited × Table)
    → Waits i m.table r
    → m.cpu c ≡ some i
    → IsAssigned m
    → IsAssigned
        (record { table = r.1; cpu = if leaves_cpu r.0 then assign m.cpu c none else m.cpu })
unfolding sleep
Waits-IsAssigned m c i r (Waits.reaps k lt exited first) at h =
    same-IsAssigned m _ (put-running m.table k _ (idle_zombie _ (ap is_zombie exited.1))) h
Waits-IsAssigned m c i r (Waits.gives_up _ _) at h = h
Waits-IsAssigned m c i r (Waits.sleeps k lt mine alive none_exited) at h =
    leave-IsAssigned m _ c i at (put-RunsBut m.table i _) h

exits-IsSound :
    (m : Machine) (c i : ℕ) (t : Table)
    → m.cpu c ≡ some i
    → exit i m.table ≡ some t
    → IsSound m
    → IsSound (record { table = t; cpu = assign m.cpu c none })
exits-IsSound m c i t at e h =
    elim (exit-Exited i m.table (h.cpus.slot c i at) (alive_on m c i h at) h.tree) [
      | inl (_, panics) ↦ cc
      | inr (_, t', e', x) ↦
          let same : t' ≡ t = some-injective t' t (sym e' ∙ e) in
          let x' : Exited i m.table t = rw same at x in
          record {
            tree = x'.tree;
            cpus =
                leave-IsAssigned m t c i at (λ j ne run. x'.running j (λ e. ne (sym e)) run) h.cpus;
          }
    ]

-- A change of the running process in slot `i` that leaves it alive and awake keeps the tree.
changed-IsTree :
    (t : Table) (i : ℕ) (p : Proc)
    → (t.proc i).state ≡ State.running
    → p.parent ≡ (t.proc i).parent
    → is_alive p.state ≡ true
    → in_wait i p ≡ false
    → IsTree t
    → IsTree (put t i p)
changed-IsTree t i p run par live awake = put-IsTree t i p (
  record { parent = par; alive = rw run live; zombie = rw run (zombie-not_alive p.state live) },
  λ _. awake,
)

pub Step-IsSound : {m n : Machine} → Step m n → IsSound m → IsSound n
unfolding sleep yield dispatch woken
Step-IsSound {m} (Step.dispatches c i idle lt ready) h = record {
  tree =
      put-IsTree m.table i _
        (record { parent = refl; alive = rw ready refl; zombie = rw ready refl }, λ _. refl) h.tree;
  cpus =
      take-IsAssigned m _ c i lt (rw (==_refl i) refl) (λ e. cc) (put-RunsBut m.table i _) h.cpus;
}
Step-IsSound {m} (Step.yields c i at) h = record {
  tree = changed-IsTree m.table i _ (h.cpus.running c i at) refl refl refl h.tree;
  cpus = leave-IsAssigned m _ c i at (put-RunsBut m.table i _) h.cpus;
}
Step-IsSound {m} (Step.sleeps c i address at) h = record {
  tree = changed-IsTree m.table i _ (h.cpus.running c i at) refl refl refl h.tree;
  cpus = leave-IsAssigned m _ c i at (put-RunsBut m.table i _) h.cpus;
}
Step-IsSound {m} (Step.resumes c i at) h =
    let run = h.cpus.running c i at in
    record {
      tree = changed-IsTree m.table i _ run refl (rw run refl) (rw run refl) h.tree;
      cpus =
          same-IsAssigned m _
            (put-cases m.table i _
              (λ j p. (m.table.proc j).state ≡ State.running → p.state ≡ State.running) (λ r. r)
              (λ j _ r. r))
            h.cpus;
    }
Step-IsSound {m} (Step.wakes address) h = record {
  tree = wakeup1-IsTree (Chan.object address) m.table h.tree;
  cpus = same-IsAssigned m _ (wakeup1-running (Chan.object address) m.table) h.cpus;
}
Step-IsSound {m} (Step.kills pid) h = record {
  tree = kill-IsTree pid m.table h.tree;
  cpus = same-IsAssigned m _ (kill-running pid m.table) h.cpus;
}
Step-IsSound {m} (Step.allocates kstack) h = record {
  tree = allocproc-IsTree kstack m.table h.tree;
  cpus =
      same-IsAssigned m _
        (Allocates-running kstack m.table (allocproc kstack m.table)
          (allocproc-Allocates kstack m.table))
        h.cpus;
}
Step-IsSound {m} (Step.forks c i child pgdir at new) h =
    let dead : is_alive (m.table.proc child).state ≡ false = rw new refl in
    record {
      tree =
          fork_child-IsTree i child pgdir m.table (h.cpus.slot c i at) (alive_on m c i h at) dead
            h.tree;
      cpus = same-IsAssigned m _ (fork_child-running i child pgdir m.table dead) h.cpus;
    }
Step-IsSound {m} (Step.waits c i at) h = record {
  tree = wait-IsTree i m.table (alive_on m c i h at) h.tree;
  cpus = Waits-IsAssigned m c i (wait i m.table) (wait-Waits i m.table) at h.cpus;
}
Step-IsSound {m} (Step.exits c i {t} at e) h = exits-IsSound m c i t at e h
