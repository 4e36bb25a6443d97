-- ===== src/Proc/System.antt =====
-- The kernel as a sequence of calls to xv6/proc.c on any number of CPUs, in any order.
use oslab.Common.{ℕ, ◌<◌, ◌≡◌, Bool, true, false, Option, none, some, ◌==◌, if◌then◌else◌}
use oslab.Proc.{
  nproc, State, Chan, Table, Waited, allocproc, fork_child, wakeup1, exit, woken, yield, dispatch,
  sleep, wait, kill,
}

-- The table, and the slot whose process each CPU runs (`c->proc`).
pub record Machine : Type 0 where
  pub table : Table
  pub cpu : ℕ → Option ℕ

abbrev pub assign : (ℕ → Option ℕ) → ℕ → Option ℕ → ℕ → Option ℕ
assign cpu c p d = if c == d then p else cpu d

abbrev pub leaves_cpu : Waited → Bool
leaves_cpu Waited.sleeps = true
leaves_cpu _ = false

-- One hold of `ptable.lock`. CPU `c` runs the process in slot `i` when it makes the call; `fork` is two
-- steps, since it releases the lock between them.
pub data Step (m : Machine) : Machine → Type 0 where
  dispatches :
      (c i : ℕ)
      → m.cpu c ≡ none
      → i < nproc
      → (m.table.proc i).state ≡ State.runnable
      → Step m (record { table = dispatch i m.table; cpu = assign m.cpu c (some i) })
  yields :
      (c i : ℕ)
      → m.cpu c ≡ some i
      → Step m (record { table = yield i m.table; cpu = assign m.cpu c none })
  sleeps :
      (c i address : ℕ)
      → m.cpu c ≡ some i
      → Step m (record { table = sleep i (Chan.object address) m.table; cpu = assign m.cpu c none })
  resumes : (c i : ℕ) → m.cpu c ≡ some i → Step m (record m { table = woken i m.table })
  wakes : (address : ℕ) → Step m (record m { table = wakeup1 (Chan.object address) m.table })
  kills : (pid : ℕ) → Step m (record m { table = (kill pid m.table).1 })
  allocates : (kstack : ℕ) → Step m (record m { table = (allocproc kstack m.table).1 })
  forks :
      (c i child pgdir : ℕ)
      → m.cpu c ≡ some i
      → (m.table.proc child).state ≡ State.embryo
      → Step m (record m { table = (fork_child i child pgdir m.table).1 })
  waits :
      (c i : ℕ)
      → m.cpu c ≡ some i
      → Step m (record {
        table = (wait i m.table).1;
        cpu = if leaves_cpu (wait i m.table).0 then assign m.cpu c none else m.cpu;
      })
  exits :
      (c i : ℕ) {t : Table}
      → m.cpu c ≡ some i
      → exit i m.table ≡ some t
      → Step m (record { table = t; cpu = assign m.cpu c none })

pub data Reach (m : Machine) : Machine → Type 0 where
  here : Reach m m
  next : {n k : Machine} → Reach m n → Step n k → Reach m k

-- The CPUs run processes that are marked RUNNING, no two of them the same.
pub record IsAssigned (m : Machine) : Type 0 where
  pub slot : (c i : ℕ) → m.cpu c ≡ some i → i < nproc
  pub running : (c i : ℕ) → m.cpu c ≡ some i → (m.table.proc i).state ≡ State.running
  pub once : (c d i : ℕ) → m.cpu c ≡ some i → m.cpu d ≡ some i → c ≡ d
