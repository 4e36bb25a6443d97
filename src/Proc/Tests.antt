-- ===== src/Proc/Tests.antt =====
-- Concrete runs of xv6/proc.c: init forks a child, waits for it, and the child exits.
use oslab.Common.{
  ℕ, zero, suc, ◌<◌, ◌≡◌, ◌≢◌, ◌⊎◌, refl, arith, true, false, Option, none, some, if◌then◌else◌,
  ◌==◌,
}
use oslab.Proc.{
  State, Table, Waited, boot, userinit, allocproc, fork_child, fork, wakeup1, exit, dispatch, sleep,
  wait, kill, scan, pass_children, is_unused,
}
use oslab.Proc.System.{Machine, Step, Reach, here, next}
use oslab.Proc.Safety.{IsSound}
use oslab.Proc.Start.{started, Reach-IsSound}
use oslab.Proc.Exit.{Exited, exit-Exited}
use oslab.Proc.Wait.{Waits, wait-Waits}
use oslab.Proc.Kill.{Kills, kill-Kills, kill-fork}

abbrev get : Option Table → Table
get none = boot
get (some t) = t

abbrev init_table : Table
init_table = get (userinit 4096 8192 boot)

init_table_made : userinit 4096 8192 boot ≡ some init_table
unfolding userinit allocproc scan
init_table_made = refl

-- Init runs on CPU 0.
abbrev running : Machine
running = record { table = dispatch 0 init_table; cpu = λ d. if 0 == d then some 0 else none }

-- It has slot 1 for a child.
abbrev reserved : Machine
reserved = record running { table = (allocproc 12288 running.table).1 }

abbrev forked : Machine
forked = record running { table = (fork_child 0 1 16384 reserved.table).1 }

-- Init sleeps in `wait`; the child runs on CPU 1.
abbrev waiting : Machine
waiting = record {
  table = (wait 0 forked.table).1;
  cpu = λ d. if 0 == d then none else forked.cpu d;
}

abbrev child_runs : Machine
child_runs = record {
  table = dispatch 1 waiting.table;
  cpu = λ d. if 1 == d then some 1 else waiting.cpu d;
}

abbrev exited : Machine
exited = record {
  table = get (exit 1 child_runs.table);
  cpu = λ d. if 1 == d then none else child_runs.cpu d;
}

child_runs-Reach : Reach (started init_table) child_runs
unfolding userinit allocproc scan fork_child wait dispatch sleep
child_runs-Reach =
    next
      (next
        (next
          (next (next here (Step.dispatches 0 0 refl (omega arith) refl)) (Step.allocates 12288))
          (Step.forks 0 0 1 16384 refl refl))
        (Step.waits 0 0 refl))
      (Step.dispatches 1 1 refl (omega arith) refl)

Reach-IsSound_example : IsSound exited
unfolding userinit allocproc scan fork_child wait dispatch sleep exit
Reach-IsSound_example =
    Reach-IsSound 4096 8192 init_table exited init_table_made
      (next child_runs-Reach (Step.exits 1 1 refl refl))

child_runs-IsSound : IsSound child_runs
child_runs-IsSound = Reach-IsSound 4096 8192 init_table child_runs init_table_made child_runs-Reach

exit-Exited_example :
    ((1 ≡ child_runs.table.initproc) × (exit 1 child_runs.table ≡ none))
    ⊎ ((1 ≢ child_runs.table.initproc)
        × (t' : Table) × (exit 1 child_runs.table ≡ some t')
        × Exited 1 child_runs.table t')
unfolding userinit allocproc scan fork_child wait dispatch
exit-Exited_example = exit-Exited 1 child_runs.table (omega arith) refl child_runs-IsSound.tree

-- The exit has woken init, which reaps the child.
reaps_child :
    ((exited.table.proc 0).state ≡ State.runnable)
    × ((exited.table.proc 1).state ≡ State.zombie)
    × ((wait 0 exited.table).0 ≡ Waited.child 2)
unfolding userinit allocproc scan fork_child wait dispatch sleep exit pass_children wakeup1
reaps_child = (refl, refl, refl)

wait-Waits_example : Waits 0 exited.table (wait 0 exited.table)
wait-Waits_example = wait-Waits 0 exited.table

kill-Kills_example : Kills 2 exited.table (kill 2 exited.table)
kill-Kills_example = kill-Kills 2 exited.table

one_busy : (j : ℕ) → j < 1 → is_unused (running.table.proc j).state ≡ false
unfolding userinit allocproc scan dispatch
one_busy zero lt = refl
one_busy (suc j) lt = absurd (omega arith)

pid_used : (j : ℕ) → j < 1 → (running.table.proc j).pid ≢ 0
unfolding userinit allocproc scan dispatch
pid_used zero lt = λ e. absurd (omega (arith, e))
pid_used (suc j) lt = absurd (omega arith)

kill-fork_example :
    ((kill 0 running.table).0 ≡ true)
    × ((fork 0 12288 16384 (kill 0 running.table).1).0 ≡ some running.table.nextpid)
    × (((fork 0 12288 16384 (kill 0 running.table).1).1.proc 1).killed ≡ 1)
unfolding userinit allocproc scan dispatch
kill-fork_example =
    kill-fork 0 12288 16384 1 running.table
      (record { in_range = omega arith; unused = refl; first = one_busy }) refl pid_used refl
      (omega arith) (omega arith)
