-- ===== src/Uthread/Tests.antt =====
-- Concrete tables of threads of xv6/uthread1.c.
use oslab.Common.{◌+◌, ◌-◌, ◌*◌, ◌≤◌, ◌≡◌, refl, arith, some, none, Option}
use oslab.Uthread.{Threads, ThreadState, thread_init, thread_create, find_thread, thread_schedule}
use oslab.Uthread.Choice.{Schedules, Chosen, thread_schedule-Schedules, thread_schedule-starves}

abbrev zeroed : Threads
zeroed = record {
  all_thread = λ i. record { sp = 0; state = ThreadState.free };
  current_thread = 0;
  memory = λ a. 0;
  base = 4096;
}

abbrev get : Option Threads → Threads
get none = zeroed
get (some s) = s

abbrev two_threads : Threads
two_threads = get (thread_create 100 (get (thread_create 100 (thread_init zeroed))))

thread_schedule-Schedules_example : Schedules two_threads (thread_schedule two_threads)
thread_schedule-Schedules_example = thread_schedule-Schedules two_threads

thread_schedule-starves_example : Chosen (thread_schedule two_threads) (λ t. t ≤ 2)
unfolding thread_create find_thread thread_init
thread_schedule-starves_example = thread_schedule-starves two_threads 1 2 (omega arith) refl refl

-- The new thread's stack holds its function where the switch returns.
created : (two_threads.all_thread 1).sp + 32 ≡ 4096 + 2 * 8200 - 4 - 4
unfolding thread_create find_thread thread_init
created = refl
