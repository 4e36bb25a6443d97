-- ===== src/Uthread.antt =====
-- xv6/uthread1.c: the user threads of one process. A pointer to a thread is its number in the table; a
-- number past the table is a pointer past its end.
pub mod Choice
mod Tests
use oslab.Common.{
  ℕ, zero, suc, ◌+◌, ◌-◌, ◌*◌, Bool, true, false, ◌&&◌, not, Option, none, some, ◌==◌, ltb,
  if◌then◌else◌,
}

abbrev pub max_thread : ℕ
max_thread = 4

abbrev pub stack_size : ℕ
stack_size = 8192

pub data ThreadState : Type 0 where
  free running runnable : ThreadState

abbrev pub is_free_state : ThreadState → Bool
is_free_state ThreadState.free = true
is_free_state _ = false

abbrev pub is_runnable : ThreadState → Bool
is_runnable ThreadState.runnable = true
is_runnable _ = false

-- `struct thread` without its stack.
pub record Thread : Type 0 where
  pub sp : ℕ
  pub state : ThreadState

-- The table, `current_thread`, the memory by words, and the address of the table.
pub record Threads : Type 0 where
  pub all_thread : ℕ → Thread
  pub current_thread : ℕ
  pub memory : ℕ → ℕ
  pub base : ℕ

abbrev pub set_state : Threads → ℕ → ThreadState → Threads
set_state s i st = record s {
  all_thread = λ j. if i == j then record (s.all_thread i) { state = st } else s.all_thread j;
}

-- The first thread from `t` on that passes the test, or the end of the table.
pub find_thread : (ℕ → Bool) → ℕ → ℕ → ℕ
find_thread test zero t = t
find_thread test (suc rounds) t = elim (test t) [
  | true ↦ t
  | false ↦ find_thread test rounds (suc t)
]

-- What `thread_schedule` comes to: it exits the process, it switches to a thread, or it returns.
pub data Scheduled : Type 0 where
  exits : Scheduled
  switches : ℕ → Threads → Scheduled
  returns : Scheduled

-- The choice of `next_thread`.
unfoldable pub next_thread : Threads → Option ℕ
unfolding find_thread
next_thread s =
    let t =
      find_thread (λ i. is_runnable (s.all_thread i).state && not (i == s.current_thread))
        max_thread 0 in
    if ltb t max_thread
    then some t
    else if is_runnable (s.all_thread s.current_thread).state
    then some s.current_thread
    else none

-- `thread_schedule`, up to `thread_switch`.
unfoldable pub thread_schedule : Threads → Scheduled
unfolding next_thread
thread_schedule s = elim (next_thread s) [
  | none ↦ exits
  | some t ↦
      if s.current_thread == t then returns else switches t (set_state s t ThreadState.running)
]

-- `thread_init`, without the system call.
pub thread_init : Threads → Threads
thread_init s = set_state (record s { current_thread = 0 }) 0 ThreadState.running

-- The address of the top of a thread's stack: a thread is `sp`, the stack and `state`.
abbrev pub stack_top : Threads → ℕ → ℕ
stack_top s t = s.base + t * (4 + stack_size + 4) + 4 + stack_size

-- `thread_create`; `none` is a write past the table, when no thread is free.
unfoldable pub thread_create : ℕ → Threads → Option Threads
unfolding find_thread
thread_create func s =
    let t = find_thread (λ i. is_free_state (s.all_thread i).state) max_thread 0 in
    if ltb t max_thread
    then some (record s {
      all_thread = λ j.
          if t == j
          then record { sp = stack_top s t - 4 - 32; state = ThreadState.runnable }
          else s.all_thread j;
      memory = λ a. if a == stack_top s t - 4 then func else s.memory a;
    })
    else none
