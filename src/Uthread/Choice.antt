-- ===== src/Uthread/Choice.antt =====
-- `thread_schedule` and `thread_create` of xv6/uthread1.c: which thread is chosen.
use oslab.Common.{
  ℕ, zero, suc, ◌+◌, ◌≤◌, ◌<◌, ◌≡◌, ◌≢◌, refl, sym, arith, Bool, true, false, ◌&&◌, not, none, some,
  ◌==◌, ltb, if◌then◌else◌, Bool-cases, inl, inr, ==_refl, ==_ne, ℕ_discrete, dec_lt, lt→ltb,
  le→ltb,
}
use oslab.Uthread.{
  ThreadState, Threads, max_thread, is_runnable, set_state, find_thread, next_thread, Scheduled,
  thread_schedule, exits, switches, returns,
}

-- The first number from `i` on that passes the test; `end` if none before it does.
pub record IsFirst (test : ℕ → Bool) (i end t : ℕ) : Type 0 where
  pub from : i ≤ t
  pub to : t ≤ end
  pub passes : t < end → test t ≡ true
  pub first : (j : ℕ) → i ≤ j → j < t → test j ≡ false

find_thread-IsFirst :
    (test : ℕ → Bool) (rounds i end : ℕ)
    → i + rounds ≡ end
    → IsFirst test i end (find_thread test rounds i)
unfolding find_thread
find_thread-IsFirst test zero i end e = record {
  from = omega arith;
  to = omega arith;
  passes = λ lt. absurd (omega arith);
  first = λ j lo hi. absurd (omega arith);
}
find_thread-IsFirst test (suc rounds) i end e = elim (Bool-cases (test i)) [
  | inl here ↦
      rw (here, find_thread)
        (record {
          from = omega arith;
          to = omega arith;
          passes = λ _. here;
          first = λ j lo hi. absurd (omega arith);
        })
  | inr not_here ↦
      let h = find_thread-IsFirst test rounds (suc i) end (omega arith) in
      rw (not_here, find_thread)
        (record {
          from = omega (arith, h.from);
          to = h.to;
          passes = h.passes;
          first = λ j lo hi. elim (ℕ_discrete j i) [
            | yes same ↦ rw same not_here
            | no ne ↦ h.first j (omega arith) hi
          ];
        })
]

-- Thread `i` could run, and is not the current one.
abbrev pub IsReady : Threads → ℕ → Type 0
IsReady s i = (is_runnable (s.all_thread i).state ≡ true) × (i ≢ s.current_thread)

ready_test : (s : Threads) (i : ℕ) → Bool
ready_test s i = is_runnable (s.all_thread i).state && not (i == s.current_thread)

ready_test-IsReady : (s : Threads) (i : ℕ) → ready_test s i ≡ true → IsReady s i
unfolding ready_test
ready_test-IsReady s i h = (
  ground (arith, h),
  λ e.
      let is : (i == s.current_thread) ≡ true = rw e (==_refl s.current_thread) in
      ground (arith, h, is),
)

ready_test-not-IsReady : (s : Threads) (i : ℕ) → ready_test s i ≡ false → ¬ IsReady s i
unfolding ready_test
ready_test-not-IsReady s i h (run, ne) =
    let other : (i == s.current_thread) ≡ false = ==_ne i s.current_thread ne in
    ground (arith, h, run, other)

-- The ends of `thread_schedule`.
pub data Schedules (s : Threads) : Scheduled → Type 0 where
  to_other :
      (t : ℕ)
      → t < max_thread
      → IsReady s t
      → ((j : ℕ) → j < t → ¬ IsReady s j)
      → Schedules s (switches t (set_state s t ThreadState.running))
  goes_on :
      ((j : ℕ) → j < max_thread → ¬ IsReady s j)
      → is_runnable (s.all_thread s.current_thread).state ≡ true
      → Schedules s returns
  stops :
      ((j : ℕ) → j < max_thread → ¬ IsReady s j)
      → is_runnable (s.all_thread s.current_thread).state ≡ false
      → Schedules s exits

-- `thread_schedule` switches to the first runnable thread other than the current one and marks it as
-- running; if there is none it returns to the current thread when that is runnable, and exits the
-- process when it is not.
pub thread_schedule-Schedules : (s : Threads) → Schedules s (thread_schedule s)
unfolding thread_schedule next_thread ready_test
thread_schedule-Schedules s =
    go (find_thread (ready_test s) max_thread 0)
      (find_thread-IsFirst (ready_test s) max_thread 0 max_thread refl)
  where
    go :
        (t : ℕ)
        → IsFirst (ready_test s) 0 max_thread t
        → Schedules s
            (elim (if ltb t max_thread
              then some t
              else if is_runnable (s.all_thread s.current_thread).state
              then some s.current_thread
              else none) [
                | none ↦ exits
                | some k ↦
                    if s.current_thread == k
                    then returns
                    else switches k (set_state s k ThreadState.running)
              ])
    go t h = elim (dec_lt t max_thread) [
      | yes lt ↦
          let ready = ready_test-IsReady s t (h.passes lt) in
          rw (lt→ltb t max_thread lt, ==_ne s.current_thread t (λ e. ready.1 (sym e)))
            (to_other t lt ready
              (λ j j_lt. ready_test-not-IsReady s j (h.first j (omega arith) j_lt)))
      | no past ↦
          let none_ready : (j : ℕ) → j < max_thread → ¬ IsReady s j =
            λ j j_lt. ready_test-not-IsReady s j (h.first j (omega arith) (omega arith)) in
          elim (Bool-cases (is_runnable (s.all_thread s.current_thread).state)) [
            | inl run ↦
                rw (le→ltb t max_thread (omega arith), run, ==_refl s.current_thread)
                  (goes_on none_ready run)
            | inr idle ↦ rw (le→ltb t max_thread (omega arith), idle) (stops none_ready idle)
          ]
    ]

-- The thread that `thread_schedule` switches to, if it does.
abbrev pub Chosen : Scheduled → (ℕ → Type 0) → Type 0
Chosen exits P = Unit
Chosen returns P = Unit
Chosen (switches t s) P = P t

Schedules-below :
    (s : Threads) (i j : ℕ) (r : Scheduled)
    → i < j
    → is_runnable (s.all_thread i).state ≡ true
    → is_runnable (s.all_thread j).state ≡ true
    → Schedules s r
    → Chosen r (λ t. t ≤ j)
Schedules-below s i j r lt run_i run_j (to_other t t_lt ready first) = elim (dec_lt j t) [
  | no le ↦ omega arith
  | yes above ↦ elim (ℕ_discrete i s.current_thread) [
    | no ne ↦ absurd (first i (omega arith) (run_i, ne))
    | yes e ↦ absurd (first j above (run_j, λ e'. absurd (omega arith)))
  ]
]
Schedules-below s i j r lt run_i run_j (goes_on _ _) = tt
Schedules-below s i j r lt run_i run_j (stops _ _) = tt

-- While two threads are runnable, `thread_schedule` does not choose a thread that stands behind both of
-- them in the table.
pub thread_schedule-starves :
    (s : Threads) (i j : ℕ)
    → i < j
    → is_runnable (s.all_thread i).state ≡ true
    → is_runnable (s.all_thread j).state ≡ true
    → Chosen (thread_schedule s) (λ t. t ≤ j)
thread_schedule-starves s i j lt run_i run_j =
    Schedules-below s i j (thread_schedule s) lt run_i run_j (thread_schedule-Schedules s)
