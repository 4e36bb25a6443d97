-- ===== src/Log/Ops/Calls.antt =====
-- What the calls of xv6/log.c do to the fields of the log, where they return.
use oslab.Common.{
  ℕ, ◌+◌, ◌-◌, ◌*◌, ◌≤◌, ◌<◌, ◌≡◌, refl, ap, sym, ◌∙◌, arith, Bool, true, false, ◌||◌, List, [],
  ◌∷◌, some, ◌==◌, length, All, if◌then◌else◌, ◌⊎◌, All-mono,
}
use oslab.Disk.{Log, Sys, Run, done, crashed, panicked, and_then, ◌>>=◌, get_log, set_log}
use oslab.Disk.Ends.{state_or}
use oslab.Log.{logsize, maxopblocks, commit}
use oslab.Log.Ops.{begin_op, end_op_start, commit_last, log_write, absorb}
use oslab.Log.Ops.Slot.{absorb_lem}
use oslab.Log.Commit.{named}
use oslab.Log.Frame.{log-commit}

abbrev pub has : ℕ → List ℕ → Bool
has b [] = false
has b (x ∷ xs) = x == b || has b xs

-- The blocks of an operation are in the log, and are not too many.
abbrev pub IsLogged : Log → List ℕ → Type 0
IsLogged l us = (length us ≤ maxopblocks) × All (λ b. named l.block l.n b ≡ true) us

-- The operations' blocks stay logged when a block is added.
pub absorb-IsLogged : (b : ℕ) (l : Log) (us : List ℕ) → IsLogged l us → IsLogged (absorb b l) us
absorb-IsLogged b l us h =
    (h.0, All-mono _ _ us (λ c k. (absorb_lem b l).1 c ∙ ground (arith, k)) h.1)

pub log_write_done :
    (b : ℕ) (s t : Sys) → log_write b s ≡ done tt t → (t.log ≡ absorb b s.log) × (s.log.n < logsize)
unfolding log_write
log_write_done b s t e = ground arith

pub absorb_frame :
    (b : ℕ) (l : Log)
    → ((absorb b l).size ≡ l.size)
      × ((absorb b l).committing ≡ l.committing)
      × ((absorb b l).outstanding ≡ l.outstanding)
unfolding absorb
absorb_frame b l = (refl, refl, refl)

pub has-named :
    (l : Log) (b : ℕ) (us : List ℕ)
    → All (λ c. named l.block l.n c ≡ true) us
    → has b us ≡ true
    → named l.block l.n b ≡ true
has-named l b [] h e = cc
has-named l b (x ∷ us) h e = ground (arith, has-named l b us)

-- The log that a last `end_op` leaves.
abbrev pub closed : Log → Log
closed l = record l { n = 0; committing = 0 }

pub commit_last_done : (s t : Sys) → commit_last s ≡ done tt t → t.log ≡ closed s.log
unfolding commit_last
commit_last_done s t e = go (commit s) refl e
  where
    go :
        (r : Run (Unit {0}))
        → commit s ≡ r
        → and_then r (λ _. get_log >>= λ log. set_log (record log { committing = 0 })) ≡ done tt t
        → t.log ≡ closed s.log
    go (done a u) c e =
        ap (λ r. (state_or s r).log) (sym e)
        ∙ ap {A = Log} (λ l. record l { committing = 0 }) (log-commit s u c)
    go (crashed d) c e = cc
    go panicked c e = cc

pub end_op_start_done :
    (s t : Sys) (d : Bool)
    → end_op_start s ≡ done d t
    → (s.log.committing ≡ 0)
      × (t.log
          ≡ record s.log { outstanding = s.log.outstanding - 1; committing = if d then 1 else 0 })
      × (((d ≡ true) × (s.log.outstanding - 1 ≡ 0)) ⊎ (d ≡ false))
unfolding end_op_start
end_op_start_done s t d e = ground arith

pub begin_op-some :
    (l l' : Log)
    → begin_op l ≡ some l'
    → (l' ≡ record l { outstanding = l.outstanding + 1 })
      × (l.committing ≡ 0)
      × (l.n + (l.outstanding + 1) * maxopblocks ≤ logsize)
unfolding begin_op
begin_op-some l l' e = ground arith
