-- ===== src/Log/Ops/Reserve.antt =====
-- The space that `begin_op` of xv6/log.c reserves, in any state that the operations reach.
use oslab.Common.{ℕ, ◌+◌, ◌≤◌, ◌<◌, ◌≡◌, true, none, List, [], some, ◌==◌, length, get_elem?, All}
use oslab.Disk.{Log, Sys, Run, done, crashed, panicked}
use oslab.Log.{logsize, maxopblocks}
use oslab.Log.Ops.{begin_op, end_op_start, log_write}
use oslab.Log.Ops.Steps.{System}
use oslab.Log.Commit.{named}

-- The state after `initlog`: an empty log, and no operation.
pub record IsIdle (size : ℕ) (s : Sys) : Type 0 where
  pub log_size : s.log.size ≡ size
  pub quiet : s.log.committing ≡ 0
  pub none_active : s.log.outstanding ≡ 0
  pub empty : s.log.n ≡ 0

abbrev pub idle : Sys → System
idle s = record { sys = s; active = []; committers = 0 }

-- The ends of a `log_write`: the block is in the log, or the log has no block left for it. That is
-- where it has LOGSIZE blocks or fewer with its header, and all but that one are in use.
abbrev pub Writes : ℕ → ℕ → Log → Run (Unit {0}) → Type 0
Writes size b l (done _ t) =
    (l.n < logsize) × (l.n + 1 < size) × (named t.log.block t.log.n b ≡ true)
Writes size b l panicked = (l.n < logsize) × (size ≤ l.n + 1)
Writes size b l (crashed d) = ⊥

-- What the calls do in a state.
pub record Reserved (size : ℕ) (t : System) : Type 0 where
  pub writes :
      (i b : ℕ) (us : List ℕ)
      → get_elem? t.active i ≡ some us
      → length us < maxopblocks
      → Writes size b t.sys.log (log_write b t.sys)
  pub logged :
      (i : ℕ) (us : List ℕ)
      → get_elem? t.active i ≡ some us
      → All (λ b. named t.sys.log.block t.sys.log.n b ≡ true) us
  pub ends :
      (i : ℕ) (us : List ℕ)
      → get_elem? t.active i ≡ some us
      → (u : Sys) × (end_op_start t.sys ≡ done (length t.active == 1) u)
  pub commits_alone : 0 < t.sys.log.committing → (t.active ≡ []) × (begin_op t.sys.log ≡ none)
