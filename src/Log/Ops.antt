-- ===== src/Log/Ops.antt =====
-- `begin_op`, `end_op` and `log_write` of xv6/log.c: the calls of a file system operation.
-- An operation calls `end_op` once for its `begin_op`, so `outstanding` is at least 1 there.
pub mod Slot
pub mod Calls
pub mod Steps
pub mod Reserve
use oslab.Common.{
  ℕ, zero, suc, ◌+◌, ◌-◌, ◌*◌, Bool, true, false, ◌||◌, Option, none, some, ◌==◌, ltb, leb,
  if◌then◌else◌,
}
use oslab.Disk.{Log, Sys, Run, Cmd, done, panicked, update, ◌>>=◌, ◌>>◌, get_log, set_log, pure}
use oslab.Log.{logsize, maxopblocks, commit}

-- One pass through the loop of `begin_op`; `none` is a pass that goes to sleep.
unfoldable pub begin_op : Log → Option Log
begin_op l =
    if ltb 0 l.committing
    then none
    else if ltb logsize (l.n + (l.outstanding + 1) * maxopblocks)
    then none
    else some (record l { outstanding = l.outstanding + 1 })

-- `end_op` under the lock; it gives `do_commit`.
unfoldable pub end_op_start : Cmd Bool
end_op_start s =
    let l = record s.log { outstanding = s.log.outstanding - 1 } in
    if ltb 0 s.log.committing
    then panicked
    else if l.outstanding == 0
    then done true (record s { log = record l { committing = 1 } })
    else done false (record s { log = l })

-- What `end_op` does when it has released the lock, if it was the last operation.
unfoldable pub commit_last : Cmd (Unit {0})
unfolding commit
commit_last = do commit; log ← get_log; set_log (record log { committing = 0 })

-- `end_op` where no other operation comes between its two parts.
end_op : Cmd (Unit {0})
unfolding end_op_start commit_last
end_op = end_op_start >>= λ do_commit. if do_commit then commit_last else pure tt

-- The loop of `log_write`: the first entry for block `b` among the next `rounds`, or the one after.
pub find_slot : ℕ → ℕ → (ℕ → ℕ) → ℕ → ℕ
find_slot zero i block b = i
find_slot (suc rounds) i block b = elim (block i == b) [
  | true ↦ i
  | false ↦ find_slot rounds (suc i) block b
]

-- The log with block `b` in it.
pub absorb : ℕ → Log → Log
unfolding find_slot
absorb b l =
    let i = find_slot l.n 0 l.block b in
    record l { block = update l.block i b; n = if i == l.n then l.n + 1 else l.n }

-- `b` is the number of the buffer's block.
unfoldable pub log_write : ℕ → Cmd (Unit {0})
unfolding absorb
log_write b s =
    if leb logsize s.log.n || leb (s.log.size - 1) s.log.n
    then panicked
    else if ltb s.log.outstanding 1
    then panicked
    else done tt (record s { log = absorb b s.log; dirty = update s.dirty b true })
