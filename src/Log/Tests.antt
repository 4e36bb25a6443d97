-- ===== src/Log/Tests.antt =====
-- Runs of the log of xv6/log.c on small disks, and its theorems there.
use oslab.Common.{
  ℕ, zero, suc, ◌+◌, ◌<◌, ◌≡◌, ◌≢◌, refl, arith, true, [], ◌∷◌, some, none, ◌==◌, ltb,
  if◌then◌else◌,
}
use oslab.Disk.{Block, Disk, Sys, done, crashed, panicked, update}
use oslab.Disk.Ends.{Ends}
use oslab.Log.{head_n, initlog, boot, commit}
use oslab.Log.Overlay.{overlay, recovered}
use oslab.Log.Recovery.{IsDisk}
use oslab.Log.Reboot.{reboots, initlog-reboots}
use oslab.Log.Commit.{IsPending, AtCrash, IsCommitted, commit-Ends}
use oslab.Log.Ops.{log_write, absorb}
use oslab.Log.Ops.Steps.{System}

-- The log is blocks 2 to 31.
abbrev super_block : Block
super_block w = if w == 3 then 30 else if w == 4 then 2 else 0

-- The header of a log with `n` entries, for blocks 40, 41 and so on.
abbrev head : ℕ → Block
head n zero = n
head n (suc i) = if ltb i n then 40 + i else 0

-- A machine stopped behind the commit point: block 3 is the new data of block 40.
abbrev cut_off : ℕ → Disk
cut_off n b =
    if b == 1 then super_block else if b == 2 then head n else if b == 3 then (λ w. 7) else (λ w. 0)

cut_off-IsDisk : (n : ℕ) → n < 30 → IsDisk 2 30 (cut_off n)
cut_off-IsDisk n h = record {
  after_super = omega arith;
  some_room = omega arith;
  at_start = refl;
  of_size = refl;
  log = record { array = omega arith; fits = h; homes = λ i lt. ground arith };
}

initlog-reboots_example :
    (s : Sys) × (initlog (boot (reboots (0 ∷ 1 ∷ []) (cut_off 1)) 31) ≡ done tt s)
    × ((b : ℕ) → b ≢ 2 → s.disk b ≡ recovered 2 (cut_off 1) b)
    × (head_n (s.disk 2) ≡ 0)
initlog-reboots_example =
    initlog-reboots 2 30 (cut_off 1) (0 ∷ 1 ∷ []) 31 (cut_off-IsDisk 1 (omega arith)) (omega arith)

recovered_data : (recovered 2 (cut_off 1) 40 5 ≡ 7) × (recovered 2 (cut_off 1) 41 5 ≡ 0)
unfolding overlay
recovered_data = (refl, refl)

-- A transaction of one block, 40, that is new in the cache.
abbrev pending : ℕ → Sys
pending power = record {
  disk = cut_off 0;
  cache = λ b. if b == 40 then some (λ w. 9) else none;
  dirty = λ b. b == 40;
  power = power;
  log = record { start = 2; size = 30; outstanding = 0; committing = 1; n = 1; block = λ i. 40 };
}

pending-IsPending : (power : ℕ) → IsPending 2 30 (pending power)
pending-IsPending power = record {
  disk = cut_off-IsDisk 0 (omega arith);
  empty = refl;
  log_start = refl;
  log_size = refl;
  log = record { array = omega arith; fits = omega arith; homes = λ i lt. omega arith };
  coherent = λ b i. ground arith;
}

commit-Ends_example :
    Ends (AtCrash 2 30 (pending 2)) (λ _. IsCommitted 2 30 (pending 2)) (commit (pending 2))
commit-Ends_example = commit-Ends 2 30 (pending 2) (pending-IsPending 2)

-- An idle system whose log has the 30 blocks of `mkfs`; one operation begins, and writes block 40.
abbrev quiet : Sys
quiet = record (pending 100) {
  log = record { start = 2; size = 30; outstanding = 0; committing = 0; n = 0; block = λ i. 0 };
}

abbrev begun : Sys
begun = record quiet { log = record quiet.log { outstanding = 1 } }

abbrev wrote : Sys
wrote = record begun { log = absorb 40 begun.log; dirty = update begun.dirty 40 true }

abbrev writing : System
writing = record { sys = wrote; active = (40 ∷ []) ∷ []; committers = 0 }

-- Three operations, as many as `begin_op` admits, of which two have written ten blocks and the third nine:
-- its tenth block is too much for that log.
abbrev after_writes : ℕ → Sys → Sys
after_writes zero s = s
after_writes (suc k) s =
    let t = after_writes k s in
    elim (log_write (40 + k) t) [ done _ u ↦ u | crashed d ↦ t | panicked ↦ t ]

full_log :
    log_write 69 (after_writes 29 (record quiet { log = record quiet.log { outstanding = 3 } }))
    ≡ panicked
unfolding log_write
full_log = refl
