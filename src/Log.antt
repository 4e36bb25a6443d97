-- ===== src/Log.antt =====
-- xv6/log.c: the write-ahead log of the file system.
-- A loop `for (i = 0; i < log.lh.n; i++)` recurs on the rounds left, since no body changes `n`.
pub mod Overlay
pub mod Head
pub mod Install
pub mod Recovery
pub mod Reboot
pub mod Commit
pub mod Frame
pub mod Ops
mod Tests
use oslab.Common.{ℕ, zero, suc, ◌+◌, false, none, ltb, if◌then◌else◌}
use oslab.Disk.{
  Block, Disk, update, Sys, Run, done, Cmd, pure, ◌>>=◌, ◌>>◌, get_log, set_log, bread, bwrite,
}

abbrev pub maxopblocks : ℕ
maxopblocks = 10

abbrev pub logsize : ℕ
logsize = 30

-- The on-disk `struct logheader`: word 0 is `n`, word `i + 1` is `block[i]`.
abbrev pub head_n : Block → ℕ
head_n x = x 0

abbrev pub head_block : Block → ℕ → ℕ
head_block x i = x (suc i)

install_from : ℕ → ℕ → Cmd (Unit {0})
install_from zero tail = pure tt
install_from (suc rounds) tail = do
  log ← get_log
  lbuf ← bread (log.start + tail + 1)
  dbuf ← bread (log.block tail)
  bwrite (log.block tail) lbuf
  install_from rounds (suc tail)

pub install_trans : Cmd (Unit {0})
unfolding install_from
install_trans s = install_from s.log.n 0 s

-- `log.lh.block[i] = lh->block[i]` for the next `rounds` values of `i`.
pub copy_head : ℕ → ℕ → Block → (ℕ → ℕ) → ℕ → ℕ
copy_head zero i lh block = block
copy_head (suc rounds) i lh block = copy_head rounds (suc i) lh (update block i (head_block lh i))

pub read_head : Cmd (Unit {0})
unfolding copy_head
read_head = do
  log ← get_log
  lh ← bread log.start
  set_log (record log { n = head_n lh; block = copy_head (head_n lh) 0 lh log.block })

-- `hb->block[i] = log.lh.block[i]` for the next `rounds` values of `i`.
pub fill_head : ℕ → ℕ → (ℕ → ℕ) → Block → Block
fill_head zero i block hb = hb
fill_head (suc rounds) i block hb = fill_head rounds (suc i) block (update hb (suc i) (block i))

pub write_head : Cmd (Unit {0})
unfolding fill_head
write_head = do
  log ← get_log
  hb ← bread log.start
  bwrite log.start (fill_head log.n 0 log.block (update hb 0 log.n))

pub clear_head : Cmd (Unit {0})
unfolding write_head
clear_head = do log ← get_log; set_log (record log { n = 0 }); write_head

pub recover_from_log : Cmd (Unit {0})
unfolding read_head install_trans clear_head
recover_from_log = do read_head; install_trans; clear_head

-- The machine after a reboot: the disk survives, `log` is zeroed as all of the kernel's data.
abbrev pub boot : Disk → ℕ → Sys
boot d power = record {
  disk = d;
  cache = λ _. none;
  dirty = λ _. false;
  power = power;
  log = record { start = 0; size = 0; outstanding = 0; committing = 0; n = 0; block = λ _. 0 };
}

-- `readsb` reads `struct superblock` from block 1: word 3 is `nlog`, word 4 is `logstart`.
pub initlog : Cmd (Unit {0})
unfolding recover_from_log
initlog = do
  sb ← bread 1
  log ← get_log
  set_log (record log { start = sb 4; size = sb 3 })
  recover_from_log

write_log_from : ℕ → ℕ → Cmd (Unit {0})
write_log_from zero tail = pure tt
write_log_from (suc rounds) tail = do
  log ← get_log
  to ← bread (log.start + tail + 1)
  from ← bread (log.block tail)
  bwrite (log.start + tail + 1) from
  write_log_from rounds (suc tail)

pub write_log : Cmd (Unit {0})
unfolding write_log_from
write_log s = write_log_from s.log.n 0 s

pub commit : Cmd (Unit {0})
unfolding write_log write_head install_trans clear_head
commit s =
    if ltb 0 s.log.n then (do write_log; write_head; install_trans; clear_head) s else done tt s
