-- ===== src/File/Inodes.antt =====
-- `filewrite` of xv6/file.c on the inode of an open file, which `ilock` has locked and read. It writes
-- at most 1536 bytes in each transaction. The number of bytes is not negative, which `argptr` sees to
-- before a system call comes here.
use oslab.Common.{ℕ, zero, suc, ◌+◌, ◌-◌, ◌%◌, none, some, ◌==◌, ltb, min, if◌then◌else◌}
use oslab.Common.Int.{ℤ, pos, negsuc}
use oslab.Fs.Inode.{File, Dev, uint_max, writei}
use oslab.Walk.{Outcome, done, panic, timeout}
use oslab.File.{FileEntry, fd_none, fd_pipe, fd_inode}

-- What a call comes to: a call of the pipe's function, or the result, `f->off` and the inode.
pub data Answer : Type 0 where
  calls_pipewrite : ℕ → Answer
  answers : Outcome (ℤ × ℕ × File) → Answer

-- `((MAXOPBLOCKS-1-1-2) / 2) * 512`
abbrev pub chunk : ℕ
chunk = 1536

module _ (devsw : ℕ → Dev) where
  -- The loop of `filewrite` from byte `i` on, and its return: the result, `f->off` and the file.
  unfoldable pub write_chunks : ℕ → ℕ → ℕ → (ℕ → ℕ) → ℕ → File → Outcome (ℤ × ℕ × File)
  write_chunks zero i n src off f =
      if ltb i n then timeout else done (if i == n then pos n else negsuc 0, off, f)
  write_chunks (suc rounds) i n src off f =
      if ltb i n
      then elim (writei devsw off (min (n - i) chunk) (λ j. src (i + j)) f) [
        | none ↦ panic
        | some (negsuc a, g) ↦ done (negsuc 0, off, g)
        | some (pos k, g) ↦
            let rest = write_chunks rounds (i + k) n src ((off + k) % uint_max) g in
            if k == min (n - i) chunk then rest else panic
      ]
      else done (if i == n then pos n else negsuc 0, off, f)

  -- `filewrite`
  unfoldable pub filewrite : FileEntry → ℕ → (ℕ → ℕ) → File → Answer
  filewrite e n src f =
      if e.writable
      then elim e.kind [
        | fd_pipe p ↦ calls_pipewrite p
        | fd_inode ip ↦ answers (write_chunks n 0 n src e.off f)
        | fd_none ↦ answers panic
      ]
      else answers (done (negsuc 0, e.off, f))
