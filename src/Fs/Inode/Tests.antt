-- ===== src/Fs/Inode/Tests.antt =====
-- An empty file on the small disk of 16 blocks.
use oslab.Common.{
  ℕ, zero, suc, subst, sym, ◌+◌, ◌*◌, ◌%◌, ◌≤◌, ◌≢◌, ◌<◌, ◌≡◌, refl, arith, true, false, none, some,
  ◌==◌, if◌then◌else◌,
}
use oslab.Common.Int.{pos}
use oslab.Fs.Bitmap.{in_use, IsFs}
use oslab.Fs.{Fs, iblock, ipb}
use oslab.Fs.Tests.{sb, disk, disk-IsFs}
use oslab.Fs.Inode.{Inode, File, Dev, bmap, readi, writei, iupdate, ilock}
use oslab.Fs.Holds.{Holds}
use oslab.Fs.Inode.Trunc.{itrunc}
use oslab.Fs.Inode.Trunc.Whole.{Truncated, itrunc-Truncated}
use oslab.Fs.Inode.Slots.{slot, IsFile}
use oslab.Fs.Inode.Maps.{Fills, bmap-Fills}
use oslab.Fs.Inode.Calls.{readi-writei}
use oslab.Fs.Inode.Disk.{Agrees, ilock-iupdate}
use oslab.Fs.Inode.Reads.{touched}
use oslab.File.{FileEntry, fd_inode}
use oslab.File.Inodes.{filewrite}
use oslab.File.Chunks.{FileWrites, filewrite-FileWrites}
use oslab.Fs.Free.{free, free_below}

abbrev inode : Inode
inode = record {
  dev = 1;
  inum = 1;
  refs = 1;
  valid = true;
  type = 2;
  major = 0;
  minor = 0;
  nlink = 1;
  size = 0;
  addrs = λ k. 0;
}

abbrev file : File
file = record { ip = inode; fs = disk }

slot_zero : (j : ℕ) → slot file j ≡ 0
slot_zero j = ground arith

file-IsFile : IsFile 4 file
file-IsFile = record {
  disk = disk-IsFs;
  distinct = λ i j i_lt j_lt ne e. slot_zero i;
  holds = λ i i_lt set. absurd (set (slot_zero i));
  inode = omega arith;
}

-- No device has functions.
abbrev devsw : ℕ → Dev
devsw major = record { read = none; write = none }

abbrev src : ℕ → ℕ
src i = if i == 0 then 104 else if i == 1 then 105 else 0

bmap-Fills_example : Fills 4 2 0 file (bmap 0 file)
bmap-Fills_example = bmap-Fills 4 0 file file-IsFile (omega arith)

enough : 2 * touched 0 2 ≤ free disk
unfolding touched free_below
enough = omega arith

readi-writei_example :
    (g : File) × (bytes : ℕ → ℕ) × (h : File) × (writei devsw 0 2 src file ≡ some (pos 2, g))
    × (readi devsw 0 2 (λ j. 0) g ≡ some (pos 2, bytes, h))
    × ((j : ℕ) → j < 2 → bytes j ≡ src j)
readi-writei_example =
    readi-writei devsw 4 0 2 src (λ j. 0) file file-IsFile (λ e. omega (arith, e)) (omega arith)
      (omega arith, omega arith) enough (λ i. ground arith)

ilock-iupdate_example :
    ((ip : Inode) × (ilock (record { ip = record inode { valid = false }; fs = iupdate file })
        ≡ some ip)
      × Agrees ip inode)
    × ((i k : ℕ)
        → i ≢ 1
        → k < 64
        → (iupdate file).block (iblock i sb) (i % ipb * 64 + k)
          ≡ disk.block (iblock i sb) (i % ipb * 64 + k))
ilock-iupdate_example =
    ilock-iupdate file (record inode { valid = false })
      (record {
        type = omega arith;
        major = omega arith;
        minor = omega arith;
        nlink = omega arith;
        size = omega arith;
        addrs = λ k lt. omega arith;
      })
      (λ e. omega (arith, e)) refl refl (λ e. omega (arith, e))

-- The same disk with block 5 in use, and a file that has it as its first block.
abbrev used_disk : Fs
used_disk = record disk { block = λ b i. if b == 3 then (if i == 0 then 63 else 0) else 0 }

abbrev one_block : File
one_block = record {
  ip = record inode { size = 512; addrs = λ k. if k == 0 then 5 else 0 };
  fs = used_disk;
}

low_used : (b : ℕ) → b < 4 → in_use used_disk b ≡ true
low_used zero lt = refl
low_used (suc zero) lt = refl
low_used (suc (suc zero)) lt = refl
low_used (suc (suc (suc zero))) lt = refl
low_used (suc (suc (suc (suc b)))) lt = absurd (omega arith)

used_disk-IsFs : IsFs 4 used_disk
used_disk-IsFs = record {
  bytes = λ b i. ground arith;
  used = low_used;
  bitmap = λ b lt. omega arith;
  inodes = λ i lt. omega arith;
  apart = λ i b i_lt b_lt. omega arith;
  boot = omega arith;
  inside = omega arith;
  width = omega arith;
}

slot_one_block : (j : ℕ) → slot one_block j ≡ (if j == 0 then 5 else 0)
slot_one_block j = ground arith

one_block-IsFile : IsFile 4 one_block
one_block-IsFile = record {
  disk = used_disk-IsFs;
  distinct = λ i j i_lt j_lt ne e. ground (arith, slot_one_block i, slot_one_block j, e, ne);
  holds = λ i i_lt set.
      let five : slot one_block i ≡ 5 = ground (arith, slot_one_block i, set) in
      subst (Holds 4 used_disk) (sym five)
        (record { used = refl; past = omega arith; inside = omega arith });
  inode = omega arith;
}

itrunc-Truncated_example : (g : File) × (itrunc one_block ≡ some g) × Truncated 4 one_block g
itrunc-Truncated_example = itrunc-Truncated 4 one_block one_block-IsFile

-- The file, open for writing.
abbrev writer : FileEntry
writer = record { kind = fd_inode 0; refs = 1; readable = true; writable = true; off = 0 }

-- Two chunks.
filewrite-FileWrites_example :
    FileWrites 4 writer 2000 src file (filewrite devsw writer 2000 src file)
filewrite-FileWrites_example =
    filewrite-FileWrites devsw 4 src (λ i. ground arith) writer 0 2000 file refl file-IsFile
      (λ e. omega (arith, e)) (omega arith) (omega arith) (omega arith)
