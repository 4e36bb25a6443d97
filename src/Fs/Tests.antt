-- ===== src/Fs/Tests.antt =====
-- A small disk for xv6/fs.c: 16 blocks, the bitmap in block 3, blocks 0 to 4 in use.
use oslab.Common.{
  ℕ, zero, suc, true, ◌<◌, ◌≡◌, refl, arith, true, none, some, [], ◌∷◌, ◌==◌, if◌then◌else◌, Option,
  count, ◌≢◌,
}
use oslab.Fs.{Superblock, Fs, balloc, balloc_from, find_bit, take_block, bfree}
use oslab.Fs.Bitmap.{in_use, IsFs}
use oslab.Fs.Blocks.{Alloc, balloc-Alloc}
use oslab.Fs.Owners.{Disk, Owned, balloc-Reach, here, next, allocates}

abbrev pub sb : Superblock
sb = record { size = 16; ninodes = 8; inodestart = 2; bmapstart = 3 }

abbrev pub disk : Fs
disk = record {
  sb = sb;
  block = λ b i. if b == 3 then (if i == 0 then 31 else 0) else 0;
  logged = [];
}

abbrev fs_of : Option (ℕ × Fs) → Fs
fs_of none = disk
fs_of (some (b, fs)) = fs

-- The block 5 is the first that is free.
abbrev taken : Fs
taken = fs_of (balloc disk)

low_used : (b : ℕ) → b < 4 → in_use disk b ≡ true
low_used zero lt = refl
low_used (suc zero) lt = refl
low_used (suc (suc zero)) lt = refl
low_used (suc (suc (suc zero))) lt = refl
low_used (suc (suc (suc (suc b)))) lt = absurd (omega arith)

pub disk-IsFs : IsFs 4 disk
disk-IsFs = record {
  bytes = λ b i. ground arith;
  used = low_used;
  bitmap = λ b lt. omega arith;
  inodes = λ i lt. omega arith;
  apart = λ i b i_lt b_lt. omega arith;
  boot = omega arith;
  inside = omega arith;
  width = omega arith;
}

balloc_test : balloc disk ≡ some (5, taken)
unfolding balloc balloc_from find_bit take_block
balloc_test = refl

balloc-Alloc_example : Alloc 4 disk (balloc disk)
balloc-Alloc_example = balloc-Alloc 4 disk disk-IsFs

abbrev one_held : Disk
one_held = record { fs = taken; held = 5 ∷ [] }

balloc-Reach_example :
    Owned 4 one_held
    × ((b : ℕ) → 0 < count b one_held.held → bfree b taken ≢ none)
    × ((b : ℕ) (u : Fs) → balloc taken ≡ some (b, u) → count b one_held.held ≡ 0)
unfolding balloc balloc_from find_bit take_block
balloc-Reach_example = balloc-Reach 4 disk one_held disk-IsFs (next here (allocates 5 refl))
