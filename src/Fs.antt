-- ===== src/Fs.antt =====
-- xv6/fs.c: the blocks of a disk as its users see them through the block cache, and the list of the
-- blocks that they have passed to `log_write`, the latest first.
pub mod Bits
pub mod Bitmap
pub mod Blocks
pub mod Holds
pub mod Free
pub mod Owners
pub mod Inode
pub mod Icache
mod Tests
use oslab.Common.{
  ℕ, zero, suc, ◌+◌, ◌-◌, ◌*◌, ◌/◌, ◌%◌, ◌^◌, Bool, true, false, not, Option, none, some, List, [],
  ◌∷◌, ◌==◌, ltb, if◌then◌else◌,
}

abbrev pub bsize : ℕ
bsize = 512

abbrev pub bpb : ℕ
bpb = 4096

abbrev pub ipb : ℕ
ipb = 8

-- `struct superblock`, the fields that are used here.
pub record Superblock : Type 0 where
  pub size : ℕ
  pub ninodes : ℕ
  pub inodestart : ℕ
  pub bmapstart : ℕ

pub record Fs : Type 0 where
  pub sb : Superblock
  pub block : ℕ → ℕ → ℕ
  pub logged : List ℕ

-- The bytes of a block are changed, and the block is passed to `log_write`.
abbrev pub log_block : Fs → ℕ → (ℕ → ℕ) → Fs
log_block fs bno bytes = record fs {
  block = λ b. if bno == b then bytes else fs.block b;
  logged = bno ∷ fs.logged;
}

-- One byte of a block is changed, and the block is passed to `log_write`.
abbrev pub log_byte : Fs → ℕ → ℕ → ℕ → Fs
log_byte fs bno i x = log_block fs bno (λ j. if i == j then x else fs.block bno j)

-- `BBLOCK(b, sb)`
abbrev pub bblock : ℕ → Superblock → ℕ
bblock b sb = b / bpb + sb.bmapstart

-- `IBLOCK(i, sb)`, with the 8 inodes of a block
abbrev pub iblock : ℕ → Superblock → ℕ
iblock i sb = i / ipb + sb.inodestart

-- `(byte & (1 << k)) != 0`
abbrev pub bit_set : ℕ → ℕ → Bool
bit_set byte k = byte / 2 ^ k % 2 == 1

-- `byte | (1 << k)`
abbrev pub or_bit : ℕ → ℕ → ℕ
or_bit byte k = if bit_set byte k then byte else byte + 2 ^ k

-- `byte & ~(1 << k)`
abbrev pub clear_bit : ℕ → ℕ → ℕ
clear_bit byte k = if bit_set byte k then byte - 2 ^ k else byte

-- `bzero`
abbrev pub bzero : ℕ → Fs → Fs
bzero bno fs = log_block fs bno (λ j. 0)

-- The inner loop of `balloc`: the first bit from `bi` on that is clear.
pub find_bit : ℕ → ℕ → ℕ → Fs → Option ℕ
find_bit zero bi b fs = none
find_bit (suc rounds) bi b fs = elim (ltb (b + bi) fs.sb.size) [
  | false ↦ none
  | true ↦ elim (bit_set (fs.block (bblock b fs.sb) (bi / 8)) (bi % 8)) [
    | false ↦ some bi
    | true ↦ find_bit rounds (suc bi) b fs
  ]
]

-- What `balloc` does with the free block `b + bi`.
pub take_block : ℕ → ℕ → Fs → Fs
take_block b bi fs =
    bzero (b + bi)
      (log_byte fs (bblock b fs.sb) (bi / 8) (or_bit (fs.block (bblock b fs.sb) (bi / 8)) (bi % 8)))

-- The outer loop of `balloc`; `none` is the panic.
pub balloc_from : ℕ → ℕ → Fs → Option (ℕ × Fs)
unfolding find_bit take_block
balloc_from zero b fs = none
balloc_from (suc rounds) b fs = elim (ltb b fs.sb.size) [
  | false ↦ none
  | true ↦ elim (find_bit bpb 0 b fs) [
    | some bi ↦ some (b + bi, take_block b bi fs)
    | none ↦ balloc_from rounds (b + bpb) fs
  ]
]

-- `balloc`; the outer loop has a round for each block of the bitmap, and one to leave it.
unfoldable pub balloc : Fs → Option (ℕ × Fs)
unfolding balloc_from
balloc fs = balloc_from (fs.sb.size / bpb + 2) 0 fs

-- `bfree`; `none` is the panic. `readsb` would give the superblock that `fs` has: block 1 is not written.
unfoldable pub bfree : ℕ → Fs → Option Fs
bfree b fs =
    let bi = b % bpb in
    let byte = fs.block (bblock b fs.sb) (bi / 8) in
    if bit_set byte (bi % 8)
    then some (log_byte fs (bblock b fs.sb) (bi / 8) (clear_bit byte (bi % 8)))
    else none
