-- ===== src/Fs/Inode/Slots.antt =====
-- The addresses of an inode of xv6/fs.c: 12 direct ones, the indirect block, and its 128 entries.
use oslab.Common.{
  ℕ, ◌+◌, ◌-◌, ◌*◌, ◌/◌, ◌%◌, ◌≤◌, ◌<◌, ◌≡◌, ◌≢◌, ◌⊎◌, refl, arith, ◌==◌, ltb, if◌then◌else◌, inl,
  inr, ==_ne, dec_lt, lt→ltb, le→ltb,
}
use oslab.Fs.{bsize}
use oslab.Fs.Bitmap.{IsFs}
use oslab.Fs.Holds.{Holds}
use oslab.Fs.Inode.{File, uint_at, put_uint}

pub uint_at-put_uint :
    (bytes : ℕ → ℕ) (i v : ℕ) → v < 4294967296 → uint_at (put_uint bytes i v) i ≡ v
uint_at-put_uint bytes i v lt = ground arith

pub uint_at-put_uint_ne :
    (bytes : ℕ → ℕ) (i j v : ℕ)
    → (i + 4 ≤ j) ⊎ (j + 4 ≤ i)
    → uint_at (put_uint bytes i v) j ≡ uint_at bytes j
uint_at-put_uint_ne bytes i j v (inl far) = ground arith
uint_at-put_uint_ne bytes i j v (inr far) = ground arith

pub apart : (n m : ℕ) → n ≢ m → (4 * n + 4 ≤ 4 * m) ⊎ (4 * m + 4 ≤ 4 * n)
apart n m ne = elim (dec_lt n m) [ yes lt ↦ inl (omega arith) | no ge ↦ inr (omega arith) ]

pub put_uint_byte : (bytes : ℕ → ℕ) (i v j : ℕ) → bytes j < 256 → put_uint bytes i v j < 256
put_uint_byte bytes i v j lt = ground arith

-- Address `k`: 0 to 11 are direct, 12 is the indirect block, and from 13 on come its entries.
abbrev pub slot : File → ℕ → ℕ
slot f k =
    if ltb k 13
    then f.ip.addrs k
    else if f.ip.addrs 12 == 0
    then 0
    else uint_at (f.fs.block (f.ip.addrs 12)) (4 * (k - 13))

pub slot_low : (f : File) (j : ℕ) → j < 13 → slot f j ≡ f.ip.addrs j
slot_low f j lt = rw (lt→ltb j 13 lt) refl

pub slot_none : (f : File) (j : ℕ) → 13 ≤ j → f.ip.addrs 12 ≡ 0 → slot f j ≡ 0
slot_none f j ge e = rw (le→ltb j 13 ge, e) refl

pub slot_some :
    (f : File) (j a : ℕ)
    → 13 ≤ j
    → f.ip.addrs 12 ≡ a
    → a ≢ 0
    → slot f j ≡ uint_at (f.fs.block a) (4 * (j - 13))
slot_some f j a ge e ne = rw (le→ltb j 13 ge, e, ==_ne a 0 ne) refl

pub uint_at_zeros : (bytes : ℕ → ℕ) (i : ℕ) → ((k : ℕ) → bytes k ≡ 0) → uint_at bytes i ≡ 0
uint_at_zeros bytes i h = omega (arith, h i, h (i + 1), h (i + 2), h (i + 3))

pub uint_at_cong : (x y : ℕ → ℕ) (i : ℕ) → ((k : ℕ) → x k ≡ y k) → uint_at x i ≡ uint_at y i
uint_at_cong x y i h = omega (arith, h i, h (i + 1), h (i + 2), h (i + 3))

-- The addresses that are set name blocks past the metadata, in use, each once.
pub record IsFile (meta : ℕ) (f : File) : Type 0 where
  pub disk : IsFs meta f.fs
  pub distinct : (i j : ℕ) → i < 141 → j < 141 → i ≢ j → slot f i ≡ slot f j → slot f i ≡ 0
  pub holds : (i : ℕ) → i < 141 → slot f i ≢ 0 → Holds meta f.fs (slot f i)
  pub inode : f.ip.inum < f.fs.sb.ninodes

-- The address of block `bn` of the file.
abbrev pub place : ℕ → ℕ
place bn = if ltb bn 12 then bn else bn + 1

abbrev pub lookup : File → ℕ → ℕ
lookup f bn = slot f (place bn)

-- Byte `i` of the file; a block that is missing is full of zeros.
abbrev pub content : File → ℕ → ℕ
content f i = if lookup f (i / bsize) == 0 then 0 else f.fs.block (lookup f (i / bsize)) (i % bsize)
