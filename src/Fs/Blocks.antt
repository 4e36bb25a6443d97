-- ===== src/Fs/Blocks.antt =====
-- What `balloc` and `bfree` of xv6/fs.c do to the bitmap and to the blocks.
use oslab.Common.{
  ℕ, ◌+◌, ◌*◌, ◌/◌, ◌%◌, ◌≤◌, ◌<◌, ◌≡◌, ◌≢◌, ◌∙◌, refl, sym, ap, subst, arith, Bool, true, false,
  Option, none, some, ◌∷◌, ◌==◌, if◌then◌else◌, ==_refl, ==_ne, ℕ_discrete, dec_lt,
}
use oslab.Fs.{
  bpb, Superblock, Fs, log_byte, bblock, bit_set, or_bit, clear_bit, bzero, take_block, balloc,
  bfree,
}
use oslab.Fs.Bits.{bit_set-or_bit, bit_set-clear_bit}
use oslab.Fs.Bitmap.{in_use, IsFs, Allocates, AllUsed, balloc-Allocates, full, takes}

-- The byte of the bitmap with the bit of block `b`.
abbrev pub map_byte : Fs → ℕ → ℕ
map_byte fs b = fs.block (bblock b fs.sb) (b % bpb / 8)

-- A byte `x` that differs from the byte of `b` at most in the bit of `b`, which is `v`.
abbrev OneBit : Fs → ℕ → Bool → ℕ → Type 0
OneBit fs b v x =
    (k : ℕ) → k < 8 → bit_set x k ≡ (if k == b % bpb % 8 then v else bit_set (map_byte fs b) k)

in_use-log_byte :
    (fs : Fs) (b : ℕ) (v : Bool) (x j : ℕ)
    → OneBit fs b v x
    → in_use (log_byte fs (bblock b fs.sb) (b % bpb / 8) x) j ≡ (if j == b then v else in_use fs j)
in_use-log_byte fs b v x j one = elim (ℕ_discrete (j / bpb) (b / bpb)) [
  | no far ↦
      let row : (bblock b fs.sb == bblock j fs.sb) ≡ false =
        ==_ne (bblock b fs.sb) (bblock j fs.sb) (λ e. far (omega arith)) in
      let other : (j == b) ≡ false = ==_ne j b (λ e. far (omega arith)) in rw (row, other) refl
  | yes near ↦
      let row : (bblock b fs.sb == bblock j fs.sb) ≡ true = ground arith in
      let same_row : bblock j fs.sb ≡ bblock b fs.sb = omega arith in
      elim (ℕ_discrete (j % bpb / 8) (b % bpb / 8)) [
        | no ne ↦
            let col : (b % bpb / 8 == j % bpb / 8) ≡ false =
              ==_ne (b % bpb / 8) (j % bpb / 8) (λ e. ne (omega arith)) in
            let other : (j == b) ≡ false = ==_ne j b (λ e. ne (omega arith)) in
            rw (row, col, other, same_row) refl
        | yes eq ↦
            let col : (b % bpb / 8 == j % bpb / 8) ≡ true = ground arith in
            elim (ℕ_discrete j b) [
              | yes e ↦
                  let bit : (b % bpb % 8 == b % bpb % 8) ≡ true = ==_refl (b % bpb % 8) in
                  let bits = one (b % bpb % 8) (omega arith) in
                  rw (row, col, e, ==_refl b)
                    (bits
                      ∙ ap (λ (t : Bool). if t then v else bit_set (map_byte fs b) (b % bpb % 8))
                          bit)
              | no ne ↦
                  let bit : (j % bpb % 8 == b % bpb % 8) ≡ false =
                    ==_ne (j % bpb % 8) (b % bpb % 8) (λ e. ne (omega arith)) in
                  let bits = one (j % bpb % 8) (omega arith) in
                  let other : (j == b) ≡ false = ==_ne j b ne in
                  rw (row, col, other, same_row, eq)
                    (bits
                      ∙ ap (λ (t : Bool). if t then v else bit_set (map_byte fs b) (j % bpb % 8))
                          bit)
            ]
      ]
]

-- A block that is not one of the bitmap changes: the bitmap does not.
in_use-bzero : (fs : Fs) (b j : ℕ) → b ≢ bblock j fs.sb → in_use (bzero b fs) j ≡ in_use fs j
in_use-bzero fs b j ne = rw (==_ne b (bblock j fs.sb) ne) refl

-- What `balloc` gives: a block that was free, now in use and full of zeros, every other block's bit
-- as before, every other block's bytes as before but for the bitmap's block, and both blocks logged.
pub record Took (meta : ℕ) (fs : Fs) (b : ℕ) (after : Fs) : Type 0 where
  pub valid : IsFs meta after
  pub same_sb : after.sb ≡ fs.sb
  pub free : in_use fs b ≡ false
  pub marks : (j : ℕ) → j < fs.sb.size → in_use after j ≡ (if j == b then true else in_use fs j)
  pub zeroed : (i : ℕ) → after.block b i ≡ 0
  pub frame : (c i : ℕ) → c ≢ b → c ≢ bblock b fs.sb → after.block c i ≡ fs.block c i
  pub log : after.logged ≡ b ∷ bblock b fs.sb ∷ fs.logged

pub either_byte :
    (t : Bool) (f g : ℕ → ℕ) (i : ℕ) → f i < 256 → g i < 256 → (if t then f else g) i < 256
either_byte true f g i f_lt g_lt = f_lt
either_byte false f g i f_lt g_lt = g_lt

log_byte-bytes :
    (fs : Fs) (bno i x : ℕ)
    → ((c j : ℕ) → fs.block c j < 256)
    → x < 256
    → (c j : ℕ) → (log_byte fs bno i x).block c j < 256
log_byte-bytes fs bno i x bytes lt c j =
    let put = λ (k : ℕ). if i == k then x else fs.block bno k in
    let put_lt : put j < 256 = ground (arith, bytes bno j) in
    either_byte (bno == c) put (fs.block c) j put_lt (bytes c j)

-- A free block is past the metadata.
past : (meta : ℕ) (fs : Fs) (b : ℕ) → IsFs meta fs → in_use fs b ≡ false → meta ≤ b
past meta fs b v free = elim (dec_lt b meta) [
  | yes lt ↦ cc (v.used b lt, free)
  | no ge ↦ omega (arith, ge)
]

took :
    (meta : ℕ) (fs : Fs) (b : ℕ) (x : ℕ)
    → IsFs meta fs
    → b < fs.sb.size
    → in_use fs b ≡ false
    → x < 256
    → OneBit fs b true x
    → Took meta fs b (bzero b (log_byte fs (bblock b fs.sb) (b % bpb / 8) x))
took meta fs b x v lt free byte one =
    let mid = log_byte fs (bblock b fs.sb) (b % bpb / 8) x in
    let not_map : (j : ℕ) → j < fs.sb.size → b ≢ bblock j fs.sb =
      λ j j_lt e. omega (arith, v.bitmap j j_lt, past meta fs b v free) in
    let marks : (j : ℕ)
        → j < fs.sb.size
        → in_use (bzero b mid) j ≡ (if j == b then true else in_use fs j) =
      λ j j_lt. in_use-bzero mid b j (not_map j j_lt) ∙ in_use-log_byte fs b true x j one in
    record {
      valid = record {
        bytes = λ c i.
            either_byte (b == c) (λ k. 0) (mid.block c) i (omega arith)
              (log_byte-bytes fs (bblock b fs.sb) (b % bpb / 8) x v.bytes byte c i);
        used = λ c c_lt. ground (arith, marks c (omega (arith, v.inside)), v.used c c_lt);
        bitmap = v.bitmap;
        inodes = v.inodes;
        apart = v.apart;
        boot = v.boot;
        inside = v.inside;
        width = v.width;
      };
      same_sb = refl;
      free = free;
      marks = marks;
      zeroed = λ i. rw (==_refl b) refl;
      frame = λ c i ne ne_map.
          rw (==_ne b c (λ e. ne (sym e)), ==_ne (bblock b fs.sb) c (λ e. ne_map (sym e))) refl;
      log = refl;
    }

take_block-Took :
    (meta : ℕ) (fs : Fs) (b : ℕ)
    → IsFs meta fs
    → b < fs.sb.size
    → in_use fs b ≡ false
    → Took meta fs b (take_block (b / bpb * bpb) (b % bpb) fs)
unfolding take_block
take_block-Took meta fs b v lt free =
    let row : (b / bpb * bpb) / bpb ≡ b / bpb = omega arith in
    let whole : b / bpb * bpb + b % bpb ≡ b = omega arith in
    let byte = or_bit (map_byte fs b) (b % bpb % 8) in
    let bits : (k : ℕ)
        → k < 8
        → (bit_set byte k ≡ (if k == b % bpb % 8 then true else bit_set (map_byte fs b) k))
          × (byte < 256) =
      λ k k_lt.
        bit_set-or_bit (b % bpb % 8) k (map_byte fs b) (omega arith) k_lt
          (v.bytes (bblock b fs.sb) (b % bpb / 8)) in
    rw (row, whole)
      (took meta fs b byte v lt free (bits 0 (omega arith)).1 (λ k k_lt. (bits k k_lt).0))

-- What `bfree` gives for a block in use: the block is free, every other block's bit is as before, all
-- blocks but the bitmap's keep their bytes, and the bitmap's block is logged.
pub record Gave (meta : ℕ) (fs : Fs) (b : ℕ) (after : Fs) : Type 0 where
  pub valid : IsFs meta after
  pub same_sb : after.sb ≡ fs.sb
  pub marks : (j : ℕ) → j < fs.sb.size → in_use after j ≡ (if j == b then false else in_use fs j)
  pub frame : (c i : ℕ) → c ≢ bblock b fs.sb → after.block c i ≡ fs.block c i
  pub log : after.logged ≡ bblock b fs.sb ∷ fs.logged

gave :
    (meta : ℕ) (fs : Fs) (b : ℕ) (x : ℕ)
    → IsFs meta fs
    → meta ≤ b
    → x < 256
    → OneBit fs b false x
    → Gave meta fs b (log_byte fs (bblock b fs.sb) (b % bpb / 8) x)
gave meta fs b x v plain byte one =
    let marks = λ (j : ℕ) (j_lt : j < fs.sb.size). in_use-log_byte fs b false x j one in
    record {
      valid = record {
        bytes = log_byte-bytes fs (bblock b fs.sb) (b % bpb / 8) x v.bytes byte;
        used = λ c c_lt. ground (arith, marks c (omega (arith, v.inside)), v.used c c_lt, plain);
        bitmap = v.bitmap;
        inodes = v.inodes;
        apart = v.apart;
        boot = v.boot;
        inside = v.inside;
        width = v.width;
      };
      same_sb = refl;
      marks = marks;
      frame = λ c i ne. rw (==_ne (bblock b fs.sb) c (λ e. ne (sym e))) refl;
      log = refl;
    }

pub bfree-Gave :
    (meta : ℕ) (fs : Fs) (b : ℕ)
    → IsFs meta fs
    → meta ≤ b
    → in_use fs b ≡ true
    → (u : Fs) × (bfree b fs ≡ some u) × Gave meta fs b u
unfolding bfree
bfree-Gave meta fs b v plain used =
    let byte = clear_bit (map_byte fs b) (b % bpb % 8) in
    let bits : (k : ℕ)
        → k < 8
        → (bit_set byte k ≡ (if k == b % bpb % 8 then false else bit_set (map_byte fs b) k))
          × (byte < 256) =
      λ k k_lt.
        bit_set-clear_bit (b % bpb % 8) k (map_byte fs b) (omega arith) k_lt
          (v.bytes (bblock b fs.sb) (b % bpb / 8)) in
    (
      log_byte fs (bblock b fs.sb) (b % bpb / 8) byte,
      rw used refl,
      gave meta fs b byte v plain (bits 0 (omega arith)).1 (λ k k_lt. (bits k k_lt).0),
    )

-- The panic.
pub bfree-none : (fs : Fs) (b : ℕ) → in_use fs b ≡ false → bfree b fs ≡ none
unfolding bfree
bfree-none fs b free = rw free refl

-- The ends of `balloc`: it took the first free block, or all blocks are in use.
abbrev pub Alloc : ℕ → Fs → Option (ℕ × Fs) → Type 0
Alloc meta fs none = AllUsed fs fs.sb.size
Alloc meta fs (some r) = (r.0 < fs.sb.size) × AllUsed fs r.0 × (meta ≤ r.0) × Took meta fs r.0 r.1

-- `balloc` on a disk whose bitmap is well formed takes the first free block; it fails, the panic,
-- exactly when every block is in use.
pub balloc-Alloc : (meta : ℕ) (fs : Fs) → IsFs meta fs → Alloc meta fs (balloc fs)
balloc-Alloc meta fs v = go (balloc fs) (balloc-Allocates fs)
  where
    go : (r : Option (ℕ × Fs)) → Allocates fs r → Alloc meta fs r
    go none (full all) = all
    go (some r) (takes b lt free first) =
        (lt, first, past meta fs b v free, take_block-Took meta fs b v lt free)

-- `bfree` of the block that `balloc` has just taken does not panic and gives back the bitmap.
bfree-balloc :
    (meta : ℕ) (fs : Fs) (b : ℕ) (t : Fs)
    → IsFs meta fs
    → balloc fs ≡ some (b, t)
    → (u : Fs) × (bfree b t ≡ some u)
      × IsFs meta u
      × ((j : ℕ) → j < fs.sb.size → in_use u j ≡ in_use fs j)
bfree-balloc meta fs b t v e =
    let h : Alloc meta fs (some (b, t)) = subst (Alloc meta fs) e (balloc-Alloc meta fs v) in
    let size : t.sb.size ≡ fs.sb.size = ap (λ (x : Superblock). x.size) h.3.same_sb in
    let used : in_use t b ≡ true = ground (arith, h.3.marks b h.0) in
    let (u, freed, g) = bfree-Gave meta t b h.3.valid h.2 used in
    (
      u,
      freed,
      g.valid,
      λ j j_lt. ground (arith, g.marks j (omega (arith, size)), h.3.marks j j_lt, h.3.free),
    )
