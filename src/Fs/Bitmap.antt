-- ===== src/Fs/Bitmap.antt =====
-- `balloc` and `bfree` of xv6/fs.c against the set of the blocks that are in use.
use oslab.Common.{
  ℕ, zero, suc, ◌+◌, ◌-◌, ◌*◌, ◌/◌, ◌%◌, ◌^◌, ◌≤◌, ◌<◌, ◌≡◌, ◌≢◌, ◌∙◌, refl, sym, subst, arith,
  Bool, true, false, Option, none, some, Bool-cases, inl, inr, ℕ_discrete, dec_lt, lt→ltb, le→ltb,
}
use oslab.Fs.{bpb, Fs, bblock, iblock, bit_set, find_bit, take_block, balloc_from, balloc}

-- The bit of block `b` in the bitmap.
abbrev pub in_use : Fs → ℕ → Bool
in_use fs b = bit_set (fs.block (bblock b fs.sb) (b % bpb / 8)) (b % bpb % 8)

-- Blocks hold bytes; the blocks below `meta` are in use, and the bitmap and the inodes
-- are in different ones of them.
pub record IsFs (meta : ℕ) (fs : Fs) : Type 0 where
  pub bytes : (b i : ℕ) → fs.block b i < 256
  pub used : (b : ℕ) → b < meta → in_use fs b ≡ true
  pub bitmap : (b : ℕ) → b < fs.sb.size → bblock b fs.sb < meta
  pub inodes : (i : ℕ) → i < fs.sb.ninodes → iblock i fs.sb < meta
  pub apart : (i b : ℕ) → i < fs.sb.ninodes → b < fs.sb.size → iblock i fs.sb ≢ bblock b fs.sb
  pub boot : 0 < meta
  pub inside : meta ≤ fs.sb.size
  pub width : fs.sb.size < 2 ^ 32

-- The first free block, if there is one.
abbrev pub AllUsed : Fs → ℕ → Type 0
AllUsed fs n = (j : ℕ) → j < n → j < fs.sb.size → in_use fs j ≡ true

-- Bit `bi` of the bitmap's block for the blocks from `b` on.
at_bit :
    (fs : Fs) (b bi : ℕ)
    → b % bpb ≡ 0
    → bi < bpb
    → bit_set (fs.block (bblock b fs.sb) (bi / 8)) (bi % 8) ≡ in_use fs (b + bi)
at_bit fs b bi whole lt =
    let row : (b + bi) / bpb ≡ b / bpb = omega arith in
    let col : (b + bi) % bpb ≡ bi = omega arith in rw (row, col) refl

-- The inner loop finds the first free block of the blocks from `b + bi` to `b + bpb`.
abbrev Found : Fs → ℕ → ℕ → Option ℕ → Type 0
Found fs b bi none = (j : ℕ) → bi ≤ j → j < bpb → b + j < fs.sb.size → in_use fs (b + j) ≡ true
Found fs b bi (some k) =
    (bi ≤ k)
    × (k < bpb)
    × (b + k < fs.sb.size)
    × (in_use fs (b + k) ≡ false)
    × ((j : ℕ) → bi ≤ j → j < k → in_use fs (b + j) ≡ true)

Found-next :
    (fs : Fs) (b bi : ℕ) (r : Option ℕ)
    → in_use fs (b + bi) ≡ true
    → Found fs b (suc bi) r
    → Found fs b bi r
Found-next fs b bi none used h = λ j lo hi in_size. elim (ℕ_discrete j bi) [
  | yes e ↦ rw e used
  | no ne ↦ h j (omega arith) hi in_size
]
Found-next fs b bi (some k) used h = (
  omega (arith, h.0),
  h.1,
  h.2,
  h.3,
  λ j lo hi. elim (ℕ_discrete j bi) [ yes e ↦ rw e used | no ne ↦ h.4 j (omega arith) hi ],
)

find_bit-Found :
    (rounds bi b : ℕ) (fs : Fs)
    → b % bpb ≡ 0
    → bi + rounds ≡ bpb
    → Found fs b bi (find_bit rounds bi b fs)
unfolding find_bit
find_bit-Found zero bi b fs whole e = λ j lo hi in_size. absurd (omega arith)
find_bit-Found (suc rounds) bi b fs whole e = elim (dec_lt (b + bi) fs.sb.size) [
  | no past ↦
      rw (le→ltb (b + bi) fs.sb.size (omega arith), find_bit)
        (λ j lo hi in_size. absurd (omega arith))
  | yes lt ↦
      let same = at_bit fs b bi whole (omega arith) in
      elim (Bool-cases (in_use fs (b + bi))) [
        | inl used ↦
            rw (lt→ltb (b + bi) fs.sb.size lt, find_bit, same ∙ used)
              (Found-next fs b bi (find_bit rounds (suc bi) b fs) used
                (find_bit-Found rounds (suc bi) b fs whole (omega arith)))
        | inr free ↦
            rw (lt→ltb (b + bi) fs.sb.size lt, find_bit, same ∙ free)
              (omega arith, omega arith, lt, free, λ j lo hi. absurd (omega arith))
      ]
]

-- The ends of `balloc`.
pub data Allocates (fs : Fs) : Option (ℕ × Fs) → Type 0 where
  takes :
      (b : ℕ)
      → b < fs.sb.size
      → in_use fs b ≡ false
      → AllUsed fs b
      → Allocates fs (some (b, take_block (b / bpb * bpb) (b % bpb) fs))
  full : AllUsed fs fs.sb.size → Allocates fs none

balloc_from-Allocates :
    (rounds b : ℕ) (fs : Fs)
    → b % bpb ≡ 0
    → fs.sb.size < b + rounds * bpb
    → AllUsed fs b
    → Allocates fs (balloc_from rounds b fs)
unfolding balloc_from
balloc_from-Allocates zero b fs whole enough used =
    full (λ j lt in_size. used j (omega arith) in_size)
balloc_from-Allocates (suc rounds) b fs whole enough used = elim (dec_lt b fs.sb.size) [
  | no past ↦
      rw (le→ltb b fs.sb.size (omega arith), balloc_from)
        (full (λ j lt in_size. used j (omega arith) in_size))
  | yes lt ↦
      rw (lt→ltb b fs.sb.size lt, balloc_from)
        (go (find_bit bpb 0 b fs) (find_bit-Found bpb 0 b fs whole refl)
          (balloc_from-Allocates rounds (b + bpb) fs (omega arith) (omega arith)))
]
  where
    go :
        (r : Option ℕ)
        → Found fs b 0 r
        → (AllUsed fs (b + bpb) → Allocates fs (balloc_from rounds (b + bpb) fs))
        → Allocates fs (elim r [
          | some bi ↦ some (b + bi, take_block b bi fs)
          | none ↦ balloc_from rounds (b + bpb) fs
        ])
    go (some k) h rest =
        let row : (b + k) / bpb * bpb ≡ b = omega (arith, h.1) in
        let col : (b + k) % bpb ≡ k = omega (arith, h.1) in
        let mine : take_block ((b + k) / bpb * bpb) ((b + k) % bpb) fs ≡ take_block b k fs =
          rw (row, col) refl in
        rw (sym mine) (
          takes (b + k) h.2 h.3 (λ j lt in_size. elim (dec_lt j b) [
            | yes old ↦ used j old in_size
            | no new ↦
                let e : b + (j - b) ≡ j = omega arith in
                subst (λ i. in_use fs i ≡ true) e (h.4 (j - b) (omega arith) (omega arith))
          ]))
    go none h rest = rest (λ j lt in_size. elim (dec_lt j b) [
      | yes old ↦ used j old in_size
      | no new ↦
          let e : b + (j - b) ≡ j = omega arith in
          subst (λ i. in_use fs i ≡ true) e (h (j - b) (omega arith) (omega arith) (omega arith))
    ])

-- `balloc` takes the first free block, and fails only when there is none.
pub balloc-Allocates : (fs : Fs) → Allocates fs (balloc fs)
unfolding balloc
balloc-Allocates fs =
    balloc_from-Allocates (fs.sb.size / bpb + 2) 0 fs refl (omega arith)
      (λ j lt. absurd (omega arith))
