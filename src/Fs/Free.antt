-- ===== src/Fs/Free.antt =====
-- How many blocks of a disk of xv6/fs.c are free.
use oslab.Common.{
  ℕ, zero, suc, ◌+◌, ◌<◌, ◌≡◌, arith, true, false, ◌==◌, ltb, if◌then◌else◌, refl, ap, ◌∙◌,
  ℕ_discrete, ==_refl, ==_ne,
}
use oslab.Fs.{Superblock, Fs, log_block}
use oslab.Fs.Bitmap.{in_use, IsFs, AllUsed}
use oslab.Fs.Blocks.{Took}
use oslab.Fs.Holds.{IsClear, in_use-log_block}

unfoldable pub free_below : ℕ → Fs → ℕ
free_below zero fs = 0
free_below (suc n) fs = (if in_use fs n then 0 else 1) + free_below n fs

abbrev pub free : Fs → ℕ
free fs = free_below fs.sb.size fs

free_below-same :
    (n : ℕ) (fs t : Fs)
    → ((j : ℕ) → j < n → in_use t j ≡ in_use fs j)
    → free_below n t ≡ free_below n fs
unfolding free_below
free_below-same zero fs t h = refl
free_below-same (suc n) fs t h =
    let rest = free_below-same n fs t (λ j lt. h j (omega arith)) in
    rw (h n (omega arith), rest) refl

free_below-marks :
    (n b : ℕ) (fs t : Fs)
    → in_use fs b ≡ false
    → ((j : ℕ) → j < n → in_use t j ≡ (if j == b then true else in_use fs j))
    → free_below n t + (if ltb b n then 1 else 0) ≡ free_below n fs
unfolding free_below
free_below-marks zero b fs t e h = ground arith
free_below-marks (suc n) b fs t e h =
    let rest = free_below-marks n b fs t e (λ j lt. h j (omega arith)) in
    elim (ℕ_discrete n b) [
      | yes eq ↦
          let now : in_use t n ≡ true = h n (omega arith) ∙ rw (eq, ==_refl b) refl in
          let old : in_use fs n ≡ false = ap (in_use fs) eq ∙ e in
          let tests : (ltb b (suc n) ≡ true) × (ltb b n ≡ false) = ground (arith, eq) in
          rw (now, old, tests.0) (omega (arith, rw tests.1 at rest))
      | no ne ↦
          let same : in_use t n ≡ in_use fs n = h n (omega arith) ∙ rw (==_ne n b ne) refl in
          let tests : ltb b (suc n) ≡ ltb b n = ground (arith, ne) in
          rw (same, tests) (omega (arith, rest))
    ]

pub AllUsed-free : (fs : Fs) → AllUsed fs fs.sb.size → free fs ≡ 0
unfolding free_below
AllUsed-free fs h = go fs.sb.size (λ j lt. h j lt lt)
  where
    go : (n : ℕ) → ((j : ℕ) → j < n → in_use fs j ≡ true) → free_below n fs ≡ 0
    go zero h = refl
    go (suc n) h =
        let rest = go n (λ j lt. h j (omega arith)) in rw (h n (omega arith)) (omega (arith, rest))

pub Took-free :
    (meta : ℕ) (fs : Fs) (b : ℕ) (t : Fs) → b < fs.sb.size → Took meta fs b t → free t + 1 ≡ free fs
Took-free meta fs b t lt took =
    let size : t.sb.size ≡ fs.sb.size = ap (λ (x : Superblock). x.size) took.same_sb in
    let counted = free_below-marks fs.sb.size b fs t took.free took.marks in
    ap (λ n. free_below n t + 1) size ∙ ground (arith, counted, lt)

pub log_block-free :
    (meta : ℕ) (fs : Fs) (c : ℕ) (bytes : ℕ → ℕ)
    → IsFs meta fs
    → IsClear fs c
    → free (log_block fs c bytes) ≡ free fs
log_block-free meta fs c bytes v clear =
    free_below-same fs.sb.size fs (log_block fs c bytes)
      (λ j lt. in_use-log_block meta fs c bytes j v clear lt)
