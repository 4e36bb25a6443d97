-- ===== src/Fs/Bits.antt =====
-- The bits of a byte, checked for every byte.
use oslab.Common.{
  ℕ, zero, suc, ◌<◌, ◌≡◌, ◌∙◌, refl, ap, arith, Bool, true, false, ◌&&◌, not, ◌==◌, ltb,
  if◌then◌else◌, ltb→lt, Bool-cases, inl, inr, ℕ_discrete,
}
use oslab.Fs.{bit_set, or_bit, clear_bit}

-- Whether a test holds for the numbers under a bound, from the largest down.
under : (ℕ → Bool) → ℕ → Bool
under test zero = true
under test (suc bound) = elim (test bound) [ false ↦ false | true ↦ under test bound ]

under-passes : (test : ℕ → Bool) (bound i : ℕ) → i < bound → under test bound ≡ true → test i ≡ true
unfolding under
under-passes test zero i lt passed = absurd (omega arith)
under-passes test (suc bound) i lt passed = elim (Bool-cases (test bound)) [
  | inr failed ↦ cc (rw (failed, under) at passed)
  | inl top ↦ elim (ℕ_discrete i bound) [
    | yes e ↦ ap test e ∙ top
    | no ne ↦ under-passes test bound i (omega arith) (rw (top, under) at passed)
  ]
]

-- For two places in a byte and each byte.
bytes_pass : (ℕ → ℕ → ℕ → Bool) → Bool
unfolding under
bytes_pass test = under (λ k. under (λ j. under (test k j) 256) 8) 8

bytes_pass_lem :
    (test : ℕ → ℕ → ℕ → Bool) (k j x : ℕ)
    → bytes_pass test ≡ true
    → k < 8
    → j < 8
    → x < 256
    → test k j x ≡ true
unfolding bytes_pass
bytes_pass_lem test k j x passed k_lt j_lt x_lt =
    let row = under-passes (λ k. under (λ j. under (test k j) 256) 8) 8 k k_lt passed in
    under-passes (test k j) 256 x x_lt (under-passes (λ j. under (test k j) 256) 8 j j_lt row)

same_bool : Bool → Bool → Bool
same_bool true b = b
same_bool false b = not b

same_bool-eq : (a b : Bool) → same_bool a b ≡ true → a ≡ b
unfolding same_bool
same_bool-eq true true h = refl
same_bool-eq true false h = cc
same_bool-eq false true h = cc
same_bool-eq false false h = refl

or_test : ℕ → ℕ → ℕ → Bool
unfolding same_bool
or_test k j x =
    same_bool (bit_set (or_bit x k) j) (if j == k then true else bit_set x j)
    && ltb (or_bit x k) 256

clear_test : ℕ → ℕ → ℕ → Bool
unfolding same_bool
clear_test k j x =
    same_bool (bit_set (clear_bit x k) j) (if j == k then false else bit_set x j)
    && ltb (clear_bit x k) 256

or_table : bytes_pass or_test ≡ true
unfolding bytes_pass or_test
or_table = refl

clear_table : bytes_pass clear_test ≡ true
unfolding bytes_pass clear_test
clear_table = refl

module _ (k j x : ℕ) (k_lt : k < 8) (j_lt : j < 8) (x_lt : x < 256) where
  pub bit_set-or_bit :
      (bit_set (or_bit x k) j ≡ (if j == k then true else bit_set x j)) × (or_bit x k < 256)
  unfolding or_test
  bit_set-or_bit =
      let h = bytes_pass_lem or_test k j x or_table k_lt j_lt x_lt in
      (same_bool-eq _ _ (ground (arith, h)), ltb→lt (or_bit x k) 256 (ground (arith, h)))

  pub bit_set-clear_bit :
      (bit_set (clear_bit x k) j ≡ (if j == k then false else bit_set x j)) × (clear_bit x k < 256)
  unfolding clear_test
  bit_set-clear_bit =
      let h = bytes_pass_lem clear_test k j x clear_table k_lt j_lt x_lt in
      (same_bool-eq _ _ (ground (arith, h)), ltb→lt (clear_bit x k) 256 (ground (arith, h)))
