-- ===== src/Net/Checksum.antt =====
-- The checksums of xv6/ipv4.c and xv6/icmp.c: one's complement sums of 16-bit words.
use oslab.Common.{
  ℕ, zero, suc, ◌+◌, ◌-◌, ◌*◌, ◌%◌, ◌^◌, ◌≤◌, ◌<◌, ◌≡◌, ◌≢◌, refl, subst, arith, ==_refl, ==_ne,
  ℕ_discrete, dec_lt, lt→ltb, le→ltb,
}
use oslab.Net.{
  h2n_ushort, word, add_word, sum_words, complement, ipv4_chksum, icmp_chksum, store_ushort,
}

-- The plain sum of the words.
pub total : (ℕ → ℕ) → ℕ → ℕ → ℕ
total bin zero i = 0
total bin (suc rounds) i = word bin i + total bin rounds (suc i)

-- The words of the range are made of bytes.
abbrev pub IsBytes : (ℕ → ℕ) → Type 0
IsBytes bin = (a : ℕ) → bin a < 2 ^ 8

-- The loop's sum is in 16 bits, congruent to the plain sum modulo 65535, and 0 only if that is.
pub record IsSum (plain folded : ℕ) : Type 0 where
  pub carries : ℕ
  pub sum : plain ≡ folded + carries * 65535
  pub narrow : folded ≤ 65535
  pub positive : 0 < plain → 0 < folded

add_word-IsSum : (plain s w : ℕ) → w ≤ 65535 → IsSum plain s → IsSum (plain + w) (add_word s w)
add_word-IsSum plain s w lt h = elim (dec_lt (2 ^ 16 - 1) (s + w)) [
  | yes over ↦ rw (lt→ltb (2 ^ 16 - 1) (s + w) over) (record {
    carries = h.carries + 1;
    sum = omega (arith, h.sum, h.narrow);
    narrow = omega (arith, h.narrow);
    positive = λ _. omega arith;
  })
  | no fits ↦ rw (le→ltb (2 ^ 16 - 1) (s + w) (omega arith)) (record {
    carries = h.carries;
    sum = omega (arith, h.sum);
    narrow = omega arith;
    positive =
        λ p. elim (dec_lt 0 plain) [ yes q ↦ omega (arith, h.positive q) | no z ↦ omega arith ];
  })
]

sum_words-IsSum :
    (bin : ℕ → ℕ) (rounds i plain s : ℕ)
    → IsBytes bin
    → IsSum plain s
    → IsSum (plain + total bin rounds i) (sum_words bin rounds i s)
unfolding sum_words total
sum_words-IsSum bin zero i plain s b h = subst (λ p. IsSum p s) (omega arith) h
sum_words-IsSum bin (suc rounds) i plain s b h =
    let w : word bin i ≤ 65535 = omega (arith, b (i * 2), b (i * 2 + 1)) in
    subst (λ p. IsSum p (sum_words bin (suc rounds) i s)) (omega arith)
      (sum_words-IsSum bin rounds (suc i) (plain + word bin i) (add_word s (word bin i)) b
        (add_word-IsSum plain s (word bin i) w h))

module _ (bin : ℕ → ℕ) (f value : ℕ) where
  word-store : value < 2 ^ 16 → word (store_ushort bin f value) f ≡ value
  unfolding store_ushort h2n_ushort
  word-store lt =
      rw
        (
          ==_refl (f * 2),
          ==_ne (f * 2 + 1) (f * 2) (λ e. absurd (omega arith)),
          ==_refl (f * 2 + 1),
        )
        (omega arith)

  word-store_ne : (j : ℕ) → j ≢ f → word (store_ushort bin f value) j ≡ word bin j
  unfolding store_ushort
  word-store_ne j ne =
      rw
        (
          ==_ne (j * 2) (f * 2) (λ e. ne (omega arith)),
          ==_ne (j * 2) (f * 2 + 1) (λ e. absurd (omega arith)),
          ==_ne (j * 2 + 1) (f * 2) (λ e. absurd (omega arith)),
          ==_ne (j * 2 + 1) (f * 2 + 1) (λ e. ne (omega arith)),
        )
        refl

  total-store_below :
      (rounds i : ℕ) → f < i → total (store_ushort bin f value) rounds i ≡ total bin rounds i
  unfolding total
  total-store_below zero i lt = refl
  total-store_below (suc rounds) i lt = omega (
    arith,
    word-store_ne i (λ e. absurd (omega arith)),
    total-store_below rounds (suc i) (omega arith),
  )

  total-store :
      (rounds i : ℕ)
      → value < 2 ^ 16
      → word bin f ≡ 0
      → i ≤ f
      → f < i + rounds
      → total (store_ushort bin f value) rounds i ≡ total bin rounds i + value
  unfolding total
  total-store zero i lt clear lo hi = absurd (omega arith)
  total-store (suc rounds) i lt clear lo hi = elim (ℕ_discrete i f) [
    | yes e ↦
        let here : word bin i ≡ 0 = rw e clear in
        let there : word (store_ushort bin f value) i ≡ value = rw e (word-store lt) in
        omega (arith, here, there, total-store_below rounds (suc i) (omega arith))
    | no ne ↦
        omega (
          arith,
          word-store_ne i ne,
          total-store rounds (suc i) lt clear (omega arith) (omega arith),
        )
  ]

  store-IsBytes : value < 2 ^ 16 → IsBytes bin → IsBytes (store_ushort bin f value)
  unfolding store_ushort h2n_ushort
  store-IsBytes lt b a = ground (arith, b a)

whole_sum :
    (plain plain' s s' : ℕ)
    → IsSum plain s
    → IsSum plain' s'
    → plain' ≡ plain + (65535 - s)
    → complement s' ≡ 0
whole_sum plain plain' s s' h h' e =
    let positive : 0 < s' = h'.positive (omega (arith, h.sum, h.narrow)) in
    omega (arith, h.sum, h.narrow, h'.sum, h'.narrow)

-- A sum that is complemented and stored in a word that was 0 makes the complemented sum 0.
complement-store :
    (bin : ℕ → ℕ) (rounds f : ℕ)
    → IsBytes bin
    → word bin f ≡ 0
    → f < rounds
    → complement (sum_words (store_ushort bin f (complement (sum_words bin rounds 0 0))) rounds 0 0)
      ≡ 0
complement-store bin rounds f b clear lt =
    let none_yet : IsSum 0 0 = record {
      carries = 0;
      sum = refl;
      narrow = omega arith;
      positive = λ p. p;
    } in
    let c = complement (sum_words bin rounds 0 0) in
    let small : c < 2 ^ 16 = omega arith in
    let before = sum_words-IsSum bin rounds 0 0 0 b none_yet in
    let after =
      sum_words-IsSum (store_ushort bin f c) rounds 0 0 0 (store-IsBytes bin f c small b)
        none_yet in
    let added = total-store bin f c rounds 0 small clear (omega arith) (omega arith) in
    whole_sum (0 + total bin rounds 0) (0 + total (store_ushort bin f c) rounds 0)
      (sum_words bin rounds 0 0) (sum_words (store_ushort bin f c) rounds 0 0) before after
      (omega (arith, added, before.narrow))

store_ushort-first : (bin : ℕ → ℕ) (f value : ℕ) → 0 < f → store_ushort bin f value 0 ≡ bin 0
unfolding store_ushort
store_ushort-first bin f value pos = ground arith

-- A receiver's check of the header: put the checksum that `ipv4_chksum` gives for a header of at least
-- six words, whose checksum field (word 5) is 0, into that field, in network order; then
-- `ipv4_chksum` of the header gives 0.
pub ipv4_chksum-store :
    (bin : ℕ → ℕ)
    → IsBytes bin
    → word bin 5 ≡ 0
    → 5 < bin 0 % 2 ^ 4 * 2
    → ipv4_chksum (store_ushort bin 5 (ipv4_chksum bin)) ≡ 0
unfolding ipv4_chksum
ipv4_chksum-store bin b clear long =
    let first : store_ushort bin 5 (ipv4_chksum bin) 0 ≡ bin 0 =
      store_ushort-first bin 5 (ipv4_chksum bin) (omega arith) in
    rw first (complement-store bin (bin 0 % 2 ^ 4 * 2 % 2 ^ 8) 5 b clear (omega arith))

-- The same for an ICMP message of 32 words, whose checksum field is word 1.
pub icmp_chksum-store :
    (bin : ℕ → ℕ)
    → IsBytes bin
    → word bin 1 ≡ 0
    → icmp_chksum (store_ushort bin 1 (icmp_chksum bin)) ≡ 0
unfolding icmp_chksum
icmp_chksum-store bin b clear = complement-store bin 32 1 b clear (omega arith)
