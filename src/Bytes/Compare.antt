-- ===== src/Bytes/Compare.antt =====
-- `memcmp` and `strncmp` of xv6/string.c: when they give 0.
use oslab.Common.{
  ℕ, zero, suc, ◌+◌, ◌<◌, ◌≡◌, ◌≢◌, ◌↔◌, ◌∙◌, refl, sym, ap, arith, Bool, true, false, ◌&&◌, not,
  ◌==◌, Bool-cases, inl, inr,
}
use oslab.Common.Int.{pos, sub_ℕ-eq-zero, sub_ℕ_same}
use oslab.Bytes.{Memory, memcmp, strncmp}

-- Equality of the two ranges.
abbrev pub SameBytes : Memory → ℕ → ℕ → ℕ → Type 0
SameBytes m p q n = (i : ℕ) → i < n → m (p + i) ≡ m (q + i)

-- Equality of the two ranges up to the first 0.
abbrev pub SameString : Memory → ℕ → ℕ → ℕ → Type 0
SameString m p q n = (i : ℕ) → i < n → ((j : ℕ) → j < i → m (p + j) ≢ 0) → m (p + i) ≡ m (q + i)

add_suc : (p i : ℕ) → p + 1 + i ≡ p + suc i
add_suc p i = omega arith

-- `memcmp` gives 0 exactly when the two ranges hold the same bytes.
pub memcmp-SameBytes : (m : Memory) (v1 v2 n : ℕ) → (memcmp m v1 v2 n ≡ pos 0) ↔ SameBytes m v1 v2 n
unfolding memcmp
memcmp-SameBytes m v1 v2 zero = (λ _ i lt. absurd (omega arith), λ _. refl)
memcmp-SameBytes m v1 v2 (suc n) =
    let ih = memcmp-SameBytes m (v1 + 1) (v2 + 1) n in
    let at1 : v1 + 0 ≡ v1 = omega arith in
    let at2 : v2 + 0 ≡ v2 = omega arith in
    elim (Bool-cases (m v1 == m v2)) [
      | inl same ↦
          let e : m v1 ≡ m v2 = ground arith in
          rw same (
            λ r. all_from_first e (ih.0 r),
            λ h. ih.1 (λ i lt. rw (add_suc v1 i, add_suc v2 i) (h (suc i) (omega arith))),
          )
      | inr differ ↦ rw differ (
        λ r. absurd (let e = sub_ℕ-eq-zero (m v1) (m v2) r in ground (arith, differ, e)),
        λ h. absurd (
            let e : m v1 ≡ m v2 = ap m (sym at1) ∙ h 0 (omega arith) ∙ ap m at2 in
            ground (arith, differ, e)),
      )
    ]
  where
    all_from_first : m v1 ≡ m v2 → SameBytes m (v1 + 1) (v2 + 1) n → SameBytes m v1 v2 (suc n)
    all_from_first e h zero lt =
        let at1 : v1 + 0 ≡ v1 = omega arith in
        let at2 : v2 + 0 ≡ v2 = omega arith in ap m at1 ∙ e ∙ ap m (sym at2)
    all_from_first e h (suc i) lt =
        ap m (sym (add_suc v1 i)) ∙ h i (omega arith) ∙ ap m (add_suc v2 i)

-- The character `p` is not the end of its string, and `q` is the same.
abbrev goes_on : ℕ → ℕ → Bool
goes_on p q = not (p == 0) && p == q

strncmp-first :
    (m : Memory) (p q n : ℕ)
    → goes_on (m p) (m q) ≡ true
    → SameString m (p + 1) (q + 1) n
    → SameString m p q (suc n)
strncmp-first m p q n go h zero lt pre =
    let at1 : p + 0 ≡ p = omega arith in
    let at2 : q + 0 ≡ q = omega arith in
    let e : m p ≡ m q = ground (arith, go) in ap m at1 ∙ e ∙ ap m (sym at2)
strncmp-first m p q n go h (suc i) lt pre =
    ap m (sym (add_suc p i))
    ∙ h i (omega arith) (λ j j_lt. rw (add_suc p j) (pre (suc j) (omega arith)))
    ∙ ap m (add_suc q i)

strncmp-rest :
    (m : Memory) (p q n : ℕ)
    → goes_on (m p) (m q) ≡ true
    → SameString m p q (suc n)
    → SameString m (p + 1) (q + 1) n
strncmp-rest m p q n go h i lt pre = rw (add_suc p i, add_suc q i) (h (suc i) (omega arith) before)
  where
    before : (j : ℕ) → j < suc i → m (p + j) ≢ 0
    before zero j_lt =
        let at1 : p + 0 ≡ p = omega arith in rw at1 (λ e. absurd (ground (arith, go, e)))
    before (suc j) j_lt = rw (sym (add_suc p j)) (pre j (omega arith))

strncmp-last :
    (m : Memory) (p q n : ℕ) → goes_on (m p) (m q) ≡ false → m p ≡ m q → SameString m p q (suc n)
strncmp-last m p q n stop e zero lt pre =
    let at1 : p + 0 ≡ p = omega arith in
    let at2 : q + 0 ≡ q = omega arith in ap m at1 ∙ e ∙ ap m (sym at2)
strncmp-last m p q n stop e (suc i) lt pre =
    let at1 : p + 0 ≡ p = omega arith in
    let more : m p ≢ 0 = rw at1 at (pre 0 (omega arith)) in absurd (ground (arith, stop, e, more))

-- `strncmp` gives 0 exactly when the two strings agree on each of the first `n` characters that is not
-- behind a 0.
pub strncmp-SameString : (m : Memory) (p q n : ℕ) → (strncmp m p q n ≡ pos 0) ↔ SameString m p q n
unfolding strncmp
strncmp-SameString m p q zero = (λ _ i lt pre. absurd (omega arith), λ _. refl)
strncmp-SameString m p q (suc n) =
    let ih = strncmp-SameString m (p + 1) (q + 1) n in
    elim (Bool-cases (goes_on (m p) (m q))) [
      | inl go ↦
          rw go (λ r. strncmp-first m p q n go (ih.0 r), λ h. ih.1 (strncmp-rest m p q n go h))
      | inr stop ↦
          let at1 : p + 0 ≡ p = omega arith in
          let at2 : q + 0 ≡ q = omega arith in
          rw stop (
            λ r. strncmp-last m p q n stop (sub_ℕ-eq-zero (m p) (m q) r),
            λ h.
                sub_ℕ_same (m p) (m q)
                  (ap m (sym at1) ∙ h 0 (omega arith) (λ j j_lt. absurd (omega arith)) ∙ ap m at2),
          )
    ]
