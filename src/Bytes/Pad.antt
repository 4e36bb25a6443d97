-- ===== src/Bytes/Pad.antt =====
-- `strncpy` of xv6/string.c: the string and the zeros behind it.
use oslab.Common.{
  ℕ, zero, suc, ◌+◌, ◌<◌, ◌≡◌, ◌≢◌, ◌∙◌, refl, sym, ap, arith, ◌==◌, Bool-cases, inl, inr, ==_ne,
}
use oslab.Bytes.{Memory, write, fill_zero, strncpy}
use oslab.Bytes.Move.{Frames, Filled}
use oslab.Bytes.Copy.{IsApart, IsApart-ne, IsApart-next, add_suc, Frames-write, first_byte}

fill_zero-Frames : (n s : ℕ) (m : Memory) → Frames m (fill_zero n s m) s n
unfolding fill_zero
fill_zero-Frames zero s m = λ a out. refl
fill_zero-Frames (suc n) s m =
    Frames-write m (fill_zero n (s + 1) (write m s 0)) s n 0
      (fill_zero-Frames n (s + 1) (write m s 0))

fill_zero-Filled : (n s : ℕ) (m : Memory) → Filled (fill_zero n s m) s 0 n
unfolding fill_zero
fill_zero-Filled zero s m i lt = absurd (omega arith)
fill_zero-Filled (suc n) s m zero lt =
    first_byte m (fill_zero n (s + 1) (write m s 0)) s n 0
      (fill_zero-Frames n (s + 1) (write m s 0))
fill_zero-Filled (suc n) s m (suc i) lt =
    ap (fill_zero n (s + 1) (write m s 0)) (sym (add_suc s i))
    ∙ fill_zero-Filled n (s + 1) (write m s 0) i (omega arith)

strncpy-Frames : (n s t : ℕ) (m : Memory) → Frames m (strncpy n s t m) s n
unfolding strncpy
strncpy-Frames zero s t m = λ a out. refl
strncpy-Frames (suc n) s t m = elim (Bool-cases (m t == 0)) [
  | inl end ↦ rw end (
      Frames-write m (fill_zero n (s + 1) (write m s (m t))) s n (m t)
        (fill_zero-Frames n (s + 1) (write m s (m t))))
  | inr more ↦ rw more (
      Frames-write m (strncpy n (s + 1) (t + 1) (write m s (m t))) s n (m t)
        (strncpy-Frames n (s + 1) (t + 1) (write m s (m t))))
]

-- The `n` bytes at `s` are the string that stood at `t`, up to its 0, and then zeros.
pub record IsPadded (m m' : Memory) (s t n : ℕ) : Type 0 where
  pub copies : (i : ℕ) → i < n → ((j : ℕ) → j < i → m (t + j) ≢ 0) → m' (s + i) ≡ m (t + i)
  pub pads : (i j : ℕ) → i < n → j < i → m (t + j) ≡ 0 → m' (s + i) ≡ 0

IsPadded-end :
    (m m' : Memory) (s t n : ℕ)
    → m t ≡ 0
    → m' (s + 0) ≡ m t
    → Filled m' (s + 1) 0 n
    → IsPadded m m' s t (suc n)
IsPadded-end m m' s t n z first h = record { copies = copies; pads = pads }
  where
    at : t + 0 ≡ t
    at = omega arith

    copies : (i : ℕ) → i < suc n → ((j : ℕ) → j < i → m (t + j) ≢ 0) → m' (s + i) ≡ m (t + i)
    copies zero lt pre = first ∙ ap m (sym at)
    copies (suc i) lt pre = absurd (pre 0 (omega arith) (ap m at ∙ z))

    pads : (i j : ℕ) → i < suc n → j < i → m (t + j) ≡ 0 → m' (s + i) ≡ 0
    pads zero j lt j_lt e = absurd (omega arith)
    pads (suc i) j lt j_lt e = ap m' (sym (add_suc s i)) ∙ h i (omega arith)

IsPadded-next :
    (m m' : Memory) (s t n : ℕ)
    → IsApart s t (suc n)
    → m t ≢ 0
    → m' (s + 0) ≡ m t
    → IsPadded (write m s (m t)) m' (s + 1) (t + 1) n
    → IsPadded m m' s t (suc n)
IsPadded-next m m' s t n apart more first h = record { copies = copies; pads = pads }
  where
    at : t + 0 ≡ t
    at = omega arith

    kept : (i : ℕ) → i < n → write m s (m t) (t + 1 + i) ≡ m (t + suc i)
    kept i lt =
        rw (add_suc t i, ==_ne s (t + suc i) (IsApart-ne s t (suc n) (suc i) apart (omega arith)))
          refl

    copies : (i : ℕ) → i < suc n → ((j : ℕ) → j < i → m (t + j) ≢ 0) → m' (s + i) ≡ m (t + i)
    copies zero lt pre = first ∙ ap m (sym at)
    copies (suc i) lt pre =
        ap m' (sym (add_suc s i))
        ∙ h.copies i (omega arith)
            (λ j j_lt z. pre (suc j) (omega arith) (sym (kept j (omega arith)) ∙ z))
        ∙ kept i (omega arith)

    pads : (i j : ℕ) → i < suc n → j < i → m (t + j) ≡ 0 → m' (s + i) ≡ 0
    pads zero j lt j_lt e = absurd (omega arith)
    pads (suc i) zero lt j_lt e = absurd (more (ap m (sym at) ∙ e))
    pads (suc i) (suc j) lt j_lt e =
        ap m' (sym (add_suc s i))
        ∙ h.pads i j (omega arith) (omega arith) (kept j (omega arith) ∙ e)

strncpy_rounds : (n s t : ℕ) (m : Memory) → IsApart s t n → IsPadded m (strncpy n s t m) s t n
unfolding strncpy
strncpy_rounds zero s t m apart = record {
  copies = λ i lt. absurd (omega arith);
  pads = λ i j lt. absurd (omega arith);
}
strncpy_rounds (suc n) s t m apart = elim (Bool-cases (m t == 0)) [
  | inl end ↦ rw end (
      IsPadded-end m (fill_zero n (s + 1) (write m s (m t))) s t n (ground arith)
        (first_byte m (fill_zero n (s + 1) (write m s (m t))) s n (m t)
          (fill_zero-Frames n (s + 1) (write m s (m t))))
        (fill_zero-Filled n (s + 1) (write m s (m t))))
  | inr more ↦ rw more (
      IsPadded-next m (strncpy n (s + 1) (t + 1) (write m s (m t))) s t n apart
        (λ e. absurd (ground (arith, more, e)))
        (first_byte m (strncpy n (s + 1) (t + 1) (write m s (m t))) s n (m t)
          (strncpy-Frames n (s + 1) (t + 1) (write m s (m t))))
        (strncpy_rounds n (s + 1) (t + 1) (write m s (m t)) (IsApart-next s t n apart)))
]

-- `strncpy` into `n` bytes that do not overlap the `n` bytes at the source copies the source's string
-- up to its 0, fills the rest of the `n` bytes with zeros, and changes no other byte.
pub strncpy-IsPadded :
    (m : Memory) (s t n : ℕ)
    → IsApart s t n
    → IsPadded m (strncpy n s t m) s t n × Frames m (strncpy n s t m) s n
strncpy-IsPadded m s t n apart = (strncpy_rounds n s t m apart, strncpy-Frames n s t m)
