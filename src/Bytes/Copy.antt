-- ===== src/Bytes/Copy.antt =====
-- `safestrcpy` and `strncpy` of xv6/string.c: the string that is left, and the bytes that are not
-- touched.
use oslab.Common.{
  ℕ, zero, suc, ◌+◌, ◌≤◌, ◌<◌, ◌≡◌, ◌≢◌, ◌⊎◌, ◌∙◌, refl, sym, ap, arith, ◌==◌, Bool-cases, inl, inr,
  ==_refl, ==_ne,
}
use oslab.Bytes.{Memory, write, safe_loop, safestrcpy}
use oslab.Bytes.Move.{Frames}

-- The ranges of `n` bytes do not overlap.
abbrev pub IsApart : ℕ → ℕ → ℕ → Type 0
IsApart s t n = (t + n ≤ s) ⊎ (s + n ≤ t)

pub IsApart-ne : (s t n i : ℕ) → IsApart s t n → i < n → s ≢ t + i
IsApart-ne s t n i apart lt e = elim apart [
  | inl le ↦ absurd (omega arith)
  | inr le ↦ absurd (omega arith)
]

pub IsApart-next : (s t n : ℕ) → IsApart s t (suc n) → IsApart (s + 1) (t + 1) n
IsApart-next s t n apart = elim apart [ inl le ↦ inl (omega arith) | inr le ↦ inr (omega arith) ]

pub add_suc : (p i : ℕ) → p + 1 + i ≡ p + suc i
add_suc p i = omega arith

-- The range grows by the byte in front of it.
pub Frames-write :
    (m m' : Memory) (s n x : ℕ) → Frames (write m s x) m' (s + 1) n → Frames m m' s (suc n)
Frames-write m m' s n x h a out =
    let out' : (a < s + 1) ⊎ (s + 1 + n ≤ a) = elim out [
      | inl below ↦ inl (omega arith)
      | inr above ↦ inr (omega arith)
    ] in
    let other : s ≢ a =
      λ e. elim out [ inl below ↦ absurd (omega arith) | inr above ↦ absurd (omega arith) ] in
    h a out' ∙ rw (==_ne s a other) refl

-- What stands at `s` afterwards, when the rest of the range is behind it.
pub first_byte : (m m' : Memory) (s n x : ℕ) → Frames (write m s x) m' (s + 1) n → m' (s + 0) ≡ x
first_byte m m' s n x h =
    let at : s + 0 ≡ s = omega arith in h (s + 0) (inl (omega arith)) ∙ rw (at, ==_refl s) refl

safe_loop-Frames : (n s t : ℕ) (m : Memory) → Frames m (safe_loop n s t m) s (suc n)
unfolding safe_loop
safe_loop-Frames zero s t m = Frames-write m (write m s 0) s 0 0 (λ a out. refl)
safe_loop-Frames (suc n) s t m = elim (Bool-cases (m t == 0)) [
  | inl end ↦ rw end (
      Frames-write m (write (write m s (m t)) (s + 1) 0) s (suc n) (m t) (λ a out.
        let other : s + 1 ≢ a =
          λ e. elim out [ inl below ↦ absurd (omega arith) | inr above ↦ absurd (omega arith) ] in
        rw (==_ne (s + 1) a other) refl))
  | inr more ↦ rw more (
      Frames-write m (safe_loop n (s + 1) (t + 1) (write m s (m t))) s (suc n) (m t)
        (safe_loop-Frames n (s + 1) (t + 1) (write m s (m t))))
]

-- At `s` stands the string that stood at `t`, cut to at most `n` characters, with a 0 behind it.
pub record IsCut (m m' : Memory) (s t n : ℕ) : Type 0 where
  pub size : ℕ
  pub fits : size ≤ n
  pub ends : m' (s + size) ≡ 0
  pub copies : (i : ℕ) → i < size → (m' (s + i) ≡ m (t + i)) × (m (t + i) ≢ 0)
  pub whole : (size ≡ n) ⊎ (m (t + size) ≡ 0)

-- The byte of the source at `i + 1` is not the one that the first write has changed.
source_kept :
    (m : Memory) (s t n i : ℕ)
    → IsApart s t (suc (suc n))
    → i ≤ n
    → write m s (m t) (t + 1 + i) ≡ m (t + suc i)
source_kept m s t n i apart le =
    rw (add_suc t i, ==_ne s (t + suc i) (IsApart-ne s t (suc (suc n)) (suc i) apart (omega arith)))
      refl

IsCut-longer :
    (m m' : Memory) (s t n : ℕ)
    → IsApart s t (suc (suc n))
    → m t ≢ 0
    → m' (s + 0) ≡ m t
    → IsCut (write m s (m t)) m' (s + 1) (t + 1) n
    → IsCut m m' s t (suc n)
IsCut-longer m m' s t n apart more first h = record {
  size = suc h.size;
  fits = omega (arith, h.fits);
  ends = ap m' (sym (add_suc s h.size)) ∙ h.ends;
  copies = copies;
  whole = elim h.whole [
    | inl e ↦ inl (ap suc e)
    | inr z ↦ inr (sym (source_kept m s t n h.size apart h.fits) ∙ z)
  ];
}
  where
    copies : (i : ℕ) → i < suc h.size → (m' (s + i) ≡ m (t + i)) × (m (t + i) ≢ 0)
    copies zero lt =
        let at' : t + 0 ≡ t = omega arith in
        (first ∙ ap m (sym at'), λ e. more (ap m (sym at') ∙ e))
    copies (suc i) lt =
        let (e, nz) = h.copies i (omega arith) in
        let kept = source_kept m s t n i apart (omega (arith, h.fits)) in
        (ap m' (sym (add_suc s i)) ∙ e ∙ kept, λ z. nz (kept ∙ z))

safe_loop-IsCut : (n s t : ℕ) (m : Memory) → IsApart s t (suc n) → IsCut m (safe_loop n s t m) s t n
unfolding safe_loop
safe_loop-IsCut zero s t m apart =
    let at : s + 0 ≡ s = omega arith in
    record {
      size = 0;
      fits = omega arith;
      ends = rw (at, ==_refl s) refl;
      copies = λ i lt. absurd (omega arith);
      whole = inl refl;
    }
safe_loop-IsCut (suc n) s t m apart = elim (Bool-cases (m t == 0)) [
  | inl end ↦
      let at : s + 0 ≡ s = omega arith in
      let at' : t + 0 ≡ t = omega arith in
      let z : m t ≡ 0 = ground arith in
      rw end (record {
        size = 0;
        fits = omega arith;
        ends = rw (at, ==_refl s, ==_ne (s + 1) s (λ e. absurd (omega arith))) z;
        copies = λ i lt. absurd (omega arith);
        whole = inr (ap m at' ∙ z);
      })
  | inr more ↦ rw more (
      IsCut-longer m (safe_loop n (s + 1) (t + 1) (write m s (m t))) s t n apart
        (λ e. absurd (ground (arith, more, e)))
        (first_byte m (safe_loop n (s + 1) (t + 1) (write m s (m t))) s (suc n) (m t)
          (safe_loop-Frames n (s + 1) (t + 1) (write m s (m t))))
        (safe_loop-IsCut n (s + 1) (t + 1) (write m s (m t)) (IsApart-next s t (suc n) apart)))
]

-- `safestrcpy` into a range of `n + 1` bytes that does not overlap the `n + 1` bytes at the source
-- leaves the source's string there, cut to at most `n` characters and ended by a 0, and changes no byte
-- outside the range.
pub safestrcpy-IsCut :
    (m : Memory) (s t n : ℕ)
    → IsApart s t (suc n)
    → IsCut m (safestrcpy m s t (suc n)) s t n × Frames m (safestrcpy m s t (suc n)) s (suc n)
unfolding safestrcpy
safestrcpy-IsCut m s t n apart = (safe_loop-IsCut n s t m apart, safe_loop-Frames n s t m)
