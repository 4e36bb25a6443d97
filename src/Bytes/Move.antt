-- ===== src/Bytes/Move.antt =====
-- `memmove` and `memset` of xv6/string.c: every byte of memory afterwards.
use oslab.Common.{
  ℕ, zero, suc, ◌+◌, ◌-◌, ◌*◌, ◌/◌, ◌%◌, ◌^◌, ◌≤◌, ◌<◌, ◌≡◌, ◌≢◌, ◌⊎◌, ◌∙◌, refl, sym, ap, subst,
  arith, ◌&&◌, ltb, ◌==◌, Bool-cases, inl, inr, ==_refl, ==_ne, ℕ_discrete, dec_lt,
}
use oslab.Bytes.{
  Memory, write, stosb, byte_of, write_long, stosl, memset, move_down, move_up, memmove,
}

-- Outside the `n` bytes from `d` on nothing has changed.
abbrev pub Frames : Memory → Memory → ℕ → ℕ → Type 0
Frames m m' d n = (a : ℕ) → (a < d) ⊎ (d + n ≤ a) → m' a ≡ m a

-- The `n` bytes from `d` on are those that stood at `s`.
abbrev pub Copied : Memory → Memory → ℕ → ℕ → ℕ → Type 0
Copied m m' d s n = (i : ℕ) → i < n → m' (d + i) ≡ m (s + i)

move_up-Frames : (n d s : ℕ) (m : Memory) → Frames m (move_up n d s m) d n
unfolding move_up
move_up-Frames zero d s m a out = refl
move_up-Frames (suc n) d s m a out =
    move_up-Frames n (d + 1) (s + 1) (write m d (m s)) a
      (elim out [ inl below ↦ inl (omega arith) | inr above ↦ inr (omega arith) ])
    ∙ rw
        (==_ne d a
          (λ e. elim out [ inl below ↦ absurd (omega arith) | inr above ↦ absurd (omega arith) ]))
        refl

move_up-Copied : (n d s : ℕ) (m : Memory) → (d ≤ s) ⊎ (s + n ≤ d) → Copied m (move_up n d s m) d s n
unfolding move_up
move_up-Copied zero d s m apart i lt = absurd (omega arith)
move_up-Copied (suc n) d s m apart zero lt =
    let m1 = write m d (m s) in
    let kept = move_up-Frames n (d + 1) (s + 1) m1 (d + 0) (inl (omega arith)) in
    let there : d ≡ d + 0 = omega arith in
    let from : s ≡ s + 0 = omega arith in kept ∙ rw (sym there, ==_refl d) (ap m from)
move_up-Copied (suc n) d s m apart (suc i) lt =
    let m1 = write m d (m s) in
    let apart' : (d + 1 ≤ s + 1) ⊎ (s + 1 + n ≤ d + 1) = elim apart [
      | inl le ↦ inl (omega arith)
      | inr le ↦ inr (omega arith)
    ] in
    let kept = move_up-Copied n (d + 1) (s + 1) m1 apart' i (omega arith) in
    let here : d + 1 + i ≡ d + suc i = omega arith in
    let from : s + 1 + i ≡ s + suc i = omega arith in
    let other : d ≢ s + suc i =
      λ e. elim apart [ inl le ↦ absurd (omega arith) | inr le ↦ absurd (omega arith) ] in
    let same : m1 (s + suc i) ≡ m (s + suc i) = rw (==_ne d (s + suc i) other) refl in
    subst (λ a. move_up n (d + 1) (s + 1) m1 a ≡ m (s + suc i)) here (kept ∙ ap m1 from ∙ same)

-- One round of the loop that copies from the end.
move_down-round :
    (n d s : ℕ) (m : Memory)
    → move_down (suc n) (d + suc n) (s + suc n) m
      ≡ move_down n (d + n) (s + n) (write m (d + n) (m (s + n)))
unfolding move_down
move_down-round n d s m =
    let at_d : d + suc n - 1 ≡ d + n = omega arith in
    let at_s : s + suc n - 1 ≡ s + n = omega arith in rw (at_d, at_s) refl

move_down-zero : (d s : ℕ) (m : Memory) → move_down zero d s m ≡ m
unfolding move_down
move_down-zero d s m = refl

move_down-Frames : (n d s : ℕ) (m : Memory) → Frames m (move_down n (d + n) (s + n) m) d n
move_down-Frames zero d s m a out = rw (move_down-zero (d + 0) (s + 0) m) refl
move_down-Frames (suc n) d s m a out =
    let m1 = write m (d + n) (m (s + n)) in
    let out' : (a < d) ⊎ (d + n ≤ a) = elim out [
      | inl below ↦ inl below
      | inr above ↦ inr (omega arith)
    ] in
    let other : d + n ≢ a =
      λ e. elim out [ inl below ↦ absurd (omega arith) | inr above ↦ absurd (omega arith) ] in
    rw (move_down-round n d s m)
      (move_down-Frames n d s m1 a out' ∙ rw (==_ne (d + n) a other) refl)

move_down-Copied : (n d s : ℕ) (m : Memory) → s < d → Copied m (move_down n (d + n) (s + n) m) d s n
move_down-Copied zero d s m lt i i_lt = absurd (omega arith)
move_down-Copied (suc n) d s m lt i i_lt =
    let m1 = write m (d + n) (m (s + n)) in
    rw (move_down-round n d s m) (elim (ℕ_discrete i n) [
      | yes e ↦
          let kept = move_down-Frames n d s m1 (d + i) (inr (omega arith)) in
          kept ∙ rw (e, ==_refl (d + n)) refl
      | no ne ↦
          let kept = move_down-Copied n d s m1 lt i (omega arith) in
          kept ∙ rw (==_ne (d + n) (s + i) (λ e. absurd (omega arith))) refl
    ])

-- `memmove` copies the range however the two ranges overlap: each byte of the target is the byte that
-- stood at its place in the source before the call, and no other byte changes.
pub memmove-Copied :
    (m : Memory) (dst src n : ℕ)
    → Copied m (memmove m dst src n) dst src n × Frames m (memmove m dst src n) dst n
unfolding memmove
memmove-Copied m dst src n = elim (Bool-cases (ltb src dst && ltb dst (src + n))) [
  | inl overlap ↦
      let lt : src < dst = ground (arith, overlap) in
      rw overlap (move_down-Copied n dst src m lt, move_down-Frames n dst src m)
  | inr no_overlap ↦ rw no_overlap (
    move_up-Copied n dst src m (elim (dec_lt src dst) [
      | yes lt ↦ inr (ground (arith, no_overlap))
      | no le ↦ inl (omega arith)
    ]),
    move_up-Frames n dst src m,
  )
]

-- The `n` bytes from `d` on are `c`.
abbrev pub Filled : Memory → ℕ → ℕ → ℕ → Type 0
Filled m d c n = (i : ℕ) → i < n → m (d + i) ≡ c

stosb-Frames : (n d c : ℕ) (m : Memory) → Frames m (stosb m d c n) d n
unfolding stosb
stosb-Frames zero d c m a out = refl
stosb-Frames (suc n) d c m a out =
    let out' : (a < d + 1) ⊎ (d + 1 + n ≤ a) = elim out [
      | inl below ↦ inl (omega arith)
      | inr above ↦ inr (omega arith)
    ] in
    let other : d ≢ a =
      λ e. elim out [ inl below ↦ absurd (omega arith) | inr above ↦ absurd (omega arith) ] in
    stosb-Frames n (d + 1) c (write m d (c % 2 ^ 8)) a out' ∙ rw (==_ne d a other) refl

stosb-Filled : (n d c : ℕ) (m : Memory) → Filled (stosb m d c n) d (c % 2 ^ 8) n
unfolding stosb
stosb-Filled zero d c m i lt = absurd (omega arith)
stosb-Filled (suc n) d c m zero lt =
    let there : d + 0 ≡ d = omega arith in
    stosb-Frames n (d + 1) c (write m d (c % 2 ^ 8)) (d + 0) (inl (omega arith))
    ∙ rw (there, ==_refl d) refl
stosb-Filled (suc n) d c m (suc i) lt =
    let here : d + 1 + i ≡ d + suc i = omega arith in
    subst (λ a. stosb (write m d (c % 2 ^ 8)) (d + 1) c n a ≡ c % 2 ^ 8) here
      (stosb-Filled n (d + 1) c (write m d (c % 2 ^ 8)) i (omega arith))

-- The four bytes of a word with the same byte in each place.
byte_of_same : (b i : ℕ) → b < 256 → i < 4 → byte_of (b * 2 ^ 24 + b * 2 ^ 16 + b * 2 ^ 8 + b) i ≡ b
byte_of_same b zero lt i_lt = omega arith
byte_of_same b (suc zero) lt i_lt = omega arith
byte_of_same b (suc (suc zero)) lt i_lt = omega arith
byte_of_same b (suc (suc (suc zero))) lt i_lt = omega arith
byte_of_same b (suc (suc (suc (suc i)))) lt i_lt = absurd (omega arith)

-- A word whose four bytes are all `b` is written.
IsRepeated : ℕ → ℕ → Type 0
IsRepeated w b = (i : ℕ) → i < 4 → byte_of w i ≡ b

write_long-Frames : (m : Memory) (d w : ℕ) → Frames m (write_long m d w) d 4
write_long-Frames m d w a (inl below) = ground arith
write_long-Frames m d w a (inr above) = ground arith

write_long-Filled : (m : Memory) (d w b : ℕ) → IsRepeated w b → Filled (write_long m d w) d b 4
unfolding IsRepeated
write_long-Filled m d w b h i lt =
    ground (arith, h 0 (omega arith), h 1 (omega arith), h 2 (omega arith), h 3 (omega arith))

stosl-Frames : (n d w : ℕ) (m : Memory) → Frames m (stosl m d w n) d (4 * n)
unfolding stosl
stosl-Frames zero d w m a out = refl
stosl-Frames (suc n) d w m a out =
    let out' : (a < d + 4) ⊎ (d + 4 + 4 * n ≤ a) = elim out [
      | inl below ↦ inl (omega arith)
      | inr above ↦ inr (omega arith)
    ] in
    let here : (a < d) ⊎ (d + 4 ≤ a) = elim out [
      | inl below ↦ inl below
      | inr above ↦ inr (omega arith)
    ] in
    stosl-Frames n (d + 4) w (write_long m d w) a out' ∙ write_long-Frames m d w a here

stosl-Filled : (n d w b : ℕ) (m : Memory) → IsRepeated w b → Filled (stosl m d w n) d b (4 * n)
unfolding stosl
stosl-Filled zero d w b m h i lt = absurd (omega arith)
stosl-Filled (suc n) d w b m h i lt = elim (dec_lt i 4) [
  | yes first ↦
      stosl-Frames n (d + 4) w (write_long m d w) (d + i) (inl (omega arith))
      ∙ write_long-Filled m d w b h i first
  | no later ↦
      let here : d + 4 + (i - 4) ≡ d + i = omega arith in
      subst (λ a. stosl (write_long m d w) (d + 4) w n a ≡ b) here
        (stosl-Filled n (d + 4) w b (write_long m d w) h (i - 4) (omega arith))
]

-- `memset` sets each byte of the range to the low byte of `c` and changes no other byte, whether it
-- stores words or bytes.
pub memset-Filled :
    (m : Memory) (dst c n : ℕ)
    → Filled (memset m dst c n) dst (c % 2 ^ 8) n × Frames m (memset m dst c n) dst n
unfolding memset IsRepeated
memset-Filled m dst c n = elim (Bool-cases (dst % 4 == 0 && n % 4 == 0)) [
  | inl words ↦
      let b = c % 2 ^ 8 in
      let w = b * 2 ^ 24 + b * 2 ^ 16 + b * 2 ^ 8 + b in
      let whole : 4 * (n / 4) ≡ n = ground (arith, words) in
      rw words (
        subst (Filled (stosl m dst w (n / 4)) dst b) whole
            (stosl-Filled (n / 4) dst w b m (λ i lt. byte_of_same b i (omega arith) lt)),
        subst (Frames m (stosl m dst w (n / 4)) dst) whole (stosl-Frames (n / 4) dst w m),
      )
  | inr bytes ↦ rw bytes (stosb-Filled n dst c m, stosb-Frames n dst c m)
]
