-- ===== src/Bio/Copies.antt =====
-- Any sequence of calls to xv6/bio.c: a block of a device has at most one buffer.
use oslab.Common.{
  ℕ, suc, ◌+◌, ◌≤◌, ◌≡◌, ◌≢◌, ◌∙◌, refl, ap, subst, false, arith, Option, none, some, List, [], ◌∷◌,
  ◌++◌, ◌==◌, if◌then◌else◌, Bool-cases, inl, inr, length,
}
use mathlib.Core.Option.{some-injective}
use oslab.Bio.{Buf, nbuf, is_block, held, recycled, unlink, change, in_front}
use oslab.Bio.Gets.{Uncached, Gets, is_block-eq}

-- How many buffers have the block.
unfoldable pub copies : ℕ → ℕ → List Buf → ℕ
copies dev blockno [] = 0
copies dev blockno (b ∷ bufs) = (if is_block dev blockno b then 1 else 0) + copies dev blockno bufs

-- No block has two buffers, but for device 0, which stands for no device; no buffer is lost.
pub record IsCache (bufs : List Buf) : Type 0 where
  pub once : (dev blockno : ℕ) → dev ≢ 0 → copies dev blockno bufs ≤ 1
  pub size : length bufs ≡ nbuf

Uncached-copies :
    (dev blockno : ℕ) (bufs : List Buf) → Uncached dev blockno bufs → copies dev blockno bufs ≡ 0
unfolding copies
Uncached-copies dev blockno [] h = refl
Uncached-copies dev blockno (b ∷ bufs) h =
    let other : is_block dev blockno b ≡ false = elim (Bool-cases (is_block dev blockno b)) [
      | inl is ↦ absurd (h.0 (is_block-eq dev blockno b is))
      | inr is_not ↦ is_not
    ] in
    rw other (omega (arith, Uncached-copies dev blockno bufs h.1))

-- One buffer of the list changes.
copies-middle :
    (d n : ℕ) (before after : List Buf) (b c : Buf)
    → copies d n (before ++ c ∷ after) + copies d n (b ∷ [])
      ≡ copies d n (before ++ b ∷ after) + copies d n (c ∷ [])
unfolding copies
copies-middle d n [] after b c = omega arith
copies-middle d n (x ∷ before) after b c = omega (arith, copies-middle d n before after b c)

length-middle :
    (before after : List Buf) (b c : Buf)
    → length (before ++ c ∷ after) ≡ length (before ++ b ∷ after)
length-middle [] after b c = refl
length-middle (x ∷ before) after b c = ap suc (length-middle before after b c)

pub Gets-IsCache :
    (dev blockno i : ℕ) (bufs bufs' : List Buf) (r : Option (ℕ × List Buf))
    → Gets dev blockno bufs r
    → r ≡ some (i, bufs')
    → IsCache bufs
    → IsCache bufs'
unfolding copies
Gets-IsCache dev blockno i bufs bufs' r (Gets.hit before after b none_before at_dev at_block) e h =
    let same : before ++ held b ∷ after ≡ bufs' =
      ap (λ (x : ℕ × List Buf). x.1) (some-injective _ _ e) in
    subst IsCache same (record {
      once = λ d n ne. omega (arith, h.once d n ne, copies-middle d n before after b (held b));
      size = length-middle before after b (held b) ∙ h.size;
    })
Gets-IsCache dev blockno i bufs bufs' r (Gets.miss before after b absent unused clean busy) e h =
    let new = recycled dev blockno b in
    let same : before ++ new ∷ after ≡ bufs' =
      ap (λ (x : ℕ × List Buf). x.1) (some-injective _ _ e) in
    subst IsCache same (record {
      once = λ d n ne. elim (Bool-cases (is_block d n new)) [
        | inr other ↦
            let gone : copies d n (new ∷ []) ≡ 0 = rw other refl in
            omega (arith, h.once d n ne, copies-middle d n before after b new, gone)
        | inl mine ↦
            let at_dev : dev ≡ d = ground (arith, mine) in
            let at_block : blockno ≡ n = ground (arith, mine) in
            let none_yet : copies d n bufs ≡ 0 =
              subst (λ k. copies k n bufs ≡ 0) at_dev
                (subst (λ k. copies dev k bufs ≡ 0) at_block
                  (Uncached-copies dev blockno bufs absent)) in
            let one : copies d n (new ∷ []) ≡ 1 = rw mine refl in
            omega (arith, copies-middle d n before after b new, one, none_yet)
      ];
      size = length-middle before after b new ∙ h.size;
    })
Gets-IsCache dev blockno i bufs bufs' r (Gets.no_buffers _ _ _) e h = cc

-- A change that leaves each buffer its block.
abbrev pub KeepsBlock : (Buf → Buf) → Type 0
KeepsBlock f = (b : Buf) → ((f b).dev ≡ b.dev) × ((f b).blockno ≡ b.blockno)

change-copies :
    (d n i : ℕ) (f : Buf → Buf) (bufs : List Buf)
    → KeepsBlock f
    → copies d n (change i f bufs) ≡ copies d n bufs
unfolding copies change
change-copies d n i f [] keeps = refl
change-copies d n i f (b ∷ bufs) keeps = elim (Bool-cases (b.index == i)) [
  | inl here ↦ rw (here, (keeps b).0, (keeps b).1) refl
  | inr other ↦ rw (other, change-copies d n i f bufs keeps) refl
]

length-change : (i : ℕ) (f : Buf → Buf) (bufs : List Buf) → length (change i f bufs) ≡ length bufs
unfolding change
length-change i f [] = refl
length-change i f (b ∷ bufs) = elim (Bool-cases (b.index == i)) [
  | inl here ↦ rw here refl
  | inr other ↦ rw other (ap suc (length-change i f bufs))
]

pub change-IsCache :
    (i : ℕ) (f : Buf → Buf) (bufs : List Buf)
    → KeepsBlock f
    → IsCache bufs
    → IsCache (change i f bufs)
change-IsCache i f bufs keeps h = record {
  once = λ d n ne. rw (change-copies d n i f bufs keeps) (h.once d n ne);
  size = length-change i f bufs ∙ h.size;
}

-- A buffer that is taken out of the list.
abbrev pub Unlinks : List Buf → Option (Buf × List Buf) → Type 0
Unlinks bufs none = Unit
Unlinks bufs (some (b, rest)) =
    ((d n : ℕ) → copies d n (b ∷ []) + copies d n rest ≡ copies d n bufs)
    × (suc (length rest) ≡ length bufs)

Unlinks-in_front :
    (b : Buf) (bufs : List Buf) (r : Option (Buf × List Buf))
    → Unlinks bufs r
    → Unlinks (b ∷ bufs) (in_front b r)
unfolding copies
Unlinks-in_front b bufs none h = tt
Unlinks-in_front b bufs (some (x, rest)) h = (λ d n. omega (arith, h.0 d n), ap suc h.1)

pub unlink-Unlinks : (i : ℕ) (bufs : List Buf) → Unlinks bufs (unlink i bufs)
unfolding unlink copies
unlink-Unlinks i [] = tt
unlink-Unlinks i (b ∷ bufs) = elim (Bool-cases (b.index == i)) [
  | inl here ↦ rw here (λ d n. omega arith, refl)
  | inr other ↦ rw other (Unlinks-in_front b bufs (unlink i bufs) (unlink-Unlinks i bufs))
]
