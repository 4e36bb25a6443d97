-- ===== src/Bio/Gets.antt =====
-- `bget` of xv6/bio.c: the buffer that it gives.
use oslab.Common.{
  ℕ, ◌+◌, ◌≡◌, arith, ==_refl, All-mono, true, false, Option, none, some, List, [], ◌∷◌, ◌++◌,
  if◌then◌else◌, All, Bool-cases, inl, inr,
}
use oslab.Bio.{Buf, is_block, is_free, held, recycled, behind, find_cached, recycle, bget}

-- No buffer of the list has the block; none can be recycled.
abbrev NoBlock : ℕ → ℕ → List Buf → Type 0
NoBlock dev blockno bufs = All (λ b. is_block dev blockno b ≡ false) bufs

abbrev NoFree : List Buf → Type 0
NoFree bufs = All (λ b. is_free b ≡ false) bufs

-- The first loop of `bget`.
data Finds (dev blockno : ℕ) : List Buf → Option (ℕ × List Buf) → Type 0 where
  cached :
      (before after : List Buf) (b : Buf)
      → NoBlock dev blockno before
      → is_block dev blockno b ≡ true
      → Finds dev blockno (before ++ b ∷ after) (some (b.index, before ++ held b ∷ after))
  missing : (bufs : List Buf) → NoBlock dev blockno bufs → Finds dev blockno bufs none

-- The second loop of `bget`.
data Recycles (dev blockno : ℕ) : List Buf → Option (ℕ × List Buf) → Type 0 where
  reuses :
      (before after : List Buf) (b : Buf)
      → is_free b ≡ true
      → NoFree after
      → Recycles dev blockno
          (before ++ b ∷ after)
          (some (b.index, before ++ recycled dev blockno b ∷ after))
  all_busy : (bufs : List Buf) → NoFree bufs → Recycles dev blockno bufs none

Finds-behind :
    (dev blockno : ℕ) (b : Buf) (bufs : List Buf) (r : Option (ℕ × List Buf))
    → is_block dev blockno b ≡ false
    → Finds dev blockno bufs r
    → Finds dev blockno (b ∷ bufs) (behind b r)
Finds-behind dev blockno b bufs r no' (cached before after x none_before is) =
    cached (b ∷ before) after x (no', none_before) is
Finds-behind dev blockno b bufs r no' (missing _ none_here) = missing (b ∷ bufs) (no', none_here)

find_cached-Finds :
    (dev blockno : ℕ) (bufs : List Buf) → Finds dev blockno bufs (find_cached dev blockno bufs)
unfolding find_cached
find_cached-Finds dev blockno [] = missing [] tt
find_cached-Finds dev blockno (b ∷ bufs) = elim (Bool-cases (is_block dev blockno b)) [
  | inl here ↦ rw here (cached [] bufs b tt here)
  | inr not_here ↦ rw not_here (
      Finds-behind dev blockno b bufs (find_cached dev blockno bufs) not_here
        (find_cached-Finds dev blockno bufs))
]

Recycles-behind :
    (dev blockno : ℕ) (b : Buf) (bufs : List Buf) (r : Option (ℕ × List Buf))
    → Recycles dev blockno bufs r
    → Recycles dev blockno (b ∷ bufs) (elim r [
      | some (i, rest) ↦ some (i, b ∷ rest)
      | none ↦ if is_free b then some (b.index, recycled dev blockno b ∷ bufs) else none
    ])
Recycles-behind dev blockno b bufs r (reuses before after x is none_after) =
    reuses (b ∷ before) after x is none_after
Recycles-behind dev blockno b bufs r (all_busy _ busy) = elim (Bool-cases (is_free b)) [
  | inl here ↦ rw here (reuses [] bufs b here busy)
  | inr not_here ↦ rw not_here (all_busy (b ∷ bufs) (not_here, busy))
]

recycle-Recycles :
    (dev blockno : ℕ) (bufs : List Buf) → Recycles dev blockno bufs (recycle dev blockno bufs)
unfolding recycle
recycle-Recycles dev blockno [] = all_busy [] tt
recycle-Recycles dev blockno (b ∷ bufs) =
    Recycles-behind dev blockno b bufs (recycle dev blockno bufs)
      (recycle-Recycles dev blockno bufs)

-- No buffer of the list has the block; each is in use or dirty.
abbrev pub Uncached : ℕ → ℕ → List Buf → Type 0
Uncached dev blockno bufs = All (λ b. ¬ ((b.dev ≡ dev) × (b.blockno ≡ blockno))) bufs

abbrev pub Busy : List Buf → Type 0
Busy bufs = All (λ b. ¬ ((b.refcnt ≡ 0) × (b.dirty ≡ false))) bufs

-- The ends of `bget`.
pub data Gets (dev blockno : ℕ) : List Buf → Option (ℕ × List Buf) → Type 0 where
  hit :
      (before after : List Buf) (b : Buf)
      → Uncached dev blockno before
      → b.dev ≡ dev
      → b.blockno ≡ blockno
      → Gets dev blockno
          (before ++ b ∷ after)
          (some (b.index, before ++ record b { refcnt = b.refcnt + 1 } ∷ after))
  miss :
      (before after : List Buf) (b : Buf)
      → Uncached dev blockno (before ++ b ∷ after)
      → b.refcnt ≡ 0
      → b.dirty ≡ false
      → Busy after
      → Gets dev blockno (before ++ b ∷ after) (
          some (
            b.index,
            before
                ++ record b {
                  dev = dev;
                  blockno = blockno;
                  valid = false;
                  dirty = false;
                  refcnt = 1;
                }
                  ∷ after,
          ))
  no_buffers :
      (bufs : List Buf) → Uncached dev blockno bufs → Busy bufs → Gets dev blockno bufs none

pub is_block-eq :
    (dev blockno : ℕ) (b : Buf)
    → is_block dev blockno b ≡ true
    → (b.dev ≡ dev) × (b.blockno ≡ blockno)
is_block-eq dev blockno b e = (ground (arith, e), ground (arith, e))

NoBlock-Uncached :
    (dev blockno : ℕ) (bufs : List Buf) → NoBlock dev blockno bufs → Uncached dev blockno bufs
NoBlock-Uncached dev blockno bufs =
    All-mono _ _ bufs (λ b none_here both. ground (arith, none_here, both, ==_refl dev))

NoFree-Busy : (bufs : List Buf) → NoFree bufs → Busy bufs
NoFree-Busy bufs = All-mono _ _ bufs (λ b used both. cc (rw (both.0, both.1) at used))

Recycles-Gets :
    (dev blockno : ℕ) (bufs : List Buf) (r : Option (ℕ × List Buf))
    → NoBlock dev blockno bufs
    → Recycles dev blockno bufs r
    → Gets dev blockno bufs r
Recycles-Gets dev blockno bufs r none_here (reuses before after b is busy) =
    miss before after b (NoBlock-Uncached dev blockno (before ++ b ∷ after) none_here)
      (ground (arith, is)) (ground (arith, is)) (NoFree-Busy after busy)
Recycles-Gets dev blockno bufs r none_here (all_busy _ busy) =
    no_buffers bufs (NoBlock-Uncached dev blockno bufs none_here) (NoFree-Busy bufs busy)

Finds-Gets :
    (dev blockno : ℕ) (bufs : List Buf) (f r : Option (ℕ × List Buf))
    → Finds dev blockno bufs f
    → Recycles dev blockno bufs r
    → Gets dev blockno bufs (elim f [ some x ↦ some x | none ↦ r ])
Finds-Gets dev blockno bufs f r (cached before after b none_before is) re =
    let (same_dev, same_block) = is_block-eq dev blockno b is in
    hit before after b (NoBlock-Uncached dev blockno before none_before) same_dev same_block
Finds-Gets dev blockno bufs f r (missing _ none_here) re =
    Recycles-Gets dev blockno bufs r none_here re

-- `bget` gives the first buffer that has the block and counts one more user of it. If no buffer has the
-- block it takes the last buffer of the list, the least recently released, that has no user and is
-- not dirty, and leaves it to the block, with one user, not valid and not dirty; it panics only if there
-- is none. No other buffer changes.
pub bget-Gets : (dev blockno : ℕ) (bufs : List Buf) → Gets dev blockno bufs (bget dev blockno bufs)
unfolding bget
bget-Gets dev blockno bufs =
    Finds-Gets dev blockno bufs (find_cached dev blockno bufs) (recycle dev blockno bufs)
      (find_cached-Finds dev blockno bufs) (recycle-Recycles dev blockno bufs)
