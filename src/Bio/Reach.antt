-- ===== src/Bio/Reach.antt =====
-- The states of the cache of xv6/bio.c that calls reach from `binit`.
use oslab.Common.{
  ℕ, zero, suc, ◌≡◌, ◌≢◌, ◌∙◌, refl, subst, arith, Bool, false, Option, none, some, List, [], ◌∷◌,
  ◌==◌, if◌then◌else◌, Bool-cases, inl, inr,
}
use mathlib.Core.Option.{some-injective}
use oslab.Bio.{Buf, nbuf, binit, link_from, released, bget, unlink, change, brelse}
use oslab.Bio.Gets.{bget-Gets}
use oslab.Bio.Copies.{copies, IsCache, Unlinks, Gets-IsCache, change-IsCache, unlink-Unlinks}

Unlinks-IsCache :
    (i : ℕ) (bufs bufs' : List Buf) (r : Option (Buf × List Buf))
    → Unlinks bufs r
    → (elim r [
      | none ↦ none
      | some (b, rest) ↦
          some (if (released b).refcnt == 0 then released b ∷ rest else change i released bufs)
    ])
      ≡ some bufs'
    → IsCache bufs
    → IsCache bufs'
unfolding copies
Unlinks-IsCache i bufs bufs' none u e h = cc
Unlinks-IsCache i bufs bufs' (some (b, rest)) u e h = elim (Bool-cases ((released b).refcnt == 0)) [
  | inl last ↦
      let same : released b ∷ rest ≡ bufs' = some-injective _ _ (rw last at e) in
      subst IsCache same
        (record { once = λ d n ne. omega (arith, u.0 d n, h.once d n ne); size = u.1 ∙ h.size })
  | inr more ↦
      let same : change i released bufs ≡ bufs' = some-injective _ _ (rw more at e) in
      subst IsCache same (change-IsCache i released bufs (λ x. (refl, refl)) h)
]

brelse-IsCache :
    (i : ℕ) (bufs bufs' : List Buf) → brelse i bufs ≡ some bufs' → IsCache bufs → IsCache bufs'
unfolding brelse
brelse-IsCache i bufs bufs' = Unlinks-IsCache i bufs bufs' (unlink i bufs) (unlink-Unlinks i bufs)

-- A step of the cache: a call of `bget` or `brelse` that returns, or a change of a buffer's flags by
-- the disk driver or the log.
pub data Step (bufs : List Buf) : List Buf → Type 0 where
  gets :
      (dev blockno i : ℕ) {bufs' : List Buf}
      → bget dev blockno bufs ≡ some (i, bufs')
      → Step bufs bufs'
  releases : (i : ℕ) {bufs' : List Buf} → brelse i bufs ≡ some bufs' → Step bufs bufs'
  flags :
      (i : ℕ) (valid dirty : Bool)
      → Step bufs (change i (λ b. record b { valid = valid; dirty = dirty }) bufs)

pub data Reach (bufs : List Buf) : List Buf → Type 0 where
  here : Reach bufs bufs
  next : {b c : List Buf} → Reach bufs b → Step b c → Reach bufs c

Step-IsCache : {bufs bufs' : List Buf} → Step bufs bufs' → IsCache bufs → IsCache bufs'
Step-IsCache {bufs} (gets dev blockno i {bufs'} e) h =
    Gets-IsCache dev blockno i bufs bufs' (bget dev blockno bufs) (bget-Gets dev blockno bufs) e h
Step-IsCache {bufs} (releases i {bufs'} e) h = brelse-IsCache i bufs bufs' e h
Step-IsCache {bufs} (flags i valid dirty) h =
    change-IsCache i (λ b. record b { valid = valid; dirty = dirty }) bufs (λ b. (refl, refl)) h

link_from-copies :
    (rounds i d n : ℕ) (bufs : List Buf)
    → d ≢ 0
    → copies d n (link_from rounds i bufs) ≡ copies d n bufs
unfolding link_from copies
link_from-copies zero i d n bufs ne = refl
link_from-copies (suc rounds) i d n bufs ne =
    let b : Buf = record {
      index = i;
      dev = 0;
      blockno = 0;
      valid = false;
      dirty = false;
      refcnt = 0;
    } in
    link_from-copies rounds (suc i) d n (b ∷ bufs) ne ∙ ground (arith, ne)

binit-IsCache : IsCache binit
unfolding binit link_from copies
binit-IsCache = record {
  once = λ d n ne. let none_yet = link_from-copies nbuf 0 d n [] ne in omega (arith, none_yet);
  size = refl;
}

-- In every state that is reached from `binit` by calls of `bget` and `brelse` and by changes of the
-- buffers' flags, in any order, each block of a device other than 0 has at most one buffer, and the
-- list has its 30 buffers.
pub Reach-IsCache : {bufs : List Buf} → Reach binit bufs → IsCache bufs
Reach-IsCache here = binit-IsCache
Reach-IsCache (next r s) = Step-IsCache s (Reach-IsCache r)
