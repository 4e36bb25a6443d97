-- ===== src/Fs/Owners.antt =====
-- The users of `balloc` and `bfree` of xv6/fs.c: blocks taken and given back in any order.
use oslab.Common.{
  ℕ, ◌<◌, ◌≤◌, ◌≡◌, ◌≢◌, ◌∙◌, sym, ap, ==_ne, subst, arith, none, some, List, [], ◌∷◌, get_elem?,
  erase_at, count, count-erase_at, ==_refl, ℕ_discrete,
}
use oslab.Fs.{Fs, balloc, bfree}
use oslab.Fs.Bitmap.{IsFs}
use oslab.Fs.Blocks.{Alloc, balloc-Alloc, bfree-Gave}
use oslab.Fs.Holds.{Holds, Took-new, Took-Holds}

-- The disk, and the blocks that its users hold.
pub record Disk : Type 0 where
  pub fs : Fs
  pub held : List ℕ

pub data Step (s : Disk) : Disk → Type 0 where
  allocates :
      (b : ℕ) {t : Fs} → balloc s.fs ≡ some (b, t) → Step s (record { fs = t; held = b ∷ s.held })
  frees :
      (i : ℕ) {b : ℕ} {t : Fs}
      → get_elem? s.held i ≡ some b
      → bfree b s.fs ≡ some t
      → Step s (record { fs = t; held = erase_at s.held i })

pub data Reach (s : Disk) : Disk → Type 0 where
  here : Reach s s
  next : {t u : Disk} → Reach s t → Step t u → Reach s u

-- Every held block is held once.
pub record Owned (meta : ℕ) (s : Disk) : Type 0 where
  pub valid : IsFs meta s.fs
  pub once : (b : ℕ) → count b s.held ≤ 1
  pub holds : (b : ℕ) → 0 < count b s.held → Holds meta s.fs b

allocates-Owned :
    (meta : ℕ) (s : Disk) (b : ℕ) (t : Fs)
    → Owned meta s
    → balloc s.fs ≡ some (b, t)
    → Owned meta (record { fs = t; held = b ∷ s.held })
allocates-Owned meta s b t v e =
    let h : Alloc meta s.fs (some (b, t)) =
      subst (Alloc meta s.fs) e (balloc-Alloc meta s.fs v.valid) in
    let took = h.3 in
    let new : ¬ (0 < count b s.held) = λ held. cc ((v.holds b held).used, took.free) in
    let gone : count b s.held ≡ 0 = omega (arith, new) in
    record {
      valid = took.valid;
      once = λ c. elim (ℕ_discrete c b) [
        | yes c_eq ↦ ground (arith, gone, ap (λ x. count x s.held) c_eq)
        | no ne ↦ ground (arith, ne, v.once c)
      ];
      holds = λ c held. elim (ℕ_discrete c b) [
        | yes c_eq ↦ rw c_eq (Took-new meta s.fs b t h.0 h.2 took)
        | no ne ↦ (Took-Holds meta s.fs b t c took (v.holds c (ground (arith, held)))).0
      ];
    }

frees-Owned :
    (meta : ℕ) (s : Disk) (i b : ℕ) (t : Fs)
    → Owned meta s
    → get_elem? s.held i ≡ some b
    → bfree b s.fs ≡ some t
    → Owned meta (record { fs = t; held = erase_at s.held i })
frees-Owned meta s i b t v at e =
    let mine : 0 < count b s.held = ground (arith, count-erase_at b s.held i b at, ==_refl b) in
    let own = v.holds b mine in
    let (u, freed, g) = bfree-Gave meta s.fs b v.valid own.past own.used in
    let same : u ≡ t = ground (arith, freed, e) in
    rw (sym same) (record {
      valid = g.valid;
      once = λ c. ground (arith, v.once c, count-erase_at c s.held i b at);
      holds = λ c held.
          let old = v.holds c (ground (arith, held, count-erase_at c s.held i b at)) in
          let ne : c ≢ b = λ c_eq.
            ground (arith, held, c_eq, v.once b, count-erase_at b s.held i b at, ==_refl b) in
          record {
            used = g.marks c old.inside ∙ rw (==_ne c b ne) old.used;
            past = old.past;
            inside = rw g.same_sb old.inside;
          };
    })

Step-Owned : (meta : ℕ) {s t : Disk} → Step s t → Owned meta s → Owned meta t
Step-Owned meta {s} (allocates b {t} e) v = allocates-Owned meta s b t v e
Step-Owned meta {s} (frees i {b} {t} at e) v = frees-Owned meta s i b t v at e

Reach-Owned : (meta : ℕ) {s t : Disk} → Owned meta s → Reach s t → Owned meta t
Reach-Owned meta v here = v
Reach-Owned meta v (next r st) = Step-Owned meta st (Reach-Owned meta v r)

-- Exclusive ownership of blocks. Start from a disk whose bitmap is well formed, with no block held,
-- and let users take blocks with `balloc` and give back blocks that they hold with `bfree`, in any
-- order. Then in every state that is reached the bitmap is well formed, each held block is held once
-- and is in use, `bfree` of a held block does not panic, and the block that `balloc` returns next is
-- one that nobody holds.
pub balloc-Reach :
    (meta : ℕ) (fs : Fs) (t : Disk)
    → IsFs meta fs
    → Reach (record { fs = fs; held = [] }) t
    → Owned meta t
      × ((b : ℕ) → 0 < count b t.held → bfree b t.fs ≢ none)
      × ((b : ℕ) (u : Fs) → balloc t.fs ≡ some (b, u) → count b t.held ≡ 0)
balloc-Reach meta fs t valid r =
    let start : Owned meta (record { fs = fs; held = [] }) = record {
      valid = valid;
      once = λ b. omega arith;
      holds = λ b held. absurd (omega arith);
    } in
    let v = Reach-Owned meta start r in
    (
      v,
      λ b held e.
          let own = v.holds b held in
          let (u, freed, g) = bfree-Gave meta t.fs b v.valid own.past own.used in cc (freed, e),
      λ b u e.
          let h : Alloc meta t.fs (some (b, u)) =
            subst (Alloc meta t.fs) e (balloc-Alloc meta t.fs v.valid) in
          elim (ℕ_discrete (count b t.held) 0) [
            | yes none_held ↦ none_held
            | no some_held ↦ absurd (cc ((v.holds b (omega arith)).used, h.3.free))
          ],
    )
