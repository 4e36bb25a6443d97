-- ===== src/Disk/Ends.antt =====
-- Total correctness of a command on the disk: it never panics; `C` holds of the disk if the power
-- fails on the way, and `P` of the result and the state if it does not.
use oslab.Common.{ℕ, zero, suc, ◌≡◌, refl, arith, ◌∙◌, subst, ap}
use oslab.Disk.{
  Block, Disk, Sys, Run, Cmd, done, crashed, panicked, and_then, contents, loaded, written,
  write_disk, bwrite,
}

pub data Ends {A : Type 0} (C : Disk → Type 0) (P : A → Sys → Type 0) : Run A → Type 0 where
  ends : {a : A} {s : Sys} → P a s → Ends C P (done a s)
  fails : {d : Disk} → C d → Ends C P (crashed d)

module _ {A : Type 0} {C : Disk → Type 0} {P : A → Sys → Type 0} where
  pub bind :
      {B : Type 0} {Q : B → Sys → Type 0} {r : Run A} {k : A → Cmd B}
      → Ends C P r
      → ((a : A) (s : Sys) → P a s → Ends C Q (k a s))
      → Ends C Q (and_then r k)
  bind (ends p) next = next _ _ p
  bind (fails c) next = fails c

  pub mono :
      {D : Disk → Type 0} {Q : A → Sys → Type 0} {r : Run A}
      → Ends C P r
      → ((d : Disk) → C d → D d)
      → ((a : A) (s : Sys) → P a s → Q a s)
      → Ends D Q r
  mono (ends p) weaken_crash weaken = ends (weaken _ _ p)
  mono (fails c) weaken_crash weaken = fails (weaken_crash _ c)

module _ {C : Disk → Type 0} {P : Unit {0} → Sys → Type 0} (b : ℕ) (x : Block) (s : Sys) where
  write_disk-Ends :
      (k : ℕ)
      → (k ≡ 0 → C s.disk)
      → ((p : ℕ) → k ≡ suc p → P tt (written b x s p))
      → Ends C P (write_disk b x s k)
  write_disk-Ends zero stop go = fails (stop refl)
  write_disk-Ends (suc p) stop go = ends (go p refl)

  -- A write fails with the disk as it was, or puts the data on the disk and in the buffer.
  pub bwrite-Ends :
      (s.power ≡ 0 → C s.disk)
      → ((p : ℕ) → s.power ≡ suc p → P tt (written b x s p))
      → Ends C P (bwrite b x s)
  unfolding bwrite
  bwrite-Ends stop go = write_disk-Ends s.power stop go

-- A read changes the contents of no block.
pub contents-loaded : (b : ℕ) (s : Sys) (c : ℕ) → contents (loaded b s) c ≡ contents s c
contents-loaded b s c = ground arith

pub contents-loaded_twice :
    (b c : ℕ) (s : Sys) (a : ℕ) → contents (loaded b (loaded c s)) a ≡ contents s a
contents-loaded_twice b c s a = contents-loaded b (loaded c s) a ∙ contents-loaded c s a

-- The state that a run ends in; `s` if it does not return.
abbrev pub state_or : {A : Type 0} → Sys → Run A → Sys
state_or s (done a t) = t
state_or s (crashed d) = s
state_or s panicked = s

pub Ends_done :
    {A : Type 0} {C : Disk → Type 0} (P : Sys → Type 0) (r : Run A) (a : A) (t : Sys)
    → Ends C (λ _. P) r
    → r ≡ done a t
    → P t
Ends_done P (done b u) a t (ends p) e = subst P (ap (state_or u) e) p
Ends_done P (crashed d) a t q e = cc
Ends_done P panicked a t q e = cc
