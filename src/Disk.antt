-- ===== src/Disk.antt =====
-- The disk and the contents of the buffer cache, as log.c sees them through xv6/bio.c and
-- xv6/memide.c, with a power supply that may fail before any disk write.
pub mod Ends
use oslab.Common.{ℕ, zero, suc, Bool, false, Option, none, some, ◌==◌, if◌then◌else◌}

-- BSIZE bytes, read as an array of little-endian 32-bit words.
abbrev pub Block : Type 0
Block = ℕ → ℕ

-- The blocks of one device, by number.
abbrev pub Disk : Type 0
Disk = ℕ → Block

abbrev pub update {ℓ} : {A : Type ℓ} → (ℕ → A) → ℕ → A → ℕ → A
update f p v q = if p == q then v else f q

-- `struct log` with its `struct logheader lh` (`n` and `block`).
pub record Log : Type 0 where
  pub start : ℕ
  pub size : ℕ
  pub outstanding : ℕ
  pub committing : ℕ
  pub n : ℕ
  pub block : ℕ → ℕ

-- `cache b` is the data of the valid buffer of block `b`, if there is one, and `dirty b` its flag
-- B_DIRTY. `power` is the number of disk writes that happen before the machine stops.
pub record Sys : Type 0 where
  pub disk : Disk
  pub cache : ℕ → Option Block
  pub dirty : ℕ → Bool
  pub power : ℕ
  pub log : Log

pub data Run (A : Type 0) : Type 0 where
  done : A → Sys → Run A
  crashed : Disk → Run A
  panicked : Run A

abbrev pub Cmd : Type 0 → Type 0
Cmd A = Sys → Run A

abbrev pub pure : {A : Type 0} → A → Cmd A
pure = done

module _ {A B : Type 0} where
  abbrev pub and_then : Run A → (A → Cmd B) → Run B
  and_then (done a s) k = k a s
  and_then (crashed d) k = crashed d
  and_then panicked k = panicked

  infixl 5 ◌>>=◌ ◌>>◌
  abbrev pub ◌>>=◌ : Cmd A → (A → Cmd B) → Cmd B
  m >>= k = λ s. and_then (m s) k

  abbrev pub ◌>>◌ : Cmd A → Cmd B → Cmd B
  m >> k = m >>= λ _. k

abbrev pub get_log : Cmd Log
get_log s = done s.log s

abbrev pub set_log : Log → Cmd (Unit {0})
set_log l s = done tt (record s { log = l })

-- What a read of block `b` gives: the buffer's data if it is cached, the disk's if not.
abbrev pub contents : Sys → ℕ → Block
contents s b = elim (s.cache b) [ none ↦ s.disk b | some x ↦ x ]

-- `bread` where `bget` finds a buffer and the disk has the block: the block's data; afterwards the block is
-- cached. A buffer is never reused here; one that is not dirty holds what the disk holds.
abbrev pub loaded : ℕ → Sys → Sys
loaded b s = record s { cache = update s.cache b (some (contents s b)) }

unfoldable pub bread : ℕ → Cmd Block
bread b s = done (contents s b) (loaded b s)

abbrev pub written : ℕ → Block → Sys → ℕ → Sys
written b x s p = record s {
  disk = update s.disk b x;
  cache = update s.cache b (some x);
  dirty = update s.dirty b false;
  power = p;
}

abbrev pub write_disk : ℕ → Block → Sys → ℕ → Run (Unit {0})
write_disk b x s zero = crashed s.disk
write_disk b x s (suc p) = done tt (written b x s p)

-- `bwrite` of a buffer of block `b` that holds `x`: the buffer's data goes to the disk, and
-- B_DIRTY, set on the way, is cleared.
unfoldable pub bwrite : ℕ → Block → Cmd (Unit {0})
bwrite b x s = write_disk b x s s.power
