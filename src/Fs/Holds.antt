-- ===== src/Fs/Holds.antt =====
-- Blocks of xv6/fs.c past the metadata, while `balloc` and `log_write` change the disk.
use oslab.Common.{ℕ, ◌≤◌, ◌<◌, ◌≡◌, ◌≢◌, ◌∙◌, refl, ap, arith, true, ◌==◌, ==_refl, ==_ne}
use oslab.Fs.{Fs, log_block, bblock}
use oslab.Fs.Bitmap.{in_use, IsFs}
use oslab.Fs.Blocks.{Took, either_byte}

-- A block past the metadata that is in use.
pub record Holds (meta : ℕ) (fs : Fs) (b : ℕ) : Type 0 where
  pub used : in_use fs b ≡ true
  pub past : meta ≤ b
  pub inside : b < fs.sb.size

-- A block that holds no part of the bitmap.
abbrev pub IsClear : Fs → ℕ → Type 0
IsClear fs c = (j : ℕ) → j < fs.sb.size → c ≢ bblock j fs.sb

pub past-IsClear : (meta : ℕ) (fs : Fs) (c : ℕ) → IsFs meta fs → meta ≤ c → IsClear fs c
past-IsClear meta fs c v ge j lt e = omega (arith, v.bitmap j lt)

-- A write to such a block leaves the bitmap as it is.
pub in_use-log_block :
    (meta : ℕ) (fs : Fs) (c : ℕ) (bytes : ℕ → ℕ) (j : ℕ)
    → IsFs meta fs
    → IsClear fs c
    → j < fs.sb.size
    → in_use (log_block fs c bytes) j ≡ in_use fs j
in_use-log_block meta fs c bytes j v clear lt = rw (==_ne c (bblock j fs.sb) (clear j lt)) refl

pub log_block-IsFs :
    (meta : ℕ) (fs : Fs) (c : ℕ) (bytes : ℕ → ℕ)
    → IsFs meta fs
    → IsClear fs c
    → ((i : ℕ) → bytes i < 256)
    → IsFs meta (log_block fs c bytes)
log_block-IsFs meta fs c bytes v clear lt = record {
  bytes = λ b i. either_byte (c == b) bytes (fs.block b) i (lt i) (v.bytes b i);
  used = λ b b_lt.
      in_use-log_block meta fs c bytes b v clear (omega (arith, v.inside)) ∙ v.used b b_lt;
  bitmap = v.bitmap;
  inodes = v.inodes;
  apart = v.apart;
  boot = v.boot;
  inside = v.inside;
  width = v.width;
}

pub log_block-Holds :
    (meta : ℕ) (fs : Fs) (c b : ℕ) (bytes : ℕ → ℕ)
    → IsFs meta fs
    → IsClear fs c
    → Holds meta fs b
    → Holds meta (log_block fs c bytes) b
log_block-Holds meta fs c b bytes v clear h = record {
  used = in_use-log_block meta fs c bytes b v clear h.inside ∙ h.used;
  past = h.past;
  inside = h.inside;
}

-- The blocks that were in use stay so, and the new one joins them.
pub Took-Holds :
    (meta : ℕ) (fs : Fs) (b : ℕ) (t : Fs) (c : ℕ)
    → Took meta fs b t
    → Holds meta fs c
    → Holds meta t c × (c ≢ b)
Took-Holds meta fs b t c took h =
    let ne : c ≢ b = λ e. cc (h.used, ap (in_use fs) e, took.free) in
    (
      record {
        used = took.marks c h.inside ∙ rw (==_ne c b ne) h.used;
        past = h.past;
        inside = rw took.same_sb h.inside;
      },
      ne,
    )

pub Took-new :
    (meta : ℕ) (fs : Fs) (b : ℕ) (t : Fs)
    → b < fs.sb.size
    → meta ≤ b
    → Took meta fs b t
    → Holds meta t b
Took-new meta fs b t lt ge took = record {
  used = took.marks b lt ∙ rw (==_refl b) refl;
  past = ge;
  inside = rw took.same_sb lt;
}
