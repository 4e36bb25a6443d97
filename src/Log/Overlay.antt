-- ===== src/Log/Overlay.antt =====
-- What a log says of the disk, described without the loops of xv6/log.c: the newest log entry for
-- a block counts, and a block with no entry stands as it is.
use oslab.Common.{
  ℕ, zero, suc, ◌+◌, ◌≤◌, ◌<◌, ◌≡◌, ◌≢◌, ◌⊎◌, refl, arith, ◌==◌, dec_le, if◌then◌else◌,
}
use oslab.Disk.{Disk}
use oslab.Log.{logsize, head_n, head_block}

-- A block outside the log, which is `size` blocks from `start` on, and not the super block.
abbrev pub Home : ℕ → ℕ → ℕ → Type 0
Home start size b = ((1 < b) × (b < start)) ⊎ (start + size ≤ b)

abbrev pub InLog : ℕ → ℕ → ℕ → Type 0
InLog start size b = (start ≤ b) × (b < start + size)

module _ (start : ℕ) (block : ℕ → ℕ) where
  -- `d` with the first `k` entries of the log put in, their data taken from `src`.
  unfoldable pub overlay : ℕ → Disk → Disk → Disk
  overlay zero src d b = d b
  overlay (suc k) src d b = if block k == b then src (start + k + 1) else overlay k src d b

-- The disk after the log that stands on it has been put in.
abbrev pub recovered : ℕ → Disk → Disk
recovered start d = overlay start (head_block (d start)) (head_n (d start)) d d

-- A header that fits its array and the log, and names no block of the log itself.
pub record IsLog (start size n : ℕ) (block : ℕ → ℕ) : Type 0 where
  pub array : n ≤ logsize
  pub fits : n < size
  pub homes : (i : ℕ) → i < n → Home start size (block i)

module _ (start : ℕ) (block : ℕ → ℕ) where
  -- A block that no entry names is not changed.
  pub overlay_missing :
      (k : ℕ) (src d : Disk) (b : ℕ)
      → ((i : ℕ) → i < k → block i ≢ b)
      → overlay start block k src d b ≡ d b
  unfolding overlay
  overlay_missing zero src d b h = refl
  overlay_missing (suc k) src d b h =
      ground (arith, h k, overlay_missing k src d b (λ i lt. h i (omega arith)))

  pub overlay-InLog :
      (size n : ℕ) (src d : Disk) (k b : ℕ)
      → IsLog start size n block
      → k ≤ n
      → InLog start size b
      → overlay start block k src d b ≡ d b
  overlay-InLog size n src d k b w le i =
      overlay_missing k src d b
        (λ j lt e. let h : Home start size (block j) = w.homes j (omega arith) in omega arith)

  pub overlay_src :
      (k : ℕ) (src src' d d' : Disk) (b : ℕ)
      → ((i : ℕ) → i < k → src (start + i + 1) ≡ src' (start + i + 1))
      → d b ≡ d' b
      → overlay start block k src d b ≡ overlay start block k src' d' b
  unfolding overlay
  overlay_src zero src src' d d' b same e = e
  overlay_src (suc k) src src' d d' b same e =
      ground (arith, same k, overlay_src k src src' d d' b (λ i lt. same i (omega arith)) e)

  -- Putting in a part of the log first makes no difference.
  pub overlay-overlay :
      (k t : ℕ) (src d : Disk) (b : ℕ)
      → t ≤ k
      → overlay start block k src (overlay start block t src d) b ≡ overlay start block k src d b
  unfolding overlay
  overlay-overlay zero zero src d b h = refl
  overlay-overlay zero (suc t) src d b h = absurd (omega arith)
  overlay-overlay (suc k) t src d b h = elim (dec_le t k) [
    | yes le ↦ ground (arith, overlay-overlay k t src d b le)
    | no gt ↦
        let e : t ≡ suc k = omega arith in
        rw e (
          ground (
            arith,
            overlay-overlay k k src d b,
            overlay_src k src src (overlay start block (suc k) src d) (overlay start block k src d)
                b (λ i _. refl),
          ))
  ]

-- A log is read the same through an equal header.
pub overlay_block :
    (start : ℕ) (block block' : ℕ → ℕ) (k : ℕ) (src d : Disk) (b : ℕ)
    → ((i : ℕ) → i < k → block i ≡ block' i)
    → overlay start block k src d b ≡ overlay start block' k src d b
unfolding overlay
overlay_block start block block' zero src d b same = refl
overlay_block start block block' (suc k) src d b same =
    ground
      (arith, same k, overlay_block start block block' k src d b (λ i lt. same i (omega arith)))
