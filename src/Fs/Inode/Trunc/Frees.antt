-- ===== src/Fs/Inode/Trunc/Frees.antt =====
-- Blocks that `bfree` of xv6/fs.c gives back one after the other.
use oslab.Common.{
  ℕ, suc, ◌<◌, ◌≤◌, ◌≡◌, ◌≢◌, ◌∙◌, refl, sym, ap, arith, false, some, ==_refl, ==_ne, dec_lt,
}
use oslab.Fs.{Fs, bfree}
use oslab.Fs.Bitmap.{in_use, IsFs}
use oslab.Fs.Blocks.{bfree-Gave}
use oslab.Fs.Holds.{Holds}

module _ (meta : ℕ) (v : ℕ → ℕ) where
  -- The blocks `v lo` to `v (hi - 1)`, but for those that are 0, are different and held.
  pub record Owns (lo hi : ℕ) (fs : Fs) : Type 0 where
    pub holds : (k : ℕ) → lo ≤ k → k < hi → v k ≢ 0 → Holds meta fs (v k)
    pub distinct : (j k : ℕ) → lo ≤ j → j < hi → lo ≤ k → k < hi → j ≢ k → v j ≡ v k → v j ≡ 0

  -- They are free, and no other block has changed, but for the bitmap.
  pub record Freed (lo hi : ℕ) (fs t : Fs) : Type 0 where
    pub valid : IsFs meta t
    pub same_sb : t.sb ≡ fs.sb
    pub bytes : (c i : ℕ) → meta ≤ c → t.block c i ≡ fs.block c i
    pub gone : (k : ℕ) → lo ≤ k → k < hi → v k ≢ 0 → in_use t (v k) ≡ false
    pub kept :
        (b : ℕ)
        → b < fs.sb.size
        → ((k : ℕ) → lo ≤ k → k < hi → v k ≢ 0 → v k ≢ b)
        → in_use t b ≡ in_use fs b

  pub nothing-Freed :
      (lo hi : ℕ) (fs : Fs)
      → IsFs meta fs
      → ((k : ℕ) → lo ≤ k → k < hi → v k ≡ 0)
      → Freed lo hi fs fs
  nothing-Freed lo hi fs valid zeros = record {
    valid = valid;
    same_sb = refl;
    bytes = λ c i ge. refl;
    gone = λ k lo_le lt set. absurd (set (zeros k lo_le lt));
    kept = λ b lt other. refl;
  }

  pub bfree-Freed :
      (k : ℕ) (fs : Fs)
      → IsFs meta fs
      → Holds meta fs (v k)
      → (t : Fs) × (bfree (v k) fs ≡ some t) × Freed k (suc k) fs t
  bfree-Freed k fs valid h =
      let (t, freed, g) = bfree-Gave meta fs (v k) valid h.past h.used in
      (
        t,
        freed,
        record {
          valid = g.valid;
          same_sb = g.same_sb;
          bytes = λ c i ge. g.frame c i (λ e. omega (arith, e, valid.bitmap (v k) h.inside));
          gone = λ j lo lt set.
              let e : j ≡ k = omega arith in
              ap (λ i. in_use t (v i)) e ∙ g.marks (v k) h.inside ∙ rw (==_refl (v k)) refl;
          kept = λ b lt other.
              let ne : b ≢ v k = λ e.
                other k (omega arith) (omega arith) (λ z. omega (arith, z, h.past, valid.boot))
                  (sym e) in
              g.marks b lt ∙ rw (==_ne b (v k) ne) refl;
        },
      )

  pub Owns-rest :
      (lo mid hi : ℕ) (fs t : Fs)
      → lo ≤ mid
      → mid ≤ hi
      → Owns lo hi fs
      → Freed lo mid fs t
      → Owns mid hi t
  Owns-rest lo mid hi fs t lo_le hi_le own f = record {
    holds = λ k k_lo k_hi set.
        let h = own.holds k (omega arith) k_hi set in
        record {
          used =
              f.kept (v k) h.inside (λ j j_lo j_hi j_set e.
                j_set (own.distinct j k j_lo (omega arith) (omega arith) k_hi (λ i. omega arith) e))
              ∙ h.used;
          past = h.past;
          inside = rw f.same_sb h.inside;
        };
    distinct = λ j k j_lo j_hi k_lo k_hi. own.distinct j k (omega arith) j_hi (omega arith) k_hi;
  }

  pub Freed-then :
      (lo mid hi : ℕ) (fs t u : Fs)
      → lo ≤ mid
      → mid ≤ hi
      → Owns lo hi fs
      → Freed lo mid fs t
      → Freed mid hi t u
      → Freed lo hi fs u
  Freed-then lo mid hi fs t u lo_le hi_le own f g = record {
    valid = g.valid;
    same_sb = g.same_sb ∙ f.same_sb;
    bytes = λ c i ge. g.bytes c i ge ∙ f.bytes c i ge;
    gone = λ k k_lo k_hi set. elim (dec_lt k mid) [
      | no later ↦ g.gone k (omega arith) k_hi set
      | yes first ↦
          let inside : v k < t.sb.size = rw f.same_sb (own.holds k k_lo k_hi set).inside in
          g.kept (v k) inside (λ j j_lo j_hi j_set e.
            j_set (own.distinct j k (omega arith) j_hi k_lo k_hi (λ i. omega arith) e))
          ∙ f.gone k k_lo first set
    ];
    kept = λ b lt other.
        g.kept b (rw f.same_sb lt) (λ k k_lo k_hi. other k (omega arith) k_hi)
        ∙ f.kept b lt (λ k k_lo k_hi. other k k_lo (omega arith));
  }
