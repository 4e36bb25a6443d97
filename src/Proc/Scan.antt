-- ===== src/Proc/Scan.antt =====
-- The loops over the process table in xv6/proc.c that look for a slot.
use oslab.Common.{
  ℕ, zero, suc, ◌+◌, ◌≤◌, ◌<◌, ◌≡◌, arith, Bool, true, false, Option, none, some, Bool-cases, inl,
  inr, ℕ_discrete,
}
use oslab.Proc.{Proc, Table, scan}

-- The first slot of the range that passes the test, or none if no slot of the range passes it.
abbrev pub Scanned : (Proc → Bool) → ℕ → ℕ → Table → Option ℕ → Type 0
Scanned test i end t none = (j : ℕ) → i ≤ j → j < end → test (t.proc j) ≡ false
Scanned test i end t (some k) =
    (i ≤ k)
    × (k < end)
    × (test (t.proc k) ≡ true)
    × ((j : ℕ) → i ≤ j → j < k → test (t.proc j) ≡ false)

pub scan-Scanned :
    (test : Proc → Bool) (rounds i end : ℕ) (t : Table)
    → i + rounds ≡ end
    → Scanned test i end t (scan test rounds i t)
unfolding scan
scan-Scanned test zero i end t e = λ j lo hi. absurd (omega arith)
scan-Scanned test (suc rounds) i end t e = elim (Bool-cases (test (t.proc i))) [
  | inl yes' ↦ rw (yes', scan) (omega arith, omega arith, yes', λ j lo hi. absurd (omega arith))
  | inr no' ↦
      rw (no', scan)
        (later test i end t no' (scan test rounds (suc i) t)
          (scan-Scanned test rounds (suc i) end t (omega arith)))
]
  where
    later :
        (test : Proc → Bool) (i end : ℕ) (t : Table)
        → test (t.proc i) ≡ false
        → (r : Option ℕ) → Scanned test (suc i) end t r
        → Scanned test i end t r
    later test i end t no' none h =
        λ j lo hi. elim (ℕ_discrete j i) [ yes e ↦ rw e no' | no ne ↦ h j (omega arith) hi ]
    later test i end t no' (some k) h = (
      omega (arith, h.0),
      h.1,
      h.2,
      λ j lo hi. elim (ℕ_discrete j i) [ yes e ↦ rw e no' | no ne ↦ h.3 j (omega arith) hi ],
    )
