-- ===== src/Fs/Icache/Gets.antt =====
-- `iget` and `iput` of xv6/fs.c: the entry that `iget` gives, and what `iput` leaves.
use oslab.Common.{
  ℕ, zero, suc, ◌+◌, ◌<◌, ◌≡◌, ◌≢◌, ◌⊎◌, ◌∙◌, refl, sym, ap, arith, true, false, Option, none, some,
  ==_ne, Bool-cases, inl, inr, ℕ_discrete,
}
use oslab.Fs.Icache.{
  Icache, ninode, put_inode, is_inode, Scan, cached, missing, remember, iget_scan, more_refs, iget,
}

-- The ends of the loop of `iget`.
abbrev pub Scans : ℕ → ℕ → Icache → Scan → Type 0
Scans dev inum c (cached k) = (k < ninode) × (is_inode dev inum (c.inode k) ≡ true)
Scans dev inum c (missing none) =
    ((j : ℕ) → j < ninode → is_inode dev inum (c.inode j) ≡ false)
    × ((j : ℕ) → j < ninode → (c.inode j).refs ≢ 0)
Scans dev inum c (missing (some k)) =
    ((j : ℕ) → j < ninode → is_inode dev inum (c.inode j) ≡ false)
    × (k < ninode)
    × ((c.inode k).refs ≡ 0)

-- The entry that the loop remembers before entry `i`.
abbrev Spare : Icache → ℕ → Option ℕ → Type 0
Spare c i none = (j : ℕ) → j < i → (c.inode j).refs ≢ 0
Spare c i (some k) = (k < i) × ((c.inode k).refs ≡ 0)

remember-Spare :
    (c : Icache) (i : ℕ) (e : Option ℕ) → Spare c i e → Spare c (suc i) (remember e i (c.inode i))
remember-Spare c i (some k) h = (omega (arith, h.0), h.1)
remember-Spare c i none h = elim (ℕ_discrete (c.inode i).refs 0) [
  | yes z ↦ rw z (omega arith, z)
  | no used ↦ rw (==_ne (c.inode i).refs 0 used) (λ j lt. elim (ℕ_discrete j i) [
    | yes e ↦ λ z. used (ap (λ k. (c.inode k).refs) (sym e) ∙ z)
    | no ne ↦ h j (omega arith)
  ])
]

iget_scan-Scans :
    (dev inum rounds i : ℕ) (e : Option ℕ) (c : Icache)
    → i + rounds ≡ ninode
    → ((j : ℕ) → j < i → is_inode dev inum (c.inode j) ≡ false)
    → Spare c i e
    → Scans dev inum c (iget_scan dev inum rounds i e c)
unfolding iget_scan
iget_scan-Scans dev inum zero i none c all seen h =
    (λ j lt. seen j (omega arith), λ j lt. h j (omega arith))
iget_scan-Scans dev inum zero i (some k) c all seen h =
    (λ j lt. seen j (omega arith), omega (arith, h.0), h.1)
iget_scan-Scans dev inum (suc rounds) i e c all seen h =
    elim (Bool-cases (is_inode dev inum (c.inode i))) [
      | inl hit ↦ rw (hit, iget_scan) (omega arith, hit)
      | inr miss ↦
          rw (miss, iget_scan)
            (iget_scan-Scans dev inum rounds (suc i) (remember e i (c.inode i)) c (omega arith)
              (λ j lt. elim (ℕ_discrete j i) [
                | yes eq ↦ ap (λ k. is_inode dev inum (c.inode k)) eq ∙ miss
                | no ne ↦ seen j (omega arith)
              ])
              (remember-Spare c i e h))
    ]

-- The ends of `iget`: one more reference to the entry of the inode, a free entry that is now the
-- inode's, or, the panic, no entry that is free.
abbrev pub Gets : ℕ → ℕ → Icache → Option (ℕ × Icache) → Type 0
Gets dev inum c none =
    ((j : ℕ) → j < ninode → is_inode dev inum (c.inode j) ≡ false)
    × ((j : ℕ) → j < ninode → (c.inode j).refs ≢ 0)
Gets dev inum c (some r) =
    (r.0 < ninode)
    × (((is_inode dev inum (c.inode r.0) ≡ true)
          × (r.1 ≡ put_inode c r.0 (more_refs (c.inode r.0))))
        ⊎ (((j : ℕ) → j < ninode → is_inode dev inum (c.inode j) ≡ false)
            × ((c.inode r.0).refs ≡ 0)
            × (r.1
                ≡ put_inode c r.0
                    (record (c.inode r.0) { dev = dev; inum = inum; refs = 1; valid = false }))))

pub iget-Gets : (dev inum : ℕ) (c : Icache) → Gets dev inum c (iget dev inum c)
unfolding iget
iget-Gets dev inum c = go (iget_scan dev inum ninode 0 none c) (
    iget_scan-Scans dev inum ninode 0 none c (omega arith) (λ j lt. absurd (omega arith))
      (λ j lt. absurd (omega arith)))
  where
    go :
        (r : Scan)
        → Scans dev inum c r
        → Gets dev inum c (elim r [
          | cached k ↦ some (k, put_inode c k (more_refs (c.inode k)))
          | missing none ↦ none
          | missing (some k) ↦ some (
            k,
            put_inode c k (record (c.inode k) { dev = dev; inum = inum; refs = 1; valid = false }),
          )
        ])
    go (cached k) h = (h.0, inl (h.1, refl))
    go (missing none) h = h
    go (missing (some k)) h = (h.1, inr (h.0, h.2, refl))
