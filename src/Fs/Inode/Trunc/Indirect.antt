-- ===== src/Fs/Inode/Trunc/Indirect.antt =====
-- The indirect block in `itrunc` of xv6/fs.c.
use oslab.Common.{
  ℕ, ◌+◌, ◌-◌, ◌*◌, ◌<◌, ◌≤◌, ◌≡◌, ◌≢◌, ◌∙◌, refl, sym, ap, subst, arith, some, ◌==◌, if◌then◌else◌,
  ==_ne, ℕ_discrete, le→ltb,
}
use oslab.Fs.{Fs}
use oslab.Fs.Holds.{Holds}
use oslab.Fs.Inode.{File, uint_at}
use oslab.Fs.Inode.Slots.{slot, slot_low, slot_none, slot_some, uint_at_cong, IsFile, place}
use oslab.Fs.Inode.Trunc.{trunc_slot, free_entries, trunc_indirect}
use oslab.Fs.Inode.Trunc.Frees.{Owns, Freed, nothing-Freed, Owns-rest, Freed-then}
use oslab.Fs.Inode.Trunc.Ends.{Same-with, Drops, trunc_slot-Drops, free_entries-Freed}

-- The blocks of a file in the order in which `itrunc` frees them.
abbrev pub owned : File → ℕ → ℕ
owned f k = if k == 140 then f.ip.addrs 12 else slot f (place k)

pub owned-slot : (f : File) (k : ℕ) → owned f k ≡ slot f (if k == 140 then 12 else place k)
owned-slot f k = elim (ℕ_discrete k 140) [
  | yes e ↦ rw (e) (sym (slot_low f 12 (omega arith)))
  | no ne ↦ rw (==_ne k 140 ne) refl
]

pub IsFile-Owns : (meta : ℕ) (f : File) → IsFile meta f → Owns meta (owned f) 0 141 f.fs
IsFile-Owns meta f v =
    let at : ℕ → ℕ = λ k. if k == 140 then 12 else place k in
    let at_lt : (k : ℕ) → k < 141 → at k < 141 = λ k lt. ground arith in
    record {
      holds = λ k lo lt set.
          subst (Holds meta f.fs) (sym (owned-slot f k))
            (v.holds (at k) (at_lt k lt) (λ z. set (owned-slot f k ∙ z)));
      distinct = λ j k j_lo j_lt k_lo k_lt ne e.
          owned-slot f j
          ∙ v.distinct (at j) (at k) (at_lt j j_lt) (at_lt k k_lt)
              (λ same. ne (ground (arith, same))) (sym (owned-slot f j) ∙ e ∙ owned-slot f k);
    }

trunc_indirect-none : (g : File) → g.ip.addrs 12 ≡ 0 → trunc_indirect g ≡ some g
unfolding trunc_indirect
trunc_indirect-none g z = rw z refl

trunc_indirect-some :
    (g : File) (t : Fs)
    → g.ip.addrs 12 ≢ 0
    → free_entries 128 0 (λ j. uint_at (g.fs.block (g.ip.addrs 12)) (4 * j)) g.fs ≡ some t
    → trunc_indirect g ≡ trunc_slot 12 (record g { fs = t })
unfolding trunc_indirect
trunc_indirect-some g t set e = rw (==_ne (g.ip.addrs 12) 0 set, e) refl

owned_none : (f : File) (k : ℕ) → f.ip.addrs 12 ≡ 0 → 12 ≤ k → owned f k ≡ 0
owned_none f k z lo = elim (ℕ_discrete k 140) [
  | yes e ↦ rw e z
  | no ne ↦ rw (==_ne k 140 ne, le→ltb k 12 lo) (slot_none f (k + 1) (omega arith) z)
]

owned_entry :
    (meta : ℕ) (f g : File) (k : ℕ)
    → IsFile meta f
    → Freed meta (owned f) 0 12 f.fs g.fs
    → g.ip.addrs 12 ≡ f.ip.addrs 12
    → f.ip.addrs 12 ≢ 0
    → k < 128
    → uint_at (g.fs.block (g.ip.addrs 12)) (4 * (0 + k)) ≡ owned f (12 + k)
owned_entry meta f g k v h same set lt =
    let index : place (12 + k) ≡ 13 + k = ground arith in
    let at : owned f (12 + k) ≡ slot f (13 + k) =
      rw (==_ne (12 + k) 140 (λ e. omega arith)) (ap (slot f) index) in
    let past : meta ≤ f.ip.addrs 12 = (v.holds 12 (omega arith) set).past in
    let entry : 4 * (13 + k - 13) ≡ 4 * (0 + k) = omega arith in
    rw same (
      uint_at_cong (g.fs.block (f.ip.addrs 12)) (f.fs.block (f.ip.addrs 12)) (4 * (0 + k))
        (λ i. h.bytes (f.ip.addrs 12) i past))
    ∙ ap (uint_at (f.fs.block (f.ip.addrs 12))) (sym entry)
    ∙ sym (slot_some f (13 + k) (f.ip.addrs 12) (omega arith) refl set)
    ∙ sym at

-- The part of `itrunc` behind the loop over the direct addresses.
pub trunc_indirect-Drops :
    (meta : ℕ) (f g : File)
    → IsFile meta f
    → Freed meta (owned f) 0 12 f.fs g.fs
    → g.ip.addrs 12 ≡ f.ip.addrs 12
    → Drops meta (owned f) 12 141 12 13 g (trunc_indirect g)
unfolding Drops
trunc_indirect-Drops meta f g v h same = elim (ℕ_discrete (f.ip.addrs 12) 0) [
  | yes z ↦ (
    g,
    trunc_indirect-none g (same ∙ z),
    nothing-Freed meta (owned f) 12 141 g.fs h.valid (λ k lo hi. owned_none f k z lo),
    Same-with g.ip g.ip.size g.ip.addrs,
    λ j lo hi. ap g.ip.addrs (omega arith) ∙ same ∙ z,
    λ j out. refl,
  )
  | no set ↦
      let own : Owns meta (owned f) 12 141 g.fs =
        Owns-rest meta (owned f) 0 12 141 f.fs g.fs (omega arith) (omega arith)
          (IsFile-Owns meta f v) h in
      let entries : Owns meta (owned f) 12 140 g.fs = record {
        holds = λ k lo hi. own.holds k lo (omega arith);
        distinct =
            λ j k j_lo j_hi k_lo k_hi. own.distinct j k j_lo (omega arith) k_lo (omega arith);
      } in
      let a : ℕ → ℕ = λ j. uint_at (g.fs.block (g.ip.addrs 12)) (4 * j) in
      let (t, done, one) =
        free_entries-Freed meta (owned f) 128 0 12 140 a g.fs h.valid (omega arith)
          (λ k lt. owned_entry meta f g k v h same set lt) entries in
      let last : Owns meta (owned f) 140 141 t =
        Owns-rest meta (owned f) 12 140 141 g.fs t (omega arith) (omega arith) own one in
      let (u, slot_done, two, kept_ip, zero_at, kept) =
        trunc_slot-Drops meta (owned f) 140 12 (record g { fs = t }) one.valid (sym same) last in
      (
        u,
        trunc_indirect-some g t (λ z. set (sym same ∙ z)) done ∙ slot_done,
        Freed-then meta (owned f) 12 140 141 g.fs t u.fs (omega arith) (omega arith) own one two,
        kept_ip,
        zero_at,
        kept,
      )
]
