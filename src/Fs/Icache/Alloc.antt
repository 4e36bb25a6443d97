-- ===== src/Fs/Icache/Alloc.antt =====
-- `ialloc` of xv6/fs.c.
use oslab.Common.{
  ℕ, zero, suc, ◌+◌, ◌-◌, ◌*◌, ◌/◌, ◌%◌, ◌<◌, ◌≤◌, ◌≡◌, ◌≢◌, ◌⊎◌, inl, inr, ◌∙◌, refl, sym, ap,
  arith, true, false, Option, none, ◌==◌, if◌then◌else◌, ==_refl, ==_ne, ℕ_discrete,
}
use oslab.Fs.{Fs, ipb, iblock, log_block}
use oslab.Fs.Inode.{short_at}
use oslab.Fs.Icache.{Icache, iget}

-- The type of inode `inum` on the disk.
abbrev pub disk_type : Fs → ℕ → ℕ
disk_type fs inum = short_at (fs.block (iblock inum fs.sb)) (inum % ipb * 64)

-- `memset(dip, 0, sizeof(*dip)); dip->type = type; log_write(bp);`
unfoldable pub mark_inode : ℕ → ℕ → Fs → Fs
mark_inode inum type fs =
    let bno = iblock inum fs.sb in
    log_block fs bno (λ j.
      if j / 64 == inum % ipb
      then if j % 64 == 0 then type % 256 else if j % 64 == 1 then type / 256 % 256 else 0
      else fs.block bno j)

-- The loop of `ialloc`; `none` is a panic.
unfoldable pub ialloc_from : ℕ → ℕ → ℕ → ℕ → Icache → Option (ℕ × Icache)
ialloc_from dev zero inum type c = none
ialloc_from dev (suc rounds) inum type c = elim (disk_type c.fs inum == 0) [
  | true ↦ iget dev inum (record c { fs = mark_inode inum type c.fs })
  | false ↦ ialloc_from dev rounds (suc inum) type c
]

-- `ialloc`
unfoldable pub ialloc : ℕ → ℕ → Icache → Option (ℕ × Icache)
ialloc dev type c = ialloc_from dev (c.fs.sb.ninodes - 1) 1 type c

mark_inode_type :
    (inum type : ℕ) (fs : Fs) → type < 65536 → disk_type (mark_inode inum type fs) inum ≡ type
unfolding mark_inode
mark_inode_type inum type fs lt =
    let at = inum % ipb * 64 in
    let row : at / 64 ≡ inum % ipb = omega arith in
    let col : at % 64 ≡ 0 = omega arith in
    let row1 : (at + 1) / 64 ≡ inum % ipb = omega arith in
    let col1 : (at + 1) % 64 ≡ 1 = omega arith in
    rw (==_refl (iblock inum fs.sb), row, col, row1, col1, ==_refl (inum % ipb)) (omega arith)

mark_inode_other :
    (inum type i : ℕ) (fs : Fs) → i ≢ inum → disk_type (mark_inode inum type fs) i ≡ disk_type fs i
unfolding mark_inode
mark_inode_other inum type i fs ne = elim (ℕ_discrete (iblock inum fs.sb) (iblock i fs.sb)) [
  | no far ↦ rw (==_ne (iblock inum fs.sb) (iblock i fs.sb) far) refl
  | yes near ↦
      let at = i % ipb * 64 in
      let row : (at / 64 == inum % ipb) ≡ false =
        ==_ne (at / 64) (inum % ipb) (λ e. ne (omega arith)) in
      let row1 : ((at + 1) / 64 == inum % ipb) ≡ false =
        ==_ne ((at + 1) / 64) (inum % ipb) (λ e. ne (omega arith)) in
      rw (near, ==_refl (iblock i fs.sb), row, row1) refl
]

-- The ends of `ialloc`: no inode is free, or the first free one has the type, every other one's is as
-- before, and the call ends as `iget` of it does.
abbrev pub Allocs : ℕ → ℕ → ℕ → Icache → Option (ℕ × Icache) → Type 0
Allocs dev from type c r =
    (((i : ℕ) → from ≤ i → i < c.fs.sb.ninodes → disk_type c.fs i ≢ 0) × (r ≡ none))
    ⊎ ((inum : ℕ) × (fs : Fs) × (from ≤ inum)
        × (inum < c.fs.sb.ninodes)
        × (disk_type c.fs inum ≡ 0)
        × ((i : ℕ) → from ≤ i → i < inum → disk_type c.fs i ≢ 0)
        × (disk_type fs inum ≡ type)
        × ((i : ℕ) → i ≢ inum → disk_type fs i ≡ disk_type c.fs i)
        × (r ≡ iget dev inum (record c { fs = fs })))

ialloc_from-Allocs :
    (dev rounds inum type : ℕ) (c : Icache)
    → inum + rounds ≡ c.fs.sb.ninodes
    → type < 65536
    → Allocs dev inum type c (ialloc_from dev rounds inum type c)
unfolding ialloc_from
ialloc_from-Allocs dev zero inum type c all lt = inl (λ i lo hi. absurd (omega arith), refl)
ialloc_from-Allocs dev (suc rounds) inum type c all lt = elim (ℕ_discrete (disk_type c.fs inum) 0) [
  | yes z ↦
      rw (z, ialloc_from)
        (inr (
          inum,
          mark_inode inum type c.fs,
          omega arith,
          omega arith,
          z,
          λ i lo hi. absurd (omega arith),
          mark_inode_type inum type c.fs lt,
          λ i ne. mark_inode_other inum type i c.fs ne,
          refl,
        ))
  | no used ↦
      rw (==_ne (disk_type c.fs inum) 0 used, ialloc_from)
        (elim (ialloc_from-Allocs dev rounds (suc inum) type c (omega arith) lt) [
          | inl (full, gone) ↦ inl (
            λ i lo hi. elim (ℕ_discrete i inum) [
              | yes e ↦ λ z. used (ap (disk_type c.fs) (sym e) ∙ z)
              | no ne ↦ full i (omega arith) hi
            ],
            gone,
          )
          | inr (n, fs, lo, hi, free, first, now, others, is) ↦ inr (
            n,
            fs,
            omega (arith, lo),
            hi,
            free,
            λ i i_lo i_hi. elim (ℕ_discrete i inum) [
              | yes e ↦ λ z. used (ap (disk_type c.fs) (sym e) ∙ z)
              | no ne ↦ first i (omega arith) i_hi
            ],
            now,
            others,
            is,
          )
        ])
]

-- `ialloc` takes the first inode from 1 on whose type is 0, and gives it the type; no other inode's
-- type changes. It ends as `iget` of that inode; if there is none it panics.
pub ialloc-Allocs :
    (dev type : ℕ) (c : Icache)
    → 0 < c.fs.sb.ninodes
    → type < 65536
    → Allocs dev 1 type c (ialloc dev type c)
unfolding ialloc
ialloc-Allocs dev type c some_inodes lt =
    ialloc_from-Allocs dev (c.fs.sb.ninodes - 1) 1 type c (omega arith) lt
