-- ===== src/Fs/Icache.antt =====
-- xv6/fs.c: the cache of the 50 inodes in use, with the disk.
pub mod Gets
pub mod Alloc
pub mod Puts
pub mod Counts
pub mod Refs
mod Tests
use oslab.Common.{
  ℕ, zero, suc, ◌+◌, ◌-◌, Bool, true, false, ◌&&◌, Option, none, some, ◌==◌, ltb, if◌then◌else◌,
}
use oslab.Fs.{Fs}
use oslab.Fs.Inode.{Inode, File, iupdate}
use oslab.Fs.Inode.Trunc.{itrunc}

abbrev pub ninode : ℕ
ninode = 50

-- `icache`; an inode pointer is its place in the table.
pub record Icache : Type 0 where
  pub inode : ℕ → Inode
  pub fs : Fs

abbrev pub put_inode : Icache → ℕ → Inode → Icache
put_inode c k ip = record c { inode = λ i. if i == k then ip else c.inode i }

-- `ip->ref > 0 && ip->dev == dev && ip->inum == inum`
abbrev pub is_inode : ℕ → ℕ → Inode → Bool
is_inode dev inum ip = ltb 0 ip.refs && (ip.dev == dev && ip.inum == inum)

-- What the loop of `iget` ends with: the inode's entry, or the first one that is free.
pub data Scan : Type 0 where
  cached : ℕ → Scan
  missing : Option ℕ → Scan

-- `if(empty == 0 && ip->ref == 0) empty = ip;`
abbrev pub remember : Option ℕ → ℕ → Inode → Option ℕ
remember none i ip = if ip.refs == 0 then some i else none
remember (some e) i ip = some e

-- The loop of `iget`.
pub iget_scan : ℕ → ℕ → ℕ → ℕ → Option ℕ → Icache → Scan
iget_scan dev inum zero i empty c = missing empty
iget_scan dev inum (suc rounds) i empty c = elim (is_inode dev inum (c.inode i)) [
  | true ↦ cached i
  | false ↦ iget_scan dev inum rounds (suc i) (remember empty i (c.inode i)) c
]

abbrev pub more_refs : Inode → Inode
more_refs ip = record ip { refs = ip.refs + 1 }

-- `iget`; `none` is the panic.
unfoldable pub iget : ℕ → ℕ → Icache → Option (ℕ × Icache)
unfolding iget_scan
iget dev inum c = elim (iget_scan dev inum ninode 0 none c) [
  | cached k ↦ some (k, put_inode c k (more_refs (c.inode k)))
  | missing none ↦ none
  | missing (some k) ↦
      some
        (k, put_inode c k (record (c.inode k) { dev = dev; inum = inum; refs = 1; valid = false }))
]

-- `idup`
unfoldable pub idup : ℕ → Icache → Icache
idup k c = put_inode c k (more_refs (c.inode k))

-- What `iput` does with the last reference of an inode without links.
unfoldable pub drop_inode : ℕ → Icache → Option Icache
drop_inode k c = elim (itrunc (record { ip = c.inode k; fs = c.fs })) [
  | none ↦ none
  | some f ↦
      let freed = record f.ip { type = 0 } in
      some (
        put_inode (record c { fs = iupdate (record { ip = freed; fs = f.fs }) }) k
          (record freed { valid = false }))
]

abbrev pub less_refs : ℕ → Icache → Icache
less_refs k c = put_inode c k (record (c.inode k) { refs = (c.inode k).refs - 1 })

-- `iput` by a holder of a reference; `none` is a panic. The sleep lock is not here.
unfoldable pub iput : ℕ → Icache → Option Icache
unfolding drop_inode
iput k c =
    if (c.inode k).valid && ((c.inode k).nlink == 0 && (c.inode k).refs == 1)
    then elim (drop_inode k c) [ none ↦ none | some d ↦ some (less_refs k d) ]
    else some (less_refs k c)
