-- ===== src/Fs/Inode/Trunc.antt =====
-- `itrunc` of xv6/fs.c.
pub mod Frees
pub mod Ends
pub mod Indirect
pub mod Whole
use oslab.Common.{
  ℕ, zero, suc, ◌+◌, ◌-◌, ◌*◌, ◌/◌, ◌<◌, ◌≤◌, ◌≡◌, ◌≢◌, ◌⊎◌, ◌∙◌, refl, sym, ap, subst, arith, Bool,
  true, false, Option, none, some, ◌==◌, if◌then◌else◌, ==_refl, ==_ne, ℕ_discrete, dec_lt,
}
use oslab.Fs.{Superblock, Fs, bfree}
use oslab.Fs.Inode.{Inode, File, ndirect, nindirect, uint_at, put_addr, iupdate}

-- `if(ip->addrs[k]){ bfree(ip->dev, ip->addrs[k]); ip->addrs[k] = 0; }`
unfoldable pub trunc_slot : ℕ → File → Option File
trunc_slot k f = if f.ip.addrs k == 0 then some f else elim (bfree (f.ip.addrs k) f.fs) [
  | none ↦ none
  | some fs ↦ some (record { ip = put_addr f.ip k 0; fs = fs })
]

-- The loop over the direct addresses.
unfoldable pub trunc_direct : ℕ → ℕ → File → Option File
trunc_direct zero i f = some f
trunc_direct (suc rounds) i f = elim (trunc_slot i f) [
  | none ↦ none
  | some g ↦ trunc_direct rounds (suc i) g
]

-- The loop over the entries of the indirect block.
unfoldable pub free_entries : ℕ → ℕ → (ℕ → ℕ) → Fs → Option Fs
free_entries zero j a fs = some fs
free_entries (suc rounds) j a fs = elim (a j == 0) [
  | true ↦ free_entries rounds (suc j) a fs
  | false ↦ elim (bfree (a j) fs) [ none ↦ none | some t ↦ free_entries rounds (suc j) a t ]
]

-- The indirect block, with its entries.
unfoldable pub trunc_indirect : File → Option File
trunc_indirect f =
    if f.ip.addrs ndirect == 0
    then some f
    else elim (free_entries nindirect 0 (λ j. uint_at (f.fs.block (f.ip.addrs ndirect)) (4 * j))
        f.fs) [ none ↦ none | some fs ↦ trunc_slot ndirect (record f { fs = fs }) ]

-- `itrunc`
unfoldable pub itrunc : File → Option File
itrunc f = elim (trunc_direct ndirect 0 f) [
  | none ↦ none
  | some g ↦ elim (trunc_indirect g) [
    | none ↦ none
    | some h ↦
        let empty = record h { ip = record h.ip { size = 0 } } in
        some (record empty { fs = iupdate empty })
  ]
]
