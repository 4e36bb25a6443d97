-- ===== src/Walk.antt =====
-- xv6/fs.c: `dirlookup`, `dirlink` and `namex` over the inode cache. A call ends with a result, with a panic, or,
-- in the model only, with its fuel used up.
pub mod Lookup
pub mod Refs
pub mod Holds
pub mod Stores
pub mod Link
pub mod Path
mod Tests
use oslab.Common.{
  ℕ, zero, suc, ◌+◌, ◌-◌, Bool, true, false, not, ◌&&◌, Option, none, some, List, [], ◌∷◌, ◌==◌,
  ltb, if◌then◌else◌, get_or, length,
}
use oslab.Common.Int.{ℤ, pos, negsuc}
use oslab.Bytes.{strncmp}
use oslab.Fs.{Fs}
use oslab.Fs.Inode.{Inode, File, Dev, short_at, ilock, readi}
use oslab.Fs.Icache.{Icache, put_inode, iget, idup, iput}
use oslab.Path.{slash, dirsiz, skipelem}

pub data Outcome (A : Type 0) : Type 0 where
  done : A → Outcome A
  panic : Outcome A
  timeout : Outcome A

abbrev pub t_dir : ℕ
t_dir = 1

-- An inode of the cache with the disk, and back.
abbrev pub file_at : Icache → ℕ → File
file_at c k = record { ip = c.inode k; fs = c.fs }

abbrev pub put_back : Icache → ℕ → File → Icache
put_back c k f = put_inode (record c { fs = f.fs }) k f.ip

abbrev pub is_pos : ℕ → ℤ → Bool
is_pos n (pos m) = m == n
is_pos n (negsuc m) = false

-- `namecmp(name, de.name) == 0`, with the entry's bytes behind those of the name.
abbrev pub same_name : List ℕ → (ℕ → ℕ) → Bool
same_name name de =
    is_pos 0 (
      strncmp (λ a. if ltb a dirsiz then get_or name a 0 else de (2 + (a - dirsiz))) 0 dirsiz
        dirsiz)

-- `iput(ip); return 0;`
unfoldable pub put_none : ℕ → List ℕ → Icache → Outcome (Option ℕ × List ℕ × Icache)
put_none k name c = elim (iput k c) [ none ↦ panic | some d ↦ done (none, name, d) ]

abbrev pub is_end : List ℕ → Bool
is_end [] = true
is_end (c ∷ path) = false

abbrev pub starts_slash : List ℕ → Bool
starts_slash [] = false
starts_slash (c ∷ path) = c == slash

module _ (devsw : ℕ → Dev) where
  -- The loop of `dirlookup`: the inode's pointer with the offset of the entry, or none for 0.
  unfoldable pub lookup_from : ℕ → ℕ → ℕ → List ℕ → Icache → Outcome (Option (ℕ × ℕ) × Icache)
  lookup_from zero off k name c = if ltb off (c.inode k).size then timeout else done (none, c)
  lookup_from (suc rounds) off k name c = elim (ltb off (c.inode k).size) [
    | false ↦ done (none, c)
    | true ↦ elim (readi devsw off 16 (λ j. 0) (file_at c k)) [
      | none ↦ panic
      | some (r, de, f) ↦
          let d = put_back c k f in
          let rest = lookup_from rounds (off + 16) k name d in
          if not (is_pos 16 r)
          then panic
          else if short_at de 0 == 0
          then rest
          else if same_name name de
          then elim (iget (d.inode k).dev (short_at de 0) d) [
            | none ↦ panic
            | some (j, e) ↦ done (some (j, off), e)
          ]
          else rest
    ]
  ]

  -- `dirlookup`
  unfoldable pub dirlookup : ℕ → List ℕ → Icache → Outcome (Option (ℕ × ℕ) × Icache)
  dirlookup k name c =
      if (c.inode k).type == t_dir then lookup_from (c.inode k).size 0 k name c else panic

  -- The loop of `namex`: the inode's pointer or none for 0, and what is in `name`.
  unfoldable pub namex_from :
      ℕ → Bool → List ℕ → List ℕ → ℕ → Icache → Outcome (Option ℕ × List ℕ × Icache)
  namex_from zero parent path name k c = timeout
  namex_from (suc rounds) parent path name k c = elim (skipelem path) [
    | none ↦ if parent then put_none k name c else done (some k, name, c)
    | some (element, rest) ↦ elim (ilock (file_at c k)) [
      | none ↦ panic
      | some ip ↦
          let d = put_inode c k ip in
          if not (ip.type == t_dir)
          then put_none k element d
          else if parent && is_end rest
          then done (some k, element, d)
          else elim (dirlookup k element d) [
            | panic ↦ panic
            | timeout ↦ timeout
            | done (none, e) ↦ put_none k element e
            | done (some (j, off), e) ↦ elim (iput k e) [
              | none ↦ panic
              | some g ↦ namex_from rounds parent rest element j g
            ]
          ]
    ]
  ]

  -- `namex`, with the working directory of the process
  unfoldable pub namex : Bool → List ℕ → ℕ → Icache → Outcome (Option ℕ × List ℕ × Icache)
  namex parent path cwd c =
      let rounds = suc (length path) in
      if starts_slash path
      then elim (iget 1 1 c) [ none ↦ panic | some (k, d) ↦ namex_from rounds parent path [] k d ]
      else namex_from rounds parent path [] cwd (idup cwd c)

  -- `namei`
  unfoldable pub namei : List ℕ → ℕ → Icache → Outcome (Option ℕ × List ℕ × Icache)
  namei path cwd c = namex false path cwd c

  -- `nameiparent`
  unfoldable pub nameiparent : List ℕ → ℕ → Icache → Outcome (Option ℕ × List ℕ × Icache)
  nameiparent path cwd c = namex true path cwd c
