-- ===== src/File.antt =====
-- xv6/file.c: the table of the 100 open files. A file pointer is its place in the table.
pub mod Calls
pub mod Inodes
pub mod Chunks
pub mod Table
mod Tests
use oslab.Common.{
  ℕ, zero, suc, ◌+◌, ◌-◌, Bool, true, false, Option, none, some, ◌==◌, ltb, if◌then◌else◌,
}

abbrev pub nfile : ℕ
nfile = 100

-- The type of `struct file`, with the field that the type selects: the pipe or the inode.
pub data Kind : Type 0 where
  fd_none : Kind
  fd_pipe : ℕ → Kind
  fd_inode : ℕ → Kind

-- `struct file`
pub record FileEntry : Type 0 where
  pub kind : Kind
  pub refs : ℕ
  pub readable : Bool
  pub writable : Bool
  pub off : ℕ

-- `ftable.file`
abbrev pub Table : Type 0
Table = ℕ → FileEntry

abbrev pub put_file : Table → ℕ → FileEntry → Table
put_file t k f i = if i == k then f else t i

-- The loop of `filealloc`.
unfoldable pub find_file : ℕ → ℕ → Table → Option ℕ
find_file zero i t = none
find_file (suc rounds) i t =
    let rest = find_file rounds (suc i) t in if (t i).refs == 0 then some i else rest

-- `filealloc`; `none` is 0.
unfoldable pub filealloc : Table → Option (ℕ × Table)
unfolding find_file
filealloc t = elim (find_file nfile 0 t) [
  | none ↦ none
  | some k ↦ some (k, put_file t k (record (t k) { refs = 1 }))
]

-- `filedup`; `none` is the panic.
unfoldable pub filedup : ℕ → Table → Option Table
filedup k t =
    if ltb (t k).refs 1 then none else some (put_file t k (record (t k) { refs = (t k).refs + 1 }))

-- What `fileclose` does after it has released the lock.
pub data Release : Type 0 where
  nothing : Release
  close_pipe : ℕ → Bool → Release
  put_inode : ℕ → Release

-- `if(ff.type == FD_PIPE) ... else if(ff.type == FD_INODE) ...`
abbrev pub release_of : Kind → Bool → Release
release_of fd_none writable = nothing
release_of (fd_pipe p) writable = close_pipe p writable
release_of (fd_inode ip) writable = put_inode ip

-- `fileclose`; `none` is the panic.
unfoldable pub fileclose : ℕ → Table → Option (Release × Table)
fileclose k t =
    if ltb (t k).refs 1
    then none
    else if ltb 0 ((t k).refs - 1)
    then some (nothing, put_file t k (record (t k) { refs = (t k).refs - 1 }))
    else some (
      release_of (t k).kind (t k).writable,
      put_file t k (record (t k) { refs = 0; kind = fd_none }),
    )
