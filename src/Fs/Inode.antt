-- ===== src/Fs/Inode.antt =====
-- xv6/fs.c: the content of an inode, on the blocks that its addresses name. `none` is a panic.
pub mod Slots
pub mod Fill
pub mod Maps
pub mod Data
pub mod Reads
pub mod Writes
pub mod Calls
pub mod Disk
pub mod Trunc
mod Tests
use oslab.Common.{
  ℕ, zero, suc, ◌+◌, ◌-◌, ◌*◌, ◌/◌, ◌%◌, ◌^◌, Bool, true, false, ◌&&◌, ◌||◌, Option, none, some,
  ◌==◌, ltb, leb, min, if◌then◌else◌,
}
use oslab.Common.Int.{ℤ, pos, negsuc}
use oslab.Fs.{bsize, ipb, Superblock, Fs, log_block, iblock, balloc, bfree}

abbrev pub ndirect : ℕ
ndirect = 12

abbrev pub nindirect : ℕ
nindirect = 128

abbrev pub maxfile : ℕ
maxfile = ndirect + nindirect

-- `struct inode`; the shorts are the 16 bits that they are stored as.
pub record Inode : Type 0 where
  pub dev : ℕ
  pub inum : ℕ
  pub refs : ℕ
  pub valid : Bool
  pub type : ℕ
  pub major : ℕ
  pub minor : ℕ
  pub nlink : ℕ
  pub size : ℕ
  pub addrs : ℕ → ℕ

-- An inode with the disk that holds its content.
pub record File : Type 0 where
  pub ip : Inode
  pub fs : Fs

-- A `uint` of a block, the lowest byte first, and a store to it.
abbrev pub uint_at : (ℕ → ℕ) → ℕ → ℕ
uint_at bytes i = bytes i + 256 * bytes (i + 1) + 65536 * bytes (i + 2) + 16777216 * bytes (i + 3)

abbrev pub put_uint : (ℕ → ℕ) → ℕ → ℕ → ℕ → ℕ
put_uint bytes i v j =
    if j == i
    then v % 256
    else if j == i + 1
    then v / 256 % 256
    else if j == i + 2
    then v / 65536 % 256
    else if j == i + 3
    then v / 16777216 % 256
    else bytes j

abbrev pub put_addr : Inode → ℕ → ℕ → Inode
put_addr ip k b = record ip { addrs = λ j. if j == k then b else ip.addrs j }

-- `if((addr = ip->addrs[k]) == 0) ip->addrs[k] = addr = balloc(ip->dev)`
unfoldable pub bmap_slot : ℕ → File → Option (ℕ × File)
bmap_slot k f =
    if f.ip.addrs k == 0
    then elim (balloc f.fs) [
      | none ↦ none
      | some (b, fs) ↦ some (b, record { ip = put_addr f.ip k b; fs = fs })
    ]
    else some (f.ip.addrs k, f)

-- The entry `bn` of the indirect block `addr`.
unfoldable pub bmap_entry : ℕ → ℕ → File → Option (ℕ × File)
bmap_entry addr bn f =
    if uint_at (f.fs.block addr) (4 * bn) == 0
    then elim (balloc f.fs) [
      | none ↦ none
      | some (b, fs) ↦
          some (b, record f { fs = log_block fs addr (put_uint (fs.block addr) (4 * bn) b) })
    ]
    else some (uint_at (f.fs.block addr) (4 * bn), f)

-- `bmap`
unfoldable pub bmap : ℕ → File → Option (ℕ × File)
unfolding bmap_slot bmap_entry
bmap bn f =
    if ltb bn ndirect
    then bmap_slot bn f
    else if ltb (bn - ndirect) nindirect
    then elim (bmap_slot ndirect f) [
      | none ↦ none
      | some (addr, g) ↦ bmap_entry addr (bn - ndirect) g
    ]
    else none

-- The loop of `readi`: `dst` is the destination's bytes from its start on.
unfoldable pub read_from : ℕ → ℕ → ℕ → ℕ → (ℕ → ℕ) → File → Option ((ℕ → ℕ) × File)
unfolding bmap
read_from zero tot off n dst f = if ltb tot n then none else some (dst, f)
read_from (suc rounds) tot off n dst f = elim (ltb tot n) [
  | false ↦ some (dst, f)
  | true ↦ elim (bmap (off / bsize) f) [
    | none ↦ none
    | some (b, g) ↦
        let m = min (n - tot) (bsize - off % bsize) in
        read_from rounds (tot + m) (off + m) n
          (λ j.
            if leb tot j && ltb j (tot + m) then g.fs.block b (off % bsize + (j - tot)) else dst j)
          g
  ]
]

-- The loop of `writei`.
unfoldable pub write_from : ℕ → ℕ → ℕ → ℕ → (ℕ → ℕ) → File → Option (ℕ × File)
unfolding bmap
write_from zero tot off n src f = if ltb tot n then none else some (off, f)
write_from (suc rounds) tot off n src f = elim (ltb tot n) [
  | false ↦ some (off, f)
  | true ↦ elim (bmap (off / bsize) f) [
    | none ↦ none
    | some (b, g) ↦
        let m = min (n - tot) (bsize - off % bsize) in
        write_from rounds (tot + m) (off + m) n src (record g {
          fs = log_block g.fs b (λ j.
              if leb (off % bsize) j && ltb j (off % bsize + m)
              then src (tot + (j - off % bsize))
              else g.fs.block b j);
        })
  ]
]

-- `struct dinode` in its 64 bytes.
abbrev pub dinode_byte : Inode → ℕ → ℕ
dinode_byte ip k =
    if k == 0
    then ip.type % 256
    else if k == 1
    then ip.type / 256 % 256
    else if k == 2
    then ip.major % 256
    else if k == 3
    then ip.major / 256 % 256
    else if k == 4
    then ip.minor % 256
    else if k == 5
    then ip.minor / 256 % 256
    else if k == 6
    then ip.nlink % 256
    else if k == 7
    then ip.nlink / 256 % 256
    else if ltb k 12
    then put_uint (λ j. 0) 8 ip.size k
    else put_uint (λ j. 0) (k / 4 * 4) (ip.addrs (k / 4 - 3)) k

-- `iupdate`
unfoldable pub iupdate : File → Fs
iupdate f =
    let bno = iblock f.ip.inum f.fs.sb in
    log_block f.fs bno
      (λ j. if j / 64 == f.ip.inum % ipb then dinode_byte f.ip (j % 64) else f.fs.block bno j)

abbrev pub short_at : (ℕ → ℕ) → ℕ → ℕ
short_at bytes i = bytes i + 256 * bytes (i + 1)

-- `ilock`, the fields that it reads from the disk; `none` is the panic, and the sleep lock is not here.
unfoldable pub ilock : File → Option Inode
ilock f =
    let at = f.ip.inum % ipb * 64 in
    let bytes = f.fs.block (iblock f.ip.inum f.fs.sb) in
    if f.ip.refs == 0
    then none
    else if f.ip.valid
    then some f.ip
    else if short_at bytes at == 0
    then none
    else some (record f.ip {
      type = short_at bytes at;
      major = short_at bytes (at + 2);
      minor = short_at bytes (at + 4);
      nlink = short_at bytes (at + 6);
      size = uint_at bytes (at + 8);
      addrs = λ k. uint_at bytes (at + 12 + 4 * k);
      valid = true;
    })

-- `uint` arithmetic
abbrev pub uint_max : ℕ
uint_max = 2 ^ 32

abbrev pub t_dev : ℕ
t_dev = 3

abbrev pub ndev : ℕ
ndev = 10

-- `struct devsw`: the functions of a device, where it has them; `read` gives what it returns and the destination's bytes.
pub record Dev : Type 0 where
  pub read : Option (ℕ → (ℕ → ℕ) → ℤ × (ℕ → ℕ))
  pub write : Option (ℕ → (ℕ → ℕ) → ℤ)

-- `ip->major < 0 || ip->major >= NDEV`
abbrev pub bad_major : ℕ → Bool
bad_major major = leb 32768 major || leb ndev major

module _ (devsw : ℕ → Dev) where
  -- `readi`, with the destination's bytes after it
  unfoldable pub readi : ℕ → ℕ → (ℕ → ℕ) → File → Option (ℤ × (ℕ → ℕ) × File)
  unfolding read_from
  readi off n dst f =
      if f.ip.type == t_dev
      then if bad_major f.ip.major then some (negsuc 0, dst, f) else elim (devsw f.ip.major).read [
        | none ↦ some (negsuc 0, dst, f)
        | some read ↦ some ((read n dst).0, (read n dst).1, f)
      ]
      else if ltb f.ip.size off || ltb ((off + n) % uint_max) off
      then some (negsuc 0, dst, f)
      else let m = if ltb f.ip.size ((off + n) % uint_max) then f.ip.size - off else n in
        elim (read_from m 0 off m dst f) [ none ↦ none | some (bytes, g) ↦ some (pos m, bytes, g) ]

  -- `writei`
  unfoldable pub writei : ℕ → ℕ → (ℕ → ℕ) → File → Option (ℤ × File)
  unfolding write_from iupdate
  writei off n src f =
      if f.ip.type == t_dev
      then if bad_major f.ip.major then some (negsuc 0, f) else elim (devsw f.ip.major).write [
        | none ↦ some (negsuc 0, f)
        | some write ↦ some (write n src, f)
      ]
      else if ltb f.ip.size off || ltb ((off + n) % uint_max) off
      then some (negsuc 0, f)
      else if ltb (maxfile * bsize) ((off + n) % uint_max)
      then some (negsuc 0, f)
      else elim (write_from n 0 off n src f) [
        | none ↦ none
        | some (end, g) ↦
            let grown = record g { ip = record g.ip { size = end } } in
            if ltb 0 n && ltb g.ip.size end
            then some (pos n, record grown { fs = iupdate grown })
            else some (pos n, g)
      ]
