-- ===== src/Fs/Inode/Disk.antt =====
-- `iupdate` and `ilock` of xv6/fs.c: an inode on the disk.
use oslab.Common.{
  ℕ, ◌+◌, ◌-◌, ◌*◌, ◌/◌, ◌%◌, ◌<◌, ◌≡◌, ◌≢◌, ◌∙◌, refl, sym, ap, arith, true, false, some, ◌==◌,
  ==_refl, ==_ne, ℕ_discrete,
}
use oslab.Fs.{ipb, iblock}
use oslab.Fs.Inode.{Inode, File, uint_at, put_uint, short_at, dinode_byte, iupdate, ilock}

-- The fields fit the sizes that they have on the disk.
pub record Fits (ip : Inode) : Type 0 where
  pub type : ip.type < 65536
  pub major : ip.major < 65536
  pub minor : ip.minor < 65536
  pub nlink : ip.nlink < 65536
  pub size : ip.size < 4294967296
  pub addrs : (k : ℕ) → k < 13 → ip.addrs k < 4294967296

-- Two inodes agree in all that the disk holds.
pub record Agrees (x y : Inode) : Type 0 where
  pub type : x.type ≡ y.type
  pub major : x.major ≡ y.major
  pub minor : x.minor ≡ y.minor
  pub nlink : x.nlink ≡ y.nlink
  pub size : x.size ≡ y.size
  pub addrs : (k : ℕ) → k < 13 → x.addrs k ≡ y.addrs k

dinode_addr :
    (ip : Inode) (k r : ℕ)
    → r < 4
    → dinode_byte ip (12 + 4 * k + r) ≡ put_uint (λ j. 0) (12 + 4 * k) (ip.addrs k) (12 + 4 * k + r)
dinode_addr ip k r lt =
    let word : (12 + 4 * k + r) / 4 * 4 ≡ 12 + 4 * k = omega arith in
    let index : (12 + 4 * k + r) / 4 - 3 ≡ k = omega arith in
    ground (arith, word, index, ap ip.addrs index)

module _ (f : File) where
  abbrev at : ℕ
  at = f.ip.inum % ipb * 64

  abbrev bytes : ℕ → ℕ
  bytes = (iupdate f).block (iblock f.ip.inum f.fs.sb)

  stored : (k : ℕ) → k < 64 → bytes (at + k) ≡ dinode_byte f.ip k
  unfolding iupdate
  stored k lt =
      let row : (at + k) / 64 ≡ f.ip.inum % ipb = omega arith in
      let col : (at + k) % 64 ≡ k = omega arith in
      rw (==_refl (iblock f.ip.inum f.fs.sb), row, ==_refl (f.ip.inum % ipb), col) refl

  stored_at : (j k : ℕ) → j ≡ at + k → k < 64 → bytes j ≡ dinode_byte f.ip k
  stored_at j k e lt = ap bytes e ∙ stored k lt

  short_stored :
      (i v : ℕ)
      → i < 8
      → v < 65536
      → dinode_byte f.ip i ≡ v % 256
      → dinode_byte f.ip (i + 1) ≡ v / 256 % 256
      → short_at bytes (at + i) ≡ v
  short_stored i v i_lt v_lt low high = omega (
    arith,
    low,
    high,
    stored i (omega arith),
    stored_at (at + i + 1) (i + 1) (omega arith) (omega arith),
  )

  uint_stored :
      (i v : ℕ)
      → i < 61
      → v < 4294967296
      → ((r : ℕ) → r < 4 → dinode_byte f.ip (i + r) ≡ put_uint (λ j. 0) i v (i + r))
      → uint_at bytes (at + i) ≡ v
  uint_stored i v i_lt v_lt is =
      let byte : (r : ℕ) → r < 4 → bytes (at + i + r) ≡ put_uint (λ j. 0) i v (i + r) =
        λ r lt. stored_at (at + i + r) (i + r) (omega arith) (omega arith) ∙ is r lt in
      let b0 : bytes (at + i) ≡ v % 256 =
        ap bytes (omega arith) ∙ byte 0 (omega arith) ∙ ground arith in
      let b1 : bytes (at + i + 1) ≡ v / 256 % 256 = byte 1 (omega arith) ∙ ground arith in
      let b2 : bytes (at + i + 2) ≡ v / 65536 % 256 = byte 2 (omega arith) ∙ ground arith in
      let b3 : bytes (at + i + 3) ≡ v / 16777216 % 256 = byte 3 (omega arith) ∙ ground arith in
      omega (arith, b0, b1, b2, b3)

-- What `ilock` reads.
abbrev read_entry : File → Inode → Inode
read_entry f entry = record entry {
  type = short_at (bytes f) (at f);
  major = short_at (bytes f) (at f + 2);
  minor = short_at (bytes f) (at f + 4);
  nlink = short_at (bytes f) (at f + 6);
  size = uint_at (bytes f) (at f + 8);
  addrs = λ k. uint_at (bytes f) (at f + 12 + 4 * k);
  valid = true;
}

read_entry-Agrees : (f : File) (entry : Inode) → Fits f.ip → Agrees (read_entry f entry) f.ip
read_entry-Agrees f entry fits = record {
  type =
      ap (short_at (bytes f)) (omega arith)
      ∙ short_stored f 0 f.ip.type (omega arith) fits.type refl refl;
  major = short_stored f 2 f.ip.major (omega arith) fits.major refl refl;
  minor = short_stored f 4 f.ip.minor (omega arith) fits.minor refl refl;
  nlink = short_stored f 6 f.ip.nlink (omega arith) fits.nlink refl refl;
  size = uint_stored f 8 f.ip.size (omega arith) fits.size (λ r lt. ground arith);
  addrs = λ k lt.
      ap (uint_at (bytes f)) (omega arith)
      ∙ uint_stored f (12 + 4 * k) (f.ip.addrs k) (omega arith) (fits.addrs k lt)
          (λ r r_lt. dinode_addr f.ip k r r_lt);
}

iupdate_sb : (f : File) → (iupdate f).sb ≡ f.fs.sb
unfolding iupdate
iupdate_sb f = refl

ilock_reads :
    (f : File) (entry : Inode)
    → Fits f.ip
    → f.ip.type ≢ 0
    → entry.inum ≡ f.ip.inum
    → entry.valid ≡ false
    → entry.refs ≢ 0
    → ilock (record { ip = entry; fs = iupdate f }) ≡ some (read_entry f entry)
unfolding ilock
ilock_reads f entry fits file same unread held =
    let has : (short_at (bytes f) (at f) == 0) ≡ false =
      ==_ne (short_at (bytes f) (at f)) 0
        (λ z. file (sym (read_entry-Agrees f entry fits).type ∙ z)) in
    rw (same, iupdate_sb f, ==_ne entry.refs 0 held, unread, has) refl

iupdate_other :
    (f : File) (i k : ℕ)
    → i ≢ f.ip.inum
    → k < 64
    → (iupdate f).block (iblock i f.fs.sb) (i % ipb * 64 + k)
      ≡ f.fs.block (iblock i f.fs.sb) (i % ipb * 64 + k)
unfolding iupdate
iupdate_other f i k ne lt = elim (ℕ_discrete (iblock f.ip.inum f.fs.sb) (iblock i f.fs.sb)) [
  | no far ↦ rw (==_ne (iblock f.ip.inum f.fs.sb) (iblock i f.fs.sb) far) refl
  | yes near ↦
      let row : ((i % ipb * 64 + k) / 64 == f.ip.inum % ipb) ≡ false =
        ==_ne ((i % ipb * 64 + k) / 64) (f.ip.inum % ipb) (λ e. ne (omega arith)) in
      rw (near, ==_refl (iblock i f.fs.sb), row) refl
]

-- An inode goes to the disk and comes back. If its fields fit their sizes and its type is not 0, then
-- after `iupdate`, `ilock` of a cache entry for the same inode that has not been read yet, and that is
-- referenced, does not panic and reads the type, the device numbers, the number of links, the size and
-- the 13 addresses that were stored; and the 64 bytes of every other inode are as before.
pub ilock-iupdate :
    (f : File) (entry : Inode)
    → Fits f.ip
    → f.ip.type ≢ 0
    → entry.inum ≡ f.ip.inum
    → entry.valid ≡ false
    → entry.refs ≢ 0
    → ((ip : Inode) × (ilock (record { ip = entry; fs = iupdate f }) ≡ some ip) × Agrees ip f.ip)
      × ((i k : ℕ)
          → i ≢ f.ip.inum
          → k < 64
          → (iupdate f).block (iblock i f.fs.sb) (i % ipb * 64 + k)
            ≡ f.fs.block (iblock i f.fs.sb) (i % ipb * 64 + k))
ilock-iupdate f entry fits file same unread held = (
  (
    read_entry f entry,
    ilock_reads f entry fits file same unread held,
    read_entry-Agrees f entry fits,
  ),
  iupdate_other f,
)
