-- ===== src/Walk/Lookup.antt =====
-- What `readi` of xv6/fs.c leaves as it is in the inode in memory.
use oslab.Common.{
  ℕ, zero, suc, ◌+◌, ◌-◌, ◌*◌, ◌/◌, ◌%◌, ◌≡◌, ◌∙◌, refl, sym, ◌&&◌, ◌||◌, Option, none, some, ◌==◌,
  ltb, leb, min, if◌then◌else◌, Bool-cases, inl, inr, bind-some,
}
use mathlib.Core.Option.{some-injective}
use oslab.Common.Int.{ℤ, pos, negsuc}
use oslab.Fs.{bsize, Fs, balloc, log_block}
use oslab.Fs.Inode.{
  Inode, File, Dev, ndirect, nindirect, uint_at, put_uint, put_addr, bmap_slot, bmap_entry, bmap,
  read_from, readi, t_dev, bad_major, uint_max,
}

abbrev pub Kept : Inode → Inode → Type 0
Kept ip old =
    (ip.refs ≡ old.refs) × (ip.dev ≡ old.dev) × (ip.inum ≡ old.inum) × (ip.size ≡ old.size)

pub Kept-then : (x y z : Inode) → Kept y x → Kept z y → Kept z x
Kept-then x y z a b = (b.0 ∙ a.0, b.1 ∙ a.1, b.2 ∙ a.2, b.3 ∙ a.3)

some-Kept : (f : File) (r s : ℕ × File) → Kept r.1.ip f.ip → some r ≡ some s → Kept s.1.ip f.ip
some-Kept f r s kept e = let same : r ≡ s = some-injective r s e in rw same at kept

bmap_slot-Kept : (k : ℕ) (f : File) (r : ℕ × File) → bmap_slot k f ≡ some r → Kept r.1.ip f.ip
unfolding bmap_slot
bmap_slot-Kept k f r e = elim (Bool-cases (f.ip.addrs k == 0)) [
  | inr set ↦ some-Kept f (f.ip.addrs k, f) r (refl, refl, refl, refl) (rw set at e)
  | inl empty ↦
      let next : ℕ × Fs → Option (ℕ × File) =
        λ x. some (x.0, record { ip = put_addr f.ip k x.0; fs = x.1 }) in
      let (x, _, made) = bind-some (balloc f.fs) next r (rw empty at e) in
      some-Kept f (x.0, record { ip = put_addr f.ip k x.0; fs = x.1 }) r (refl, refl, refl, refl)
        made
]

bmap_entry-Kept : (a n : ℕ) (f : File) (r : ℕ × File) → bmap_entry a n f ≡ some r → Kept r.1.ip f.ip
unfolding bmap_entry
bmap_entry-Kept a n f r e = elim (Bool-cases (uint_at (f.fs.block a) (4 * n) == 0)) [
  | inr set ↦
      some-Kept f (uint_at (f.fs.block a) (4 * n), f) r (refl, refl, refl, refl) (rw set at e)
  | inl empty ↦
      let put : ℕ × Fs → ℕ × File =
        λ x. (x.0, record f { fs = log_block x.1 a (put_uint (x.1.block a) (4 * n) x.0) }) in
      let (x, _, made) = bind-some (balloc f.fs) (λ x. some (put x)) r (rw empty at e) in
      some-Kept f (put x) r (refl, refl, refl, refl) made
]

pub bmap-Kept : (n : ℕ) (f : File) (r : ℕ × File) → bmap n f ≡ some r → Kept r.1.ip f.ip
unfolding bmap
bmap-Kept n f r e = elim (Bool-cases (ltb n ndirect)) [
  | inl low ↦ bmap_slot-Kept n f r (rw low at e)
  | inr high ↦ elim (Bool-cases (ltb (n - ndirect) nindirect)) [
    | inr out ↦ cc (rw (high, out) at e)
    | inl entry ↦
        let next : ℕ × File → Option (ℕ × File) = λ x. bmap_entry x.0 (n - ndirect) x.1 in
        let (x, one, two) = bind-some (bmap_slot ndirect f) next r (rw (high, entry) at e) in
        Kept-then f.ip x.1.ip r.1.ip (bmap_slot-Kept ndirect f x one)
          (bmap_entry-Kept x.0 (n - ndirect) x.1 r two)
  ]
]

read_from-Kept :
    (rounds tot off n : ℕ) (dst : ℕ → ℕ) (f : File) (r : (ℕ → ℕ) × File)
    → read_from rounds tot off n dst f ≡ some r
    → Kept r.1.ip f.ip
unfolding read_from
read_from-Kept zero tot off n dst f r e = elim (Bool-cases (ltb tot n)) [
  | inl more ↦ cc (rw more at e)
  | inr all ↦
      let same : (dst, f) ≡ r = some-injective (dst, f) r (rw all at e) in
      rw (sym same) (refl, refl, refl, refl)
]
read_from-Kept (suc rounds) tot off n dst f r e = elim (Bool-cases (ltb tot n)) [
  | inr all ↦
      let same : (dst, f) ≡ r = some-injective (dst, f) r (rw (all, read_from) at e) in
      rw (sym same) (refl, refl, refl, refl)
  | inl more ↦
      let m = min (n - tot) (bsize - off % bsize) in
      let to : ℕ × File → ℕ → ℕ = λ x j.
        if leb tot j && ltb j (tot + m)
        then x.1.fs.block x.0 (off % bsize + (j - tot))
        else dst j in
      let next : ℕ × File → Option ((ℕ → ℕ) × File) =
        λ x. read_from rounds (tot + m) (off + m) n (to x) x.1 in
      let (x, one, two) = bind-some (bmap (off / bsize) f) next r (rw (more, read_from) at e) in
      Kept-then f.ip x.1.ip r.1.ip (bmap-Kept (off / bsize) f x one)
        (read_from-Kept rounds (tot + m) (off + m) n (to x) x.1 r two)
]

pub readi-Kept :
    (devsw : ℕ → Dev) (off n : ℕ) (dst : ℕ → ℕ) (f : File) (r : ℤ × (ℕ → ℕ) × File)
    → readi devsw off n dst f ≡ some r
    → Kept r.2.ip f.ip
unfolding readi
readi-Kept devsw off n dst f r e = elim (Bool-cases (f.ip.type == t_dev)) [
  | inl device ↦ elim (Bool-cases (bad_major f.ip.major)) [
    | inl bad ↦ same (negsuc 0) dst (rw (device, bad) at e)
    | inr good ↦ go (devsw f.ip.major).read (rw (device, good) at e)
  ]
  | inr file ↦ elim (Bool-cases (ltb f.ip.size off || ltb ((off + n) % uint_max) off)) [
    | inl bad ↦ same (negsuc 0) dst (rw (file, bad) at e)
    | inr good ↦
        let m = if ltb f.ip.size ((off + n) % uint_max) then f.ip.size - off else n in
        let next : (ℕ → ℕ) × File → Option (ℤ × (ℕ → ℕ) × File) = λ x. some (pos m, x.0, x.1) in
        let (x, one, two) = bind-some (read_from m 0 off m dst f) next r (rw (file, good) at e) in
        let is : (pos m, x.0, x.1) ≡ r = some-injective _ _ two in
        rw (sym is) (read_from-Kept m 0 off m dst f x one)
  ]
]
  where
    same : (a : ℤ) (b : ℕ → ℕ) → some (a, b, f) ≡ some r → Kept r.2.ip f.ip
    same a b e =
        let is : (a, b, f) ≡ r = some-injective _ _ e in rw (sym is) (refl, refl, refl, refl)

    go :
        (o : Option (ℕ → (ℕ → ℕ) → ℤ × (ℕ → ℕ)))
        → (elim o [
          | none ↦ some (negsuc 0, dst, f)
          | some read ↦ some ((read n dst).0, (read n dst).1, f)
        ])
          ≡ some r
        → Kept r.2.ip f.ip
    go none e =
        let is : (negsuc 0, dst, f) ≡ r = some-injective _ _ e in
        rw (sym is) (refl, refl, refl, refl)
    go (some read) e =
        let is : ((read n dst).0, (read n dst).1, f) ≡ r = some-injective _ _ e in
        rw (sym is) (refl, refl, refl, refl)
