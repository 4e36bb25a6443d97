-- ===== src/Walk/Stores.antt =====
-- `writei` of xv6/fs.c: what it leaves of the inode it writes.
use oslab.Common.{
  ℕ, zero, suc, ◌+◌, ◌-◌, ◌*◌, ◌/◌, ◌%◌, ◌≡◌, ◌∙◌, sym, ap, ◌&&◌, ◌||◌, Option, none, some, ◌==◌,
  ltb, leb, min, if◌then◌else◌, Bool-cases, inl, inr, bind-some,
}
use mathlib.Core.Option.{some-injective}
use oslab.Common.Int.{ℤ, pos, negsuc}
use oslab.Fs.{bsize, log_block}
use oslab.Fs.Inode.{
  File, Dev, maxfile, uint_max, t_dev, bad_major, bmap, iupdate, write_from, writei,
}
use oslab.Walk.Lookup.{bmap-Kept}

some-refs : (f g : File) → some f ≡ some g → g.ip.refs ≡ f.ip.refs
some-refs f g e = ap (λ (x : File). x.ip.refs) (sym (some-injective f g e))

write_from-refs :
    (rounds tot off n : ℕ) (src : ℕ → ℕ) (f : File) (r : ℕ × File)
    → write_from rounds tot off n src f ≡ some r
    → r.1.ip.refs ≡ f.ip.refs
unfolding write_from
write_from-refs zero tot off n src f r e = elim (Bool-cases (ltb tot n)) [
  | inl more ↦ cc (rw more at e)
  | inr all ↦ ap (λ (x : ℕ × File). x.1.ip.refs) (sym (some-injective (off, f) r (rw all at e)))
]
write_from-refs (suc rounds) tot off n src f r e = elim (Bool-cases (ltb tot n)) [
  | inr all ↦
      ap (λ (x : ℕ × File). x.1.ip.refs)
        (sym (some-injective (off, f) r (rw (all, write_from) at e)))
  | inl more ↦
      let m = min (n - tot) (bsize - off % bsize) in
      let put : ℕ × File → File = λ x. record x.1 {
        fs = log_block x.1.fs x.0 (λ j.
            if leb (off % bsize) j && ltb j (off % bsize + m)
            then src (tot + (j - off % bsize))
            else x.1.fs.block x.0 j);
      } in
      let next : ℕ × File → Option (ℕ × File) =
        λ x. write_from rounds (tot + m) (off + m) n src (put x) in
      let (x, one, two) = bind-some (bmap (off / bsize) f) next r (rw (more, write_from) at e) in
      write_from-refs rounds (tot + m) (off + m) n src (put x) r two
      ∙ (bmap-Kept (off / bsize) f x one).0
]

pub writei-refs :
    (devsw : ℕ → Dev) (off n : ℕ) (src : ℕ → ℕ) (f : File) (r : ℤ × File)
    → writei devsw off n src f ≡ some r
    → r.1.ip.refs ≡ f.ip.refs
unfolding writei
writei-refs devsw off n src f r e = elim (Bool-cases (f.ip.type == t_dev)) [
  | inl device ↦ elim (Bool-cases (bad_major f.ip.major)) [
    | inl bad ↦ same (negsuc 0) (rw (device, bad) at e)
    | inr good ↦ go (devsw f.ip.major).write (rw (device, good) at e)
  ]
  | inr file ↦ elim (Bool-cases (ltb f.ip.size off || ltb ((off + n) % uint_max) off)) [
    | inl bad ↦ same (negsuc 0) (rw (file, bad) at e)
    | inr good ↦ elim (Bool-cases (ltb (maxfile * bsize) ((off + n) % uint_max))) [
      | inl big ↦ same (negsuc 0) (rw (file, good, big) at e)
      | inr fits ↦
          let (x, one, two) =
            bind-some (write_from n 0 off n src f) last r (rw (file, good, fits) at e) in
          last-refs x two ∙ write_from-refs n 0 off n src f x one
    ]
  ]
]
  where
    same : (a : ℤ) → some (a, f) ≡ some r → r.1.ip.refs ≡ f.ip.refs
    same a e = ap (λ (x : ℤ × File). x.1.ip.refs) (sym (some-injective (a, f) r e))

    go :
        (o : Option (ℕ → (ℕ → ℕ) → ℤ))
        → (elim o [ none ↦ some (negsuc 0, f) | some write ↦ some (write n src, f) ]) ≡ some r
        → r.1.ip.refs ≡ f.ip.refs
    go none e = same (negsuc 0) e
    go (some write) e = same (write n src) e

    last : ℕ × File → Option (ℤ × File)
    last x =
        let grown : File = record x.1 { ip = record x.1.ip { size = x.0 } } in
        if ltb 0 n && ltb x.1.ip.size x.0
        then some (pos n, record grown { fs = iupdate grown })
        else some (pos n, x.1)

    last-refs : (x : ℕ × File) → last x ≡ some r → r.1.ip.refs ≡ x.1.ip.refs
    last-refs x e = elim (Bool-cases (ltb 0 n && ltb x.1.ip.size x.0)) [
      | inl grows ↦ ap (λ (y : ℤ × File). y.1.ip.refs) (sym (some-injective _ r (rw grows at e)))
      | inr stays ↦ ap (λ (y : ℤ × File). y.1.ip.refs) (sym (some-injective _ r (rw stays at e)))
    ]
