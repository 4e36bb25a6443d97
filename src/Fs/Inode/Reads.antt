-- ===== src/Fs/Inode/Reads.antt =====
-- The loop of `readi` of xv6/fs.c.
use oslab.Common.{
  ℕ, zero, suc, ◌+◌, ◌-◌, ◌*◌, ◌/◌, ◌%◌, ◌≤◌, ◌<◌, ◌≡◌, ◌≢◌, ◌∙◌, refl, sym, ap, subst, arith, true,
  ◌&&◌, Option, none, some, ◌==◌, ltb, leb, min, if◌then◌else◌, ==_ne, ℕ_discrete, dec_lt, lt→ltb,
  le→ltb,
}
use oslab.Fs.{bsize}
use oslab.Fs.Free.{free}
use oslab.Fs.Inode.{File, bmap, read_from}
use oslab.Fs.Inode.Slots.{IsFile, place, lookup, content}
use oslab.Fs.Inode.Maps.{Keeps, Fills, bmap-Fills, same-Keeps, Keeps-then, missed_before}
use oslab.Fs.Inode.Data.{content_at}

-- How many blocks `len` bytes from `off` on touch.
unfoldable pub touched : ℕ → ℕ → ℕ
touched off len = if len == 0 then 0 else (off + len - 1) / 512 + 1 - off / 512

pub touched_step :
    (off tot n m : ℕ)
    → m ≡ min (n - tot) (bsize - off % bsize)
    → tot < n
    → touched off (n - tot) ≡ touched (off + m) (n - (tot + m)) + 1
unfolding touched
touched_step off tot n m e lt = elim (ℕ_discrete (n - (tot + m)) 0) [
  | yes z ↦ rw (z, ==_ne (n - tot) 0 (λ k. omega arith)) (omega arith)
  | no more ↦ rw (==_ne (n - (tot + m)) 0 more, ==_ne (n - tot) 0 (λ k. omega arith)) (omega arith)
]

-- A byte of a range is missing, and there may be too few free blocks.
abbrev pub IsMissing : ℕ → ℕ → File → Type 0
IsMissing off len f =
    (free f.fs < 2 * touched off len)
    × (i : ℕ) × (off ≤ i)
    × (i < off + len)
    × (lookup f (i / bsize) ≡ 0)

-- The ends of the loop: bytes `tot` to `n` are those of the file from `off` on.
abbrev pub Reads : ℕ → File → ℕ → ℕ → ℕ → (ℕ → ℕ) → Option ((ℕ → ℕ) × File) → Type 0
Reads meta f tot off n dst none = IsMissing off (n - tot) f
Reads meta f tot off n dst (some r) =
    Keeps meta (2 * touched off (n - tot)) f r.1
    × ((j : ℕ) → tot ≤ j → j < n → r.0 j ≡ content f (off + (j - tot)))
    × ((j : ℕ) → j < tot → r.0 j ≡ dst j)
    × ((j : ℕ) → n ≤ j → r.0 j ≡ dst j)

-- One round, and the rounds after it.
Reads-after :
    (meta : ℕ) (f g : File) (tot off n b m : ℕ) (dst : ℕ → ℕ) (r : Option ((ℕ → ℕ) × File))
    → m ≡ min (n - tot) (bsize - off % bsize)
    → tot < n
    → off + (n - tot) ≤ 71680
    → Keeps meta 2 f g
    → lookup g (off / bsize) ≡ b
    → b ≢ 0
    → Reads meta g
        (tot + m)
        (off + m)
        n
        (λ j.
          if leb tot j && ltb j (tot + m) then g.fs.block b (off % bsize + (j - tot)) else dst j)
        r
    → Reads meta f tot off n dst r
Reads-after meta f g tot off n b m dst none m_eq more fits one is ne h =
    let (few, i, lo, hi, gone) = h in
    (
      omega (arith, few, one.room, touched_step off tot n m m_eq more),
      i,
      omega (arith, lo),
      omega (arith, hi),
      missed_before meta 2 (place (i / bsize)) f g (ground (arith, hi)) one gone,
    )
Reads-after meta f g tot off n b m dst (some (bytes, t)) m_eq more fits one is ne h = (
  subst (λ k. Keeps meta k f t) (omega (arith, touched_step off tot n m m_eq more))
      (Keeps-then meta 2 (2 * touched (off + m) (n - (tot + m))) f g t one h.0),
  λ j lo hi. elim (dec_lt j (tot + m)) [
    | yes first ↦
        let inside : (leb tot j && ltb j (tot + m)) ≡ true = ground arith in
        let i = off + (j - tot) in
        let block : i / bsize ≡ off / bsize = omega arith in
        let byte : off % bsize + (j - tot) ≡ i % bsize = omega arith in
        h.2 j first
        ∙ rw (inside) (ap (g.fs.block b) byte)
        ∙ sym (content_at g i b (ap (lookup g) block ∙ is) ne)
        ∙ one.same i (omega arith)
    | no later ↦
        let i : off + m + (j - (tot + m)) ≡ off + (j - tot) = omega arith in
        h.1 j (omega arith) hi ∙ ap (content g) i ∙ one.same (off + (j - tot)) (omega arith)
  ],
  λ j lt. h.2 j (omega arith) ∙ ground arith,
  λ j ge. h.3 j ge ∙ ground arith,
)

no_bytes :
    (meta tot off n : ℕ) (dst : ℕ → ℕ) (f : File)
    → IsFile meta f
    → n ≡ tot
    → Reads meta f tot off n dst (some (dst, f))
no_bytes meta tot off n dst f v e = (
  same-Keeps meta (2 * touched off (n - tot)) f v,
  λ j lo hi. absurd (omega arith),
  λ j lt. refl,
  λ j ge. refl,
)

pub read_from-Reads :
    (meta : ℕ) (rounds tot off n : ℕ) (dst : ℕ → ℕ) (f : File)
    → IsFile meta f
    → tot ≤ n
    → n - tot ≤ rounds
    → off + (n - tot) ≤ 71680
    → Reads meta f tot off n dst (read_from rounds tot off n dst f)
unfolding read_from
read_from-Reads meta zero tot off n dst f v le enough fits =
    rw (le→ltb tot n (omega arith), read_from) (no_bytes meta tot off n dst f v (omega arith))
read_from-Reads meta (suc rounds) tot off n dst f v le enough fits = elim (dec_lt tot n) [
  | no end ↦
      rw (le→ltb tot n (omega arith), read_from) (no_bytes meta tot off n dst f v (omega arith))
  | yes more ↦
      rw (lt→ltb tot n more, read_from)
        (go (read_from-Reads meta rounds) more (bmap (off / bsize) f)
          (bmap-Fills meta (off / bsize) f v (omega arith)))
]
  where
    go :
        ((tot off n : ℕ) (dst : ℕ → ℕ) (f : File)
          → IsFile meta f
          → tot ≤ n
          → n - tot ≤ rounds
          → off + (n - tot) ≤ 71680
          → Reads meta f tot off n dst (read_from rounds tot off n dst f))
        → tot < n
        → (r : Option (ℕ × File)) → Fills meta 2 (place (off / bsize)) f r
        → Reads meta f tot off n dst (elim r [
          | none ↦ none
          | some (b, g) ↦
              let m = min (n - tot) (bsize - off % bsize) in
              read_from rounds
                (tot + m)
                (off + m)
                n
                (λ j.
                  if leb tot j && ltb j (tot + m)
                  then g.fs.block b (off % bsize + (j - tot))
                  else dst j)
                g
        ])
    go rest more none h = (
      omega (arith, h.0, touched_step off tot n (min (n - tot) (bsize - off % bsize)) refl more),
      off,
      omega arith,
      omega arith,
      h.1,
    )
    go rest more (some (b, g)) h =
        let m = min (n - tot) (bsize - off % bsize) in
        let to : ℕ → ℕ = λ j.
          if leb tot j && ltb j (tot + m) then g.fs.block b (off % bsize + (j - tot)) else dst j in
        Reads-after meta f g tot off n b m dst (read_from rounds (tot + m) (off + m) n to g) refl
          more fits h.0 h.1 h.2
          (rest (tot + m) (off + m) n to g h.0.valid (omega arith) (omega arith) (omega arith))
