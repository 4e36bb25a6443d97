-- ===== src/Fs/Inode/Calls.antt =====
-- `readi` and `writei` of xv6/fs.c on a file that is not a device.
use oslab.Common.{
  ℕ, ◌+◌, ◌-◌, ◌*◌, ◌/◌, ◌%◌, ◌≤◌, ◌<◌, ◌≡◌, ◌≢◌, ◌⊎◌, ◌∙◌, refl, sym, ap, subst, arith, inl, inr,
  ◌&&◌, ◌||◌, Option, none, some, ◌==◌, ltb, min, if◌then◌else◌, ==_ne, Bool-cases, ℕ_discrete,
  dec_lt,
}
use oslab.Common.Int.{ℤ, pos, negsuc}
use oslab.Fs.{bsize, ipb, iblock}
use oslab.Fs.Free.{free}
use oslab.Fs.Holds.{IsClear, log_block-IsFs, log_block-Holds}
use oslab.Fs.Inode.{
  Inode, File, Dev, maxfile, uint_max, t_dev, dinode_byte, read_from, write_from, iupdate, readi,
  writei,
}
use oslab.Fs.Inode.Slots.{slot, IsFile, place, lookup, content}
use oslab.Fs.Inode.Data.{put_block, slot-put_block, IsFile-same}
use oslab.Fs.Inode.Reads.{IsMissing, Reads, read_from-Reads, touched}
use oslab.Fs.Inode.Writes.{Writes, write_from-Writes}

-- The largest file, in bytes.
abbrev pub max_bytes : ℕ
max_bytes = 71680

abbrev pub Accepts : ℕ → ℕ → File → Type 0
Accepts off n f = (off ≤ f.ip.size) × (off + n ≤ max_bytes)

-- What a call that is accepted leaves.
pub record Written (meta : ℕ) (off n : ℕ) (src : ℕ → ℕ) (f g : File) : Type 0 where
  pub valid : IsFile meta g
  pub type : g.ip.type ≡ f.ip.type
  pub written : (i : ℕ) → off ≤ i → i < off + n → content g i ≡ src (i - off)
  pub kept : (i : ℕ) → i < max_bytes → (i < off) ⊎ (off + n ≤ i) → content g i ≡ content f i
  pub size : g.ip.size ≡ (if ltb 0 n && ltb f.ip.size (off + n) then off + n else f.ip.size)
  pub complete : (i : ℕ) → off ≤ i → i < off + n → lookup g (i / bsize) ≢ 0

-- The ends of `writei`.
abbrev pub WriteEnds : ℕ → ℕ → ℕ → (ℕ → ℕ) → File → Option (ℤ × File) → Type 0
WriteEnds meta off n src f none = Accepts off n f × IsMissing off n f
WriteEnds meta off n src f (some r) =
    (¬ (Accepts off n f) × (r.0 ≡ negsuc 0) × (r.1 ≡ f))
    ⊎ (Accepts off n f × (r.0 ≡ pos n) × Written meta off n src f r.1)

dinode_byte_lt : (ip : Inode) (k : ℕ) → dinode_byte ip k < 256
dinode_byte_lt ip k = ground arith

-- Storing an inode leaves its content and its addresses as they are.
pub iupdate-IsFile :
    (meta : ℕ) (f : File)
    → IsFile meta f
    → IsFile meta (record f { fs = iupdate f })
      × ((j : ℕ) → slot (record f { fs = iupdate f }) j ≡ slot f j)
      × ((i : ℕ) → i < max_bytes → content (record f { fs = iupdate f }) i ≡ content f i)
unfolding iupdate
iupdate-IsFile meta f v =
    let bno = iblock f.ip.inum f.fs.sb in
    let bytes : ℕ → ℕ =
      λ j. if j / 64 == f.ip.inum % ipb then dinode_byte f.ip (j % 64) else f.fs.block bno j in
    let byte : (j : ℕ) → bytes j < 256 =
      λ j. ground (arith, dinode_byte_lt f.ip (j % 64), v.disk.bytes bno j) in
    let g = put_block f bno bytes in
    let ne : (j : ℕ) → j < 141 → slot f j ≢ 0 → bno ≢ slot f j =
      λ j lt set e. omega (arith, v.disk.inodes f.ip.inum v.inode, (v.holds j lt set).past, e) in
    let slots : (j : ℕ) → slot g j ≡ slot f j =
      λ j. slot-put_block f bno bytes j (λ has. ne 12 (omega arith) has) in
    let clear : IsClear f.fs bno = λ j lt. v.disk.apart f.ip.inum j v.inode lt in
    (
      IsFile-same meta f g v (log_block-IsFs meta f.fs bno bytes v.disk clear byte)
          (λ c. log_block-Holds meta f.fs bno c bytes v.disk clear) v.inode slots,
      slots,
      λ i lt.
          let j = place (i / bsize) in
          let j_lt : j < 141 = ground arith in
          elim (ℕ_discrete (slot f j) 0) [
            | yes z ↦ rw (slots j, z) refl
            | no set ↦ rw (slots j, ==_ne bno (slot f j) (ne j j_lt set)) refl
          ],
    )

module _ (devsw : ℕ → Dev) (meta : ℕ) where
  write_done :
      (off n : ℕ) (src : ℕ → ℕ) (f : File) (r : Option (ℕ × File))
      → Accepts off n f
      → Writes meta f 0 off n src r
      → WriteEnds meta off n src f (elim r [
        | none ↦ none
        | some (end, g) ↦
            let grown = record g { ip = record g.ip { size = end } } in
            if ltb 0 n && ltb g.ip.size end
            then some (pos n, record grown { fs = iupdate grown })
            else some (pos n, g)
      ])
  write_done off n src f none a w =
      let all : n - 0 ≡ n = omega arith in (a, subst (λ k. IsMissing off k f) all w)
  write_done off n src f (some (end, g)) a w =
      let all : n - 0 ≡ n = omega arith in
      let from : (i : ℕ) → src (0 + i) ≡ src i = λ i. ap src (omega arith) in
      elim (Bool-cases (ltb 0 n && ltb g.ip.size end)) [
        | inl grows ↦
            let grown = record g { ip = record g.ip { size = end } } in
            let ok =
              IsFile-same meta g grown w.1.valid w.1.valid.disk (λ b h. h) w.1.valid.inode
                (λ j. refl) in
            let up = iupdate-IsFile meta grown ok in
            rw grows (
              inr (
                a,
                refl,
                record {
                  valid = up.0;
                  type = w.1.same_ip.1;
                  written = λ i lo hi.
                      up.2 i (omega (arith, a.1)) ∙ w.1.written i lo (omega arith) ∙ from (i - off);
                  kept = λ i lt out. up.2 i lt ∙ w.1.kept i lt (rw all out);
                  size = ground (arith, grows, w.0, w.1.same_ip.0);
                  complete = λ i lo hi z.
                      w.1.complete i lo (omega arith) (sym (up.1 (place (i / bsize))) ∙ z);
                },
              ))
        | inr keeps ↦ rw keeps (
            inr (
              a,
              refl,
              record {
                valid = w.1.valid;
                type = w.1.same_ip.1;
                written = λ i lo hi. w.1.written i lo (omega arith) ∙ from (i - off);
                kept = λ i lt out. w.1.kept i lt (rw all out);
                size = ground (arith, keeps, w.0, w.1.same_ip.0);
                complete = λ i lo hi. w.1.complete i lo (omega arith);
              },
            ))
      ]

  pub writei-WriteEnds :
      (off n : ℕ) (src : ℕ → ℕ) (f : File)
      → IsFile meta f
      → f.ip.type ≢ t_dev
      → f.ip.size ≤ max_bytes
      → off < uint_max
      → n < uint_max
      → ((i : ℕ) → src i < 256)
      → WriteEnds meta off n src f (writei devsw off n src f)
  unfolding writei
  writei-WriteEnds off n src f v file size off_lt n_lt byte =
      elim (Bool-cases (ltb f.ip.size off || ltb ((off + n) % uint_max) off)) [
        | inl bad ↦
            rw (==_ne f.ip.type t_dev file, bad) (inl (λ a. ground (arith, a, bad), refl, refl))
        | inr ok ↦ elim (Bool-cases (ltb (maxfile * bsize) ((off + n) % uint_max))) [
          | inl big ↦
              rw (==_ne f.ip.type t_dev file, ok, big)
                (inl (λ a. ground (arith, a, ok, big), refl, refl))
          | inr fits ↦
              let a : Accepts off n f = (ground (arith, ok), ground (arith, ok, fits)) in
              rw (==_ne f.ip.type t_dev file, ok, fits)
                (write_done off n src f (write_from n 0 off n src f) a (
                  write_from-Writes meta src byte n 0 off n f v (omega arith) (omega arith)
                    (omega (arith, a.1))))
        ]
      ]

-- The ends of `readi`: `len` bytes are read, those of the file.
abbrev pub ReadEnds : ℕ → ℕ → ℕ → (ℕ → ℕ) → File → Option (ℤ × (ℕ → ℕ) × File) → Type 0
ReadEnds meta off n dst f none = (off ≤ f.ip.size) × IsMissing off (min n (f.ip.size - off)) f
ReadEnds meta off n dst f (some r) =
    (((f.ip.size < off) ⊎ (uint_max ≤ off + n)) × (r.0 ≡ negsuc 0) × (r.1 ≡ dst) × (r.2 ≡ f))
    ⊎ ((off ≤ f.ip.size)
        × (r.0 ≡ pos (min n (f.ip.size - off)))
        × ((j : ℕ) → j < min n (f.ip.size - off) → r.1 j ≡ content f (off + j))
        × ((j : ℕ) → min n (f.ip.size - off) ≤ j → r.1 j ≡ dst j)
        × IsFile meta r.2
        × (r.2.ip.size ≡ f.ip.size)
        × ((i : ℕ) → i < max_bytes → content r.2 i ≡ content f i))

module _ (devsw : ℕ → Dev) (meta : ℕ) where
  read_done :
      (off m : ℕ) (dst : ℕ → ℕ) (f : File) (n : ℕ) (r : Option ((ℕ → ℕ) × File))
      → off ≤ f.ip.size
      → m ≡ min n (f.ip.size - off)
      → Reads meta f 0 off m dst r
      → ReadEnds meta off n dst f
          (elim r [ none ↦ none | some (bytes, g) ↦ some (pos m, bytes, g) ])
  read_done off m dst f n none le e h =
      let all : m - 0 ≡ min n (f.ip.size - off) = omega (arith, e) in
      (le, subst (λ k. IsMissing off k f) all h)
  read_done off m dst f n (some (bytes, g)) le e h = inr (
    le,
    ap pos e,
    λ j lt. h.1 j (omega arith) (omega (arith, e)) ∙ ap (λ i. content f (off + i)) (omega arith),
    λ j ge. h.3 j (omega (arith, e)),
    h.0.valid,
    h.0.same_ip.0,
    h.0.same,
  )

  -- `readi` on a file that is not a device.
  pub readi-ReadEnds :
      (off n : ℕ) (dst : ℕ → ℕ) (f : File)
      → IsFile meta f
      → f.ip.type ≢ t_dev
      → f.ip.size ≤ max_bytes
      → off < uint_max
      → n < uint_max
      → ReadEnds meta off n dst f (readi devsw off n dst f)
  unfolding readi
  readi-ReadEnds off n dst f v file size off_lt n_lt =
      elim (Bool-cases (ltb f.ip.size off || ltb ((off + n) % uint_max) off)) [
        | inl bad ↦
            let why : (f.ip.size < off) ⊎ (uint_max ≤ off + n) = elim (dec_lt f.ip.size off) [
              | yes past ↦ inl past
              | no inside ↦ inr (ground (arith, bad, inside))
            ] in
            rw (==_ne f.ip.type t_dev file, bad) (inl (why, refl, refl, refl))
        | inr ok ↦
            let m = if ltb f.ip.size ((off + n) % uint_max) then f.ip.size - off else n in
            let inside : (off ≤ f.ip.size) × (off + n < uint_max) =
              (ground (arith, ok), ground (arith, ok)) in
            let wide : (off + n) % uint_max ≡ off + n = omega arith in
            let m_eq : m ≡ min n (f.ip.size - off) = ground (arith, wide) in
            rw (==_ne f.ip.type t_dev file, ok)
              (read_done off m dst f n (read_from m 0 off m dst f) inside.0 m_eq (
                read_from-Reads meta m 0 off m dst f v (omega arith) (omega arith)
                  (omega (arith, m_eq))))
      ]

read_back :
    (devsw : ℕ → Dev) (meta off n : ℕ) (src dst : ℕ → ℕ) (f g : File)
    → IsFile meta f
    → f.ip.type ≢ t_dev
    → f.ip.size ≤ max_bytes
    → off < uint_max
    → n < uint_max
    → ((i : ℕ) → src i < 256)
    → writei devsw off n src f ≡ some (pos n, g)
    → (bytes : ℕ → ℕ) × (h : File) × (readi devsw off n dst g ≡ some (pos n, bytes, h))
      × ((j : ℕ) → j < n → bytes j ≡ src j)
read_back devsw meta off n src dst f g v file size off_lt n_lt byte e =
    elim (subst (WriteEnds meta off n src f) e
      (writei-WriteEnds devsw meta off n src f v file size off_lt n_lt byte)) [
        | inl (refused, bad, same) ↦ cc bad
        | inr (a, got, w) ↦ go a w (readi devsw off n dst g) refl (
            readi-ReadEnds devsw meta off n dst g w.valid (λ t. file (sym w.type ∙ t))
              (ground (arith, w.size, a, size)) off_lt n_lt)
      ]
  where
    go :
        Accepts off n f
        → Written meta off n src f g
        → (r : Option (ℤ × (ℕ → ℕ) × File)) → readi devsw off n dst g ≡ r
        → ReadEnds meta off n dst g r
        → (bytes : ℕ → ℕ) × (h : File) × (readi devsw off n dst g ≡ some (pos n, bytes, h))
          × ((j : ℕ) → j < n → bytes j ≡ src j)
    go a w none e h =
        let len : min n (g.ip.size - off) ≡ n = ground (arith, w.size, a) in
        let (few, i, lo, hi, gone) = h.1 in absurd (w.complete i lo (omega (arith, len, hi)) gone)
    go a w (some (r, bytes, h)) e (inl bad) =
        let large : off ≤ g.ip.size = ground (arith, w.size, a) in
        absurd (elim bad.0 [
          | inl past ↦ omega (arith, past, large)
          | inr wraps ↦ omega (arith, wraps, a.1)
        ])
    go a w (some (r, bytes, h)) e (inr ok) =
        let len : min n (g.ip.size - off) ≡ n = ground (arith, w.size, a) in
        (
          bytes,
          h,
          rw (e, ok.1, len) refl,
          λ j lt.
              let from : off + j - off ≡ j = omega arith in
              ok.2 j (omega (arith, len))
              ∙ w.written (off + j) (omega arith) (omega arith)
              ∙ ap src from,
        )

-- What is written is read back. Take a file that is not a device, with at most 71,680 bytes, whose
-- addresses name different blocks in use past the metadata, and a write of `n` bytes at an offset up
-- to its size that stays within 71,680 bytes, with two free blocks for each block that it touches.
-- Then `writei` returns `n`, and `readi` of `n` bytes at the same offset on the file that it leaves
-- returns `n` with the same bytes at the destination. None of the two calls panics.
pub readi-writei :
    (devsw : ℕ → Dev) (meta off n : ℕ) (src dst : ℕ → ℕ) (f : File)
    → IsFile meta f
    → f.ip.type ≢ t_dev
    → f.ip.size ≤ max_bytes
    → Accepts off n f
    → 2 * touched off n ≤ free f.fs
    → ((i : ℕ) → src i < 256)
    → (g : File) × (bytes : ℕ → ℕ) × (h : File) × (writei devsw off n src f ≡ some (pos n, g))
      × (readi devsw off n dst g ≡ some (pos n, bytes, h))
      × ((j : ℕ) → j < n → bytes j ≡ src j)
readi-writei devsw meta off n src dst f v file size a room byte =
    go (writei devsw off n src f) refl (
      writei-WriteEnds devsw meta off n src f v file size (omega (arith, a.1)) (omega (arith, a.1))
        byte)
  where
    go :
        (r : Option (ℤ × File))
        → writei devsw off n src f ≡ r
        → WriteEnds meta off n src f r
        → (g : File) × (bytes : ℕ → ℕ) × (h : File) × (writei devsw off n src f ≡ some (pos n, g))
          × (readi devsw off n dst g ≡ some (pos n, bytes, h))
          × ((j : ℕ) → j < n → bytes j ≡ src j)
    go none e w = absurd (omega (arith, w.1.0, room))
    go (some (r, g)) e (inl bad) = absurd (bad.0 a)
    go (some (r, g)) e (inr ok) =
        let wrote : writei devsw off n src f ≡ some (pos n, g) = rw (e, ok.1) refl in
        let (bytes, h, read, same) =
          read_back devsw meta off n src dst f g v file size (omega (arith, a.1))
            (omega (arith, a.1)) byte wrote in
        (g, bytes, h, wrote, read, same)
