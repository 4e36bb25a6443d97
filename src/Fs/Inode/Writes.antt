-- ===== src/Fs/Inode/Writes.antt =====
-- The loop of `writei` of xv6/fs.c.
use oslab.Common.{
  ℕ, zero, suc, ◌+◌, ◌-◌, ◌*◌, ◌/◌, ◌%◌, ◌≤◌, ◌<◌, ◌≡◌, ◌≢◌, ◌∙◌, refl, sym, ap, arith, ◌⊎◌, inl,
  inr, true, false, ◌&&◌, Option, none, some, ltb, leb, min, if◌then◌else◌, ℕ_discrete, dec_lt,
  lt→ltb, le→ltb,
}
use oslab.Fs.{bsize, log_block}
use oslab.Fs.Free.{free}
use oslab.Fs.Inode.{File, bmap, write_from}
use oslab.Fs.Inode.Slots.{slot, IsFile, place, lookup, content}
use oslab.Fs.Inode.Maps.{Keeps, Fills, bmap-Fills, missed_before}
use oslab.Fs.Inode.Data.{Put, put_block, put_block-Put, content_at}
use oslab.Fs.Inode.Reads.{touched, touched_step, IsMissing}

-- The file holds the bytes `src` from `off` to `off + len`, and is as before elsewhere.
pub record Wrote (meta : ℕ) (f : File) (off len : ℕ) (src : ℕ → ℕ) (g : File) : Type 0 where
  pub valid : IsFile meta g
  pub same_ip : (g.ip.size ≡ f.ip.size) × (g.ip.type ≡ f.ip.type) × (g.ip.inum ≡ f.ip.inum)
  pub written : (i : ℕ) → off ≤ i → i < off + len → content g i ≡ src (i - off)
  pub kept : (i : ℕ) → i < 71680 → (i < off) ⊎ (off + len ≤ i) → content g i ≡ content f i
  pub grows : (j : ℕ) → j < 141 → slot f j ≢ 0 → slot g j ≡ slot f j
  pub complete : (i : ℕ) → off ≤ i → i < off + len → lookup g (i / bsize) ≢ 0
  pub room : free f.fs ≤ free g.fs + 2 * touched off len

-- The ends of the loop.
abbrev pub Writes : ℕ → File → ℕ → ℕ → ℕ → (ℕ → ℕ) → Option (ℕ × File) → Type 0
Writes meta f tot off n src none = IsMissing off (n - tot) f
Writes meta f tot off n src (some r) =
    (r.0 ≡ off + (n - tot)) × Wrote meta f off (n - tot) (λ i. src (tot + i)) r.1

-- One round.
abbrev put_bytes : File → ℕ → ℕ → ℕ → ℕ → (ℕ → ℕ) → ℕ → ℕ
put_bytes g b tot off m src j =
    if leb (off % bsize) j && ltb j (off % bsize + m)
    then src (tot + (j - off % bsize))
    else g.fs.block b j

put_bytes_byte :
    (meta : ℕ) (g : File) (b tot off m : ℕ) (src : ℕ → ℕ)
    → IsFile meta g
    → ((i : ℕ) → src i < 256)
    → (j : ℕ) → put_bytes g b tot off m src j < 256
put_bytes_byte meta g b tot off m src v byte j =
    ground (arith, byte (tot + (j - off % bsize)), v.disk.bytes b j)

Writes-after :
    (meta : ℕ) (f g h : File) (tot off n b m : ℕ) (src : ℕ → ℕ) (r : Option (ℕ × File))
    → m ≡ min (n - tot) (bsize - off % bsize)
    → tot < n
    → off + (n - tot) ≤ 71680
    → Keeps meta 2 f g
    → lookup g (off / bsize) ≡ b
    → b ≢ 0
    → Put meta g (off / bsize) (put_bytes g b tot off m src) h
    → Writes meta h (tot + m) (off + m) n src r
    → Writes meta f tot off n src r
Writes-after meta f g h tot off n b m src none m_eq more fits one is ne p w =
    let (few, i, lo, hi, gone) = w in
    (
      omega (arith, few, one.room, p.room, touched_step off tot n m m_eq more),
      i,
      omega (arith, lo),
      omega (arith, hi),
      missed_before meta 2 (place (i / bsize)) f g (ground (arith, hi)) one
          (sym (p.slots (place (i / bsize))) ∙ gone),
    )
Writes-after meta f g h tot off n b m src (some (end, t)) m_eq more fits one is ne p w =
    let outside : (i : ℕ) → i < 71680 → (i < off) ⊎ (off + m ≤ i) → content h i ≡ content f i =
      λ i lt out. elim (ℕ_discrete (i / bsize) (off / bsize)) [
        | no far ↦ p.away i lt far ∙ one.same i lt
        | yes at ↦
            let no_byte : (leb (off % bsize) (i % bsize) && ltb (i % bsize) (off % bsize + m))
                ≡ false =
              ground (arith, out) in
            p.here i at
            ∙ rw no_byte (sym (content_at g i b (ap (lookup g) at ∙ is) ne) ∙ one.same i lt)
      ] in
    (
      w.0 ∙ omega arith,
      record {
        valid = w.1.valid;
        same_ip = (
          w.1.same_ip.0 ∙ p.same_ip.0 ∙ one.same_ip.0,
          w.1.same_ip.1 ∙ p.same_ip.1 ∙ one.same_ip.1,
          w.1.same_ip.2 ∙ p.same_ip.2 ∙ one.same_ip.2,
        );
        written = λ i lo hi. elim (dec_lt i (off + m)) [
          | yes first ↦
              let at : i / bsize ≡ off / bsize = omega arith in
              let byte : (leb (off % bsize) (i % bsize) && ltb (i % bsize) (off % bsize + m))
                  ≡ true =
                ground arith in
              let from : tot + (i % bsize - off % bsize) ≡ tot + (i - off) = omega arith in
              w.1.kept i (omega arith) (inl first) ∙ p.here i at ∙ rw byte (ap src from)
          | no later ↦
              let from : tot + m + (i - (off + m)) ≡ tot + (i - off) = omega arith in
              w.1.written i (omega arith) (omega arith) ∙ ap src from
        ];
        kept = λ i lt out. elim out [
          | inl below ↦ w.1.kept i lt (inl (omega arith)) ∙ outside i lt (inl below)
          | inr above ↦ w.1.kept i lt (inr (omega arith)) ∙ outside i lt (inr (omega arith))
        ];
        grows = λ j lt set.
            let up = one.grows j lt set in
            let same = p.slots j ∙ up in w.1.grows j lt (λ z. set (sym same ∙ z)) ∙ same;
        complete = λ i lo hi z. elim (dec_lt i (off + m)) [
          | yes first ↦
              let block : i / bsize ≡ off / bsize = omega arith in
              let at : lookup g (i / bsize) ≡ lookup g (off / bsize) = ap (lookup g) block in
              let now : lookup h (i / bsize) ≡ b = p.slots (place (i / bsize)) ∙ at ∙ is in
              let up = w.1.grows (place (i / bsize)) (ground (arith, hi)) (λ k. ne (sym now ∙ k)) in
              ne (sym now ∙ sym up ∙ z)
          | no later ↦ w.1.complete i (omega arith) (omega arith) z
        ];
        room = omega (arith, w.1.room, p.room, one.room, touched_step off tot n m m_eq more);
      },
    )

no_bytes :
    (meta tot off n : ℕ) (src : ℕ → ℕ) (f : File)
    → IsFile meta f
    → n ≡ tot
    → Writes meta f tot off n src (some (off, f))
no_bytes meta tot off n src f v e = (
  omega arith,
  record {
    valid = v;
    same_ip = (refl, refl, refl);
    written = λ i lo hi. absurd (omega arith);
    kept = λ i lt out. refl;
    grows = λ j lt set. refl;
    complete = λ i lo hi. absurd (omega arith);
    room = omega arith;
  },
)

pub write_from-Writes :
    (meta : ℕ) (src : ℕ → ℕ)
    → ((i : ℕ) → src i < 256)
    → (rounds tot off n : ℕ) (f : File) → IsFile meta f
    → tot ≤ n
    → n - tot ≤ rounds
    → off + (n - tot) ≤ 71680
    → Writes meta f tot off n src (write_from rounds tot off n src f)
unfolding write_from
write_from-Writes meta src byte zero tot off n f v le enough fits =
    rw (le→ltb tot n (omega arith)) (no_bytes meta tot off n src f v (omega arith))
write_from-Writes meta src byte (suc rounds) tot off n f v le enough fits = elim (dec_lt tot n) [
  | no end ↦
      rw (le→ltb tot n (omega arith), write_from) (no_bytes meta tot off n src f v (omega arith))
  | yes more ↦
      rw (lt→ltb tot n more, write_from)
        (go (write_from-Writes meta src byte rounds) more (bmap (off / bsize) f)
          (bmap-Fills meta (off / bsize) f v (omega arith)))
]
  where
    go :
        ((tot off n : ℕ) (f : File)
          → IsFile meta f
          → tot ≤ n
          → n - tot ≤ rounds
          → off + (n - tot) ≤ 71680
          → Writes meta f tot off n src (write_from rounds tot off n src f))
        → tot < n
        → (r : Option (ℕ × File)) → Fills meta 2 (place (off / bsize)) f r
        → Writes meta f tot off n src (elim r [
          | none ↦ none
          | some (b, g) ↦
              let m = min (n - tot) (bsize - off % bsize) in
              write_from rounds (tot + m) (off + m) n src (record g {
                fs = log_block g.fs b (λ j.
                    if leb (off % bsize) j && ltb j (off % bsize + m)
                    then src (tot + (j - off % bsize))
                    else g.fs.block b j);
              })
        ])
    go rest more none h = (
      omega (arith, h.0, touched_step off tot n (min (n - tot) (bsize - off % bsize)) refl more),
      off,
      omega arith,
      omega arith,
      h.1,
    )
    go rest more (some (b, g)) h =
        let m = min (n - tot) (bsize - off % bsize) in
        let put = put_bytes g b tot off m src in
        let after = put_block g b put in
        let p : Put meta g (off / bsize) put after =
          put_block-Put meta g (off / bsize) b put h.0.valid (omega arith) h.1 h.2
            (λ j. put_bytes_byte meta g b tot off m src h.0.valid byte j) in
        Writes-after meta f g after tot off n b m src
          (write_from rounds (tot + m) (off + m) n src after) refl more fits h.0 h.1 h.2 p
          (rest (tot + m) (off + m) n after p.valid (omega arith) (omega arith) (omega arith))
