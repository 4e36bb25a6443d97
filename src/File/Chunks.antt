-- ===== src/File/Chunks.antt =====
-- `filewrite` of xv6/file.c: the chunks of a write, one after the other.
use oslab.Common.{
  ℕ, zero, suc, ◌+◌, ◌-◌, ◌%◌, ◌≤◌, ◌<◌, ◌≡◌, ◌≢◌, ◌⊎◌, ◌∙◌, refl, sym, ap, subst, arith, inl, inr,
  ◌&&◌, Option, none, some, ◌==◌, ltb, min, true, false, if◌then◌else◌, ==_refl, Bool-cases, dec_lt,
  le→ltb, fun_ext,
}
use oslab.Common.Int.{ℤ, pos, negsuc}
use oslab.Fs.Inode.{File, Dev, uint_max, t_dev, writei}
use oslab.Fs.Inode.Slots.{IsFile, content}
use oslab.Fs.Inode.Reads.{IsMissing}
use oslab.Fs.Inode.Calls.{max_bytes, Written, WriteEnds, writei-WriteEnds}
use oslab.Walk.{Outcome, done, panic, timeout}
use oslab.File.{FileEntry, fd_inode}
use oslab.File.Inodes.{Answer, calls_pipewrite, answers, chunk, write_chunks, filewrite}

-- What a write of several chunks leaves.
pub record Wrote (meta : ℕ) (off n : ℕ) (src : ℕ → ℕ) (f g : File) : Type 0 where
  pub valid : IsFile meta g
  pub type : g.ip.type ≡ f.ip.type
  pub written : (i : ℕ) → off ≤ i → i < off + n → content g i ≡ src (i - off)
  pub kept : (i : ℕ) → i < max_bytes → (i < off) ⊎ (off + n ≤ i) → content g i ≡ content f i
  pub size : g.ip.size ≡ (if ltb 0 n && ltb f.ip.size (off + n) then off + n else f.ip.size)

Wrote-nothing : (meta off : ℕ) (src : ℕ → ℕ) (f : File) → IsFile meta f → Wrote meta off 0 src f f
Wrote-nothing meta off src f v = record {
  valid = v;
  type = refl;
  written = λ i lo hi. omega (arith, lo, hi);
  kept = λ i lt out. refl;
  size = refl;
}

-- A chunk, and what comes after it.
Wrote-more :
    (meta off m n : ℕ) (src : ℕ → ℕ) (f g h : File)
    → off + (m + n) ≤ max_bytes
    → Written meta off m src f g
    → Wrote meta (off + m) n (λ j. src (m + j)) g h
    → Wrote meta off (m + n) src f h
Wrote-more meta off m n src f g h fits w x = record {
  valid = x.valid;
  type = x.type ∙ w.type;
  written = λ i lo hi. elim (dec_lt i (off + m)) [
    | yes lt ↦ x.kept i (omega arith) (inl lt) ∙ w.written i lo lt
    | no ge ↦ x.written i (omega arith) (omega arith) ∙ ap src (omega arith)
  ];
  kept = λ i lt out. elim out [
    | inl lo ↦ x.kept i lt (inl (omega arith)) ∙ w.kept i lt (inl lo)
    | inr hi ↦ x.kept i lt (inr (omega arith)) ∙ w.kept i lt (inr (omega arith))
  ];
  size = ground (arith, w.size, x.size);
}

-- The ends of `filewrite`: it returns `n` with all bytes written, or it panics where, after `m` of
-- them, a block of the next chunk is missing and too few are free.
abbrev pub ChunkEnds : ℕ → ℕ → ℕ → (ℕ → ℕ) → ℕ → File → Outcome (ℤ × ℕ × File) → Type 0
ChunkEnds meta off len src n f timeout = ⊥
ChunkEnds meta off len src n f panic =
    (m k : ℕ) × (g : File) × (m + k ≤ len) × Wrote meta off m src f g × IsMissing (off + m) k g
ChunkEnds meta off len src n f (done r) =
    (r.0 ≡ pos n) × (r.1 ≡ off + len) × Wrote meta off len src f r.2

ChunkEnds-after :
    (meta off m len n : ℕ) (src : ℕ → ℕ) (f g : File) (r : Outcome (ℤ × ℕ × File))
    → off + (m + len) ≤ max_bytes
    → Written meta off m src f g
    → ChunkEnds meta (off + m) len (λ j. src (m + j)) n g r
    → ChunkEnds meta off (m + len) src n f r
ChunkEnds-after meta off m len n src f g panic fits w (a, k, h, le, x, missing) = (
  m + a,
  k,
  h,
  omega arith,
  Wrote-more meta off m a src f g h (omega arith) w x,
  subst (λ at. IsMissing at k h) (omega arith) missing,
)
ChunkEnds-after meta off m len n src f g timeout fits w x = absurd x
ChunkEnds-after meta off m len n src f g (done r) fits w (a, b, x) =
    (a, omega (arith, b), Wrote-more meta off m len src f g r.2 fits w x)

-- The answers of `filewrite` on an inode.
abbrev pub FileWrites : ℕ → FileEntry → ℕ → (ℕ → ℕ) → File → Answer → Type 0
FileWrites meta e n src f (calls_pipewrite p) = ⊥
FileWrites meta e n src f (answers timeout) = ⊥
FileWrites meta e n src f (answers panic) =
    (e.writable ≡ true) × ChunkEnds meta e.off n src n f panic
FileWrites meta e n src f (answers (done r)) =
    ((e.writable ≡ true) × ChunkEnds meta e.off n src n f (done r))
    ⊎ ((e.writable ≡ false) × (r.0 ≡ negsuc 0) × (r.1 ≡ e.off) × (r.2 ≡ f))

chunks-FileWrites :
    (meta : ℕ) (e : FileEntry) (n : ℕ) (src : ℕ → ℕ) (f : File) (r : Outcome (ℤ × ℕ × File))
    → e.writable ≡ true
    → ChunkEnds meta e.off n src n f r
    → FileWrites meta e n src f (answers r)
chunks-FileWrites meta e n src f panic w h = (w, h)
chunks-FileWrites meta e n src f timeout w h = h
chunks-FileWrites meta e n src f (done r) w h = inl (w, h)

-- The same where the chunk starts at byte `i` of the source.
ChunkEnds-from :
    (meta off i m len n : ℕ) (src : ℕ → ℕ) (f g : File) (r : Outcome (ℤ × ℕ × File))
    → off + (m + len) ≤ max_bytes
    → Written meta off m (λ j. src (i + j)) f g
    → ChunkEnds meta (off + m) len (λ j. src (i + m + j)) n g r
    → ChunkEnds meta off (m + len) (λ j. src (i + j)) n f r
ChunkEnds-from meta off i m len n src f g r fits w h =
    ChunkEnds-after meta off m len n (λ j. src (i + j)) f g r fits w
      (subst (λ s. ChunkEnds meta (off + m) len s n g r)
        (fun_ext {f = λ (j : ℕ). src (i + m + j)} (λ j. ap src (omega arith))) h)

module _ (devsw : ℕ → Dev) (meta : ℕ) (src : ℕ → ℕ) (byte : (i : ℕ) → src i < 256) where
  all_written :
      (i n len off : ℕ) (f : File)
      → n ≡ i + len
      → len ≡ 0
      → IsFile meta f
      → ChunkEnds meta off len
          (λ j. src (i + j))
          n
          f
          (done (if i == n then pos n else negsuc 0, off, f))
  all_written i n len off f e z v =
      let same : i ≡ n = omega arith in
      rw (z, same, ==_refl n) (refl, omega arith, Wrote-nothing meta off (λ j. src (n + j)) f v)

  write_chunks-ChunkEnds :
      (rounds i n len off : ℕ) (f : File)
      → n ≡ i + len
      → len ≤ rounds
      → IsFile meta f
      → f.ip.type ≢ t_dev
      → f.ip.size ≤ max_bytes
      → off ≤ f.ip.size
      → off + len ≤ max_bytes
      → ChunkEnds meta off len (λ j. src (i + j)) n f (write_chunks devsw rounds i n src off f)
  unfolding write_chunks
  write_chunks-ChunkEnds zero i n len off f e enough v file size lo fits =
      rw (le→ltb i n (omega arith)) (all_written i n len off f e (omega arith) v)
  write_chunks-ChunkEnds (suc rounds) i n len off f e enough v file size lo fits =
      elim (Bool-cases (ltb i n)) [
        | inr end ↦ rw (end, write_chunks) (all_written i n len off f e (ground (arith, end)) v)
        | inl more ↦
            rw (more, write_chunks)
              (let k = min (n - i) chunk in
                let part : ℕ → ℕ = λ j. src (i + j) in
                go (write_chunks-ChunkEnds rounds) (ground (arith, more))
                  (writei devsw off k part f)
                  (writei-WriteEnds devsw meta off k part f v file size (omega arith) (ground arith)
                    (λ j. byte (i + j))))
      ]
    where
      go :
          ((i n len off : ℕ) (f : File)
            → n ≡ i + len
            → len ≤ rounds
            → IsFile meta f
            → f.ip.type ≢ t_dev
            → f.ip.size ≤ max_bytes
            → off ≤ f.ip.size
            → off + len ≤ max_bytes
            → ChunkEnds meta off len
                (λ j. src (i + j))
                n
                f
                (write_chunks devsw rounds i n src off f))
          → i < n
          → (w : Option (ℤ × File)) → WriteEnds meta off (min (n - i) chunk) (λ j. src (i + j)) f w
          → ChunkEnds meta off len
              (λ j. src (i + j))
              n
              f
              (elim w [
                | none ↦ panic
                | some (negsuc a, g) ↦ done (negsuc 0, off, g)
                | some (pos k, g) ↦
                    let rest = write_chunks devsw rounds (i + k) n src ((off + k) % uint_max) g in
                    if k == min (n - i) chunk then rest else panic
              ])
      go later lt none (a, missing) = (
        0,
        min (n - i) chunk,
        f,
        ground arith,
        Wrote-nothing meta off (λ j. src (i + j)) f v,
        subst (λ at. IsMissing at (min (n - i) chunk) f) (omega arith) missing,
      )
      go later lt (some (a, g)) (inl (refused, is, same)) = absurd (refused (lo, ground arith))
      go later lt (some (negsuc a, g)) (inr (acc, is, w)) = cc is
      go later lt (some (pos k, g)) (inr (acc, is, w)) =
          let same : k ≡ min (n - i) chunk = cc is in
          let written : Written meta off k (λ j. src (i + j)) f g =
            subst (λ m. Written meta off m (λ j. src (i + j)) f g) (sym same) w in
          let rest =
            later (i + k) n (len - k) (off + k) g (ground arith) (ground arith) written.valid
              (λ device. file (sym written.type ∙ device)) (ground (arith, written.size))
              (ground (arith, written.size)) (ground arith) in
          let after =
            ChunkEnds-from meta off i k (len - k) n src f g
              (write_chunks devsw rounds (i + k) n src (off + k) g) (ground arith) written rest in
          let all : k + (len - k) ≡ len = ground arith in
          let small : (off + k) % uint_max ≡ off + k = omega arith in
          rw (sym same, ==_refl k, small) (rw all at after)

  -- `filewrite` of `n` bytes to an open file on an inode that is not a device, where they fit from the
  -- offset on: the loop ends, and the call returns `n` with the offset moved by `n`, the bytes in the file
  -- and all its other bytes as they were, its size grown to the end of the write, as if they were written
  -- at once. It panics only where a block of a chunk is missing and too few are free; the chunks
  -- before it are then written. A file that is not open for writing gives -1 and nothing changes.
  pub filewrite-FileWrites :
      (e : FileEntry) (ip n : ℕ) (f : File)
      → e.kind ≡ fd_inode ip
      → IsFile meta f
      → f.ip.type ≢ t_dev
      → f.ip.size ≤ max_bytes
      → e.off ≤ f.ip.size
      → e.off + n ≤ max_bytes
      → FileWrites meta e n src f (filewrite devsw e n src f)
  unfolding filewrite
  filewrite-FileWrites e ip n f kind v file size lo fits = elim (Bool-cases e.writable) [
    | inl writes ↦
        let is : filewrite devsw e n src f ≡ answers (write_chunks devsw n 0 n src e.off f) =
          rw (writes, kind) refl in
        subst (FileWrites meta e n src f) (sym is) (
          chunks-FileWrites meta e n src f (write_chunks devsw n 0 n src e.off f) writes (
            subst (λ s. ChunkEnds meta e.off n s n f (write_chunks devsw n 0 n src e.off f))
              (fun_ext {f = λ (j : ℕ). src (0 + j)} (λ j. ap src (omega arith)))
              (write_chunks-ChunkEnds n 0 n n e.off f (omega arith) (omega arith) v file size lo
                fits)))
    | inr closed ↦
        let is : filewrite devsw e n src f ≡ answers (done (negsuc 0, e.off, f)) = rw closed refl in
        subst (FileWrites meta e n src f) (sym is) (inr (closed, refl, refl, refl))
  ]
