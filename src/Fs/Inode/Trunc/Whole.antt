-- ===== src/Fs/Inode/Trunc/Whole.antt =====
-- `itrunc` of xv6/fs.c gives back the blocks of the file, and no others.
use oslab.Common.{
  ℕ, ◌+◌, ◌-◌, ◌<◌, ◌≤◌, ◌≡◌, ◌≢◌, inl, inr, ◌∙◌, refl, sym, ap, arith, false, some, ◌==◌, ltb,
  if◌then◌else◌, ℕ_discrete, dec_lt,
}
use oslab.Fs.{Superblock, Fs, iblock}
use oslab.Fs.Bitmap.{in_use, IsFs}
use oslab.Fs.Inode.{File, iupdate}
use oslab.Fs.Inode.Slots.{slot, slot_low, slot_none, IsFile, place}
use oslab.Fs.Inode.Trunc.{trunc_direct, trunc_indirect, itrunc}
use oslab.Fs.Inode.Trunc.Frees.{Owns, Freed-then}
use oslab.Fs.Inode.Trunc.Ends.{Same, Same-with, Same-trans, Drops, trunc_direct-Drops}
use oslab.Fs.Inode.Calls.{iupdate-IsFile}
use oslab.Fs.Holds.{in_use-log_block}
use oslab.Fs.Inode.Trunc.Indirect.{owned, owned-slot, IsFile-Owns, trunc_indirect-Drops}

abbrev emptied : File → File
emptied h = record h { ip = record h.ip { size = 0 } }

itrunc_steps :
    (f g h : File)
    → trunc_direct 12 0 f ≡ some g
    → trunc_indirect g ≡ some h
    → itrunc f ≡ some (record (emptied h) { fs = iupdate (emptied h) })
unfolding itrunc
itrunc_steps f g h one two = rw (one, two, itrunc) refl

in_use-iupdate :
    (meta : ℕ) (f : File) (j : ℕ)
    → IsFile meta f
    → j < f.fs.sb.size
    → in_use (iupdate f) j ≡ in_use f.fs j
unfolding iupdate
in_use-iupdate meta f j v lt =
    in_use-log_block meta f.fs (iblock f.ip.inum f.fs.sb) _ j v.disk
      (λ b b_lt. v.disk.apart f.ip.inum b v.inode b_lt) lt

-- A file without blocks.
pub record Truncated (meta : ℕ) (f g : File) : Type 0 where
  pub valid : IsFile meta g
  pub same : Same g.ip f.ip
  pub size : g.ip.size ≡ 0
  pub empty : (k : ℕ) → k < 13 → g.ip.addrs k ≡ 0
  pub gone : (k : ℕ) → k < 141 → slot f k ≢ 0 → in_use g.fs (slot f k) ≡ false
  pub kept :
      (b : ℕ)
      → b < f.fs.sb.size
      → ((k : ℕ) → k < 141 → slot f k ≢ b)
      → in_use g.fs b ≡ in_use f.fs b

no_blocks-IsFile :
    (meta : ℕ) (g : File)
    → IsFs meta g.fs
    → g.ip.inum < g.fs.sb.ninodes
    → ((k : ℕ) → k < 13 → g.ip.addrs k ≡ 0)
    → IsFile meta g
no_blocks-IsFile meta g disk inode empty =
    let zero_at : (k : ℕ) → slot g k ≡ 0 = λ k. elim (dec_lt k 13) [
      | yes low ↦ slot_low g k low ∙ empty k low
      | no high ↦ slot_none g k (omega arith) (empty 12 (omega arith))
    ] in
    record {
      disk = disk;
      distinct = λ i j i_lt j_lt ne e. zero_at i;
      holds = λ i lt set. absurd (set (zero_at i));
      inode = inode;
    }

-- Each address of a file is one of its blocks.
slot_gone :
    (f : File) (t : Fs) (k : ℕ)
    → k < 141
    → slot f k ≢ 0
    → ((j : ℕ) → j < 141 → owned f j ≢ 0 → in_use t (owned f j) ≡ false)
    → in_use t (slot f k) ≡ false
slot_gone f t k lt set gone =
    let j : ℕ = if k == 12 then 140 else if ltb k 12 then k else k - 1 in
    let back : (if j == 140 then 12 else place j) ≡ k = ground arith in
    let same : owned f j ≡ slot f k = owned-slot f j ∙ ap (slot f) back in
    ap (in_use t) (sym same) ∙ gone j (ground arith) (λ z. set (sym same ∙ z))

-- `itrunc` of a file whose addresses name different blocks in use past the metadata does not panic. It
-- leaves an inode of size 0 without addresses, whose other fields are as before; the blocks of the file are free,
-- the indirect block included, and every other block of the disk is in use if it was before.
pub itrunc-Truncated :
    (meta : ℕ) (f : File) → IsFile meta f → (g : File) × (itrunc f ≡ some g) × Truncated meta f g
unfolding Drops
itrunc-Truncated meta f v =
    let own = IsFile-Owns meta f v in
    let direct : Owns meta (owned f) 0 12 f.fs = record {
      holds = λ k lo hi. own.holds k lo (omega arith);
      distinct = λ j k j_lo j_hi k_lo k_hi. own.distinct j k j_lo (omega arith) k_lo (omega arith);
    } in
    let is : (j : ℕ) → 0 ≤ j → j < 0 + 12 → owned f j ≡ f.ip.addrs j = λ j lo hi. ground arith in
    let (g, one, freed, same_g, zero_g, kept_g) =
      trunc_direct-Drops meta (owned f) 12 0 f v.disk is direct in
    let at_12 : g.ip.addrs 12 ≡ f.ip.addrs 12 = kept_g 12 (inr (omega arith)) in
    let (h, two, more, same_h, zero_h, kept_h) = trunc_indirect-Drops meta f g v freed at_12 in
    let all =
      Freed-then meta (owned f) 0 12 141 f.fs g.fs h.fs (omega arith) (omega arith) own freed
        more in
    let empty : (k : ℕ) → k < 13 → h.ip.addrs k ≡ 0 = λ k lt. elim (ℕ_discrete k 12) [
      | yes e ↦ zero_h k (omega arith) lt
      | no ne ↦ kept_h k (inl (omega arith)) ∙ zero_g k (omega arith) (omega arith)
    ] in
    let same : Same h.ip f.ip = Same-trans h.ip g.ip f.ip same_h same_g in
    let inode : h.ip.inum < h.fs.sb.ninodes = rw (same.inum, all.same_sb) v.inode in
    let ok = no_blocks-IsFile meta (emptied h) all.valid inode empty in
    let size : h.fs.sb.size ≡ f.fs.sb.size = ap (λ (s : Superblock). s.size) all.same_sb in
    let kept_map : (b : ℕ) → b < f.fs.sb.size → in_use (iupdate (emptied h)) b ≡ in_use h.fs b =
      λ b lt. in_use-iupdate meta (emptied h) b ok (omega arith) in
    (
      record (emptied h) { fs = iupdate (emptied h) },
      itrunc_steps f g h one two,
      record {
        valid = (iupdate-IsFile meta (emptied h) ok).0;
        same = Same-trans (emptied h).ip h.ip f.ip (Same-with h.ip 0 h.ip.addrs) same;
        size = refl;
        empty = empty;
        gone = λ k lt set.
            kept_map (slot f k) (v.holds k lt set).inside
            ∙ slot_gone f h.fs k lt set (λ j j_lt. all.gone j (omega arith) j_lt);
        kept = λ b lt other.
            kept_map b lt
            ∙ all.kept b lt (λ k lo k_lt set e.
              other (if k == 140 then 12 else place k) (ground arith) (sym (owned-slot f k) ∙ e));
      },
    )
