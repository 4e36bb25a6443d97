-- ===== src/Fs/Inode/Data.antt =====
-- A write to a block of a file's content, in xv6/fs.c.
use oslab.Common.{
  ℕ, ◌/◌, ◌%◌, ◌<◌, ◌≡◌, ◌≢◌, ◌∙◌, refl, sym, ap, subst, arith, ==_refl, ==_ne, ℕ_discrete, dec_lt,
}
use oslab.Fs.{bsize, log_block}
use oslab.Fs.Bitmap.{IsFs}
use oslab.Fs.Holds.{Holds, past-IsClear, log_block-IsFs, log_block-Holds}
use oslab.Fs.Free.{free, log_block-free}
use oslab.Fs.Inode.{File}
use oslab.Fs.Inode.Slots.{slot, slot_low, slot_none, slot_some, IsFile, place, lookup, content}

pub content_at :
    (f : File) (i b : ℕ) → lookup f (i / bsize) ≡ b → b ≢ 0 → content f i ≡ f.fs.block b (i % bsize)
content_at f i b is ne = rw (is, ==_ne b 0 ne) refl

abbrev pub put_block : File → ℕ → (ℕ → ℕ) → File
put_block f b bytes = record f { fs = log_block f.fs b bytes }

-- A write to any block but the indirect one leaves the addresses as they are.
pub slot-put_block :
    (f : File) (b : ℕ) (bytes : ℕ → ℕ) (j : ℕ)
    → (f.ip.addrs 12 ≢ 0 → b ≢ f.ip.addrs 12)
    → slot (put_block f b bytes) j ≡ slot f j
slot-put_block f b bytes j ne = elim (dec_lt j 13) [
  | yes low ↦ slot_low (put_block f b bytes) j low ∙ sym (slot_low f j low)
  | no high ↦ elim (ℕ_discrete (f.ip.addrs 12) 0) [
    | yes z ↦
        slot_none (put_block f b bytes) j (omega arith) z ∙ sym (slot_none f j (omega arith) z)
    | no has ↦
        slot_some (put_block f b bytes) j (f.ip.addrs 12) (omega arith) refl has
        ∙ rw (==_ne b (f.ip.addrs 12) (ne has))
            (sym (slot_some f j (f.ip.addrs 12) (omega arith) refl has))
  ]
]

-- A file whose addresses are those of a well-formed one.
pub IsFile-same :
    (meta : ℕ) (f g : File)
    → IsFile meta f
    → IsFs meta g.fs
    → ((b : ℕ) → Holds meta f.fs b → Holds meta g.fs b)
    → g.ip.inum < g.fs.sb.ninodes
    → ((j : ℕ) → slot g j ≡ slot f j)
    → IsFile meta g
IsFile-same meta f g v disk keeps inode same = record {
  disk = disk;
  distinct = λ i j i_lt j_lt ne e. same i ∙ v.distinct i j i_lt j_lt ne (sym (same i) ∙ e ∙ same j);
  holds = λ i i_lt set.
      subst (Holds meta g.fs) (sym (same i))
        (keeps (slot f i) (v.holds i i_lt (λ z. set (same i ∙ z))));
  inode = inode;
}

-- What a write to block `bn` of the file gives.
pub record Put (meta : ℕ) (f : File) (bn : ℕ) (bytes : ℕ → ℕ) (g : File) : Type 0 where
  pub valid : IsFile meta g
  pub same_ip : (g.ip.size ≡ f.ip.size) × (g.ip.type ≡ f.ip.type) × (g.ip.inum ≡ f.ip.inum)
  pub slots : (j : ℕ) → slot g j ≡ slot f j
  pub here : (i : ℕ) → i / bsize ≡ bn → content g i ≡ bytes (i % bsize)
  pub away : (i : ℕ) → i < 71680 → i / bsize ≢ bn → content g i ≡ content f i
  pub room : free g.fs ≡ free f.fs

pub put_block-Put :
    (meta : ℕ) (f : File) (bn b : ℕ) (bytes : ℕ → ℕ)
    → IsFile meta f
    → bn < 140
    → lookup f bn ≡ b
    → b ≢ 0
    → ((i : ℕ) → bytes i < 256)
    → Put meta f bn bytes (put_block f b bytes)
put_block-Put meta f bn b bytes v bn_lt is ne byte =
    let g = put_block f b bytes in
    let k_lt : place bn < 141 = ground arith in
    let k_ne : place bn ≢ 12 = ground arith in
    let mine : Holds meta f.fs b =
      subst (Holds meta f.fs) is (v.holds (place bn) k_lt (λ z. ne (sym is ∙ z))) in
    let clear = past-IsClear meta f.fs b v.disk mine.past in
    let other : (j : ℕ) → j < 141 → j ≢ place bn → b ≢ slot f j =
      λ j lt j_ne e. ne (e ∙ v.distinct j (place bn) lt k_lt j_ne (sym e ∙ sym is)) in
    let slots : (j : ℕ) → slot g j ≡ slot f j = λ j. slot-put_block f b bytes j (λ has e.
      other 12 (omega arith) (λ z. k_ne (sym z)) (e ∙ sym (slot_low f 12 (omega arith)))) in
    record {
      valid =
          IsFile-same meta f g v (log_block-IsFs meta f.fs b bytes v.disk clear byte)
            (λ c. log_block-Holds meta f.fs b c bytes v.disk clear) v.inode slots;
      same_ip = (refl, refl, refl);
      slots = slots;
      here = λ i at.
          let now : lookup g (i / bsize) ≡ b = ap (lookup g) at ∙ slots (place bn) ∙ is in
          rw (now, ==_ne b 0 ne, ==_refl b) refl;
      away = λ i lt far.
          let j_lt : place (i / bsize) < 141 = ground arith in
          let j_ne : place (i / bsize) ≢ place bn = ground (arith, far) in
          rw
            (
              slots (place (i / bsize)),
              ==_ne b (lookup f (i / bsize)) (other (place (i / bsize)) j_lt j_ne),
            )
            refl;
      room = log_block-free meta f.fs b bytes v.disk clear;
    }
