-- ===== src/Fs/Inode/Fill.antt =====
-- An address of an inode of xv6/fs.c is filled with the block that `balloc` gave.
use oslab.Common.{
  ℕ, ◌+◌, ◌-◌, ◌*◌, ◌≤◌, ◌<◌, ◌≡◌, ◌≢◌, ◌∙◌, refl, sym, ap, subst, arith, false, ◌==◌,
  if◌then◌else◌, ==_refl, ==_ne, ℕ_discrete, dec_lt,
}
use oslab.Fs.{Fs, log_block}
use oslab.Fs.Bitmap.{IsFs}
use oslab.Fs.Blocks.{Took}
use oslab.Fs.Holds.{Holds, past-IsClear, Took-Holds, Took-new, log_block-IsFs, log_block-Holds}
use oslab.Fs.Inode.{File, uint_at, put_uint, put_addr}
use oslab.Fs.Inode.Slots.{
  slot, slot_low, slot_none, slot_some, uint_at_zeros, uint_at_cong, uint_at-put_uint,
  uint_at-put_uint_ne, put_uint_byte, apart, IsFile,
}

-- Address `k`, which was 0, is now the block `b`, which is full of zeros.
pub record Filled (meta : ℕ) (f : File) (k b : ℕ) (g : File) : Type 0 where
  pub valid : IsFile meta g
  pub same_ip : (g.ip.size ≡ f.ip.size) × (g.ip.type ≡ f.ip.type) × (g.ip.inum ≡ f.ip.inum)
  pub ne : b ≢ 0
  pub slots : (j : ℕ) → j < 141 → slot g j ≡ (if j == k then b else slot f j)
  pub zeroed : (i : ℕ) → k ≢ 12 → g.fs.block b i ≡ 0
  pub frame :
      (j i : ℕ)
      → j < 141
      → j ≢ 12
      → slot f j ≢ 0
      → g.fs.block (slot f j) i ≡ f.fs.block (slot f j) i

-- `slot` where the addresses hold one more block.
fills :
    (meta : ℕ) (f : File) (k b : ℕ) (g : File)
    → IsFile meta f
    → IsFs meta g.fs
    → g.ip.inum < g.fs.sb.ninodes
    → ((c : ℕ) → Holds meta f.fs c → Holds meta g.fs c × (c ≢ b))
    → Holds meta g.fs b
    → ((j : ℕ) → j < 141 → slot g j ≡ (if j == k then b else slot f j))
    → IsFile meta g
fills meta f k b g v disk inode keeps new slots =
    let at_k : (i : ℕ) → i < 141 → i ≡ k → slot g i ≡ b =
      λ i i_lt eq. slots i i_lt ∙ rw (eq, ==_refl k) refl in
    let off_k : (i : ℕ) → i < 141 → i ≢ k → slot g i ≡ slot f i =
      λ i i_lt ne. slots i i_lt ∙ rw (==_ne i k ne) refl in
    let clash : (i : ℕ) → i < 141 → slot f i ≢ b = λ i i_lt e.
      (keeps (slot f i) (v.holds i i_lt (λ z. omega (arith, new.past, disk.boot, e, z)))).1 e in
    record {
      disk = disk;
      distinct = λ i j i_lt j_lt ne e. elim (ℕ_discrete i k) [
        | yes i_k ↦ elim (ℕ_discrete j k) [
          | yes j_k ↦ absurd (ne (i_k ∙ sym j_k))
          | no j_ne ↦ absurd (clash j j_lt (sym (off_k j j_lt j_ne) ∙ sym e ∙ at_k i i_lt i_k))
        ]
        | no i_ne ↦ elim (ℕ_discrete j k) [
          | yes j_k ↦ absurd (clash i i_lt (sym (off_k i i_lt i_ne) ∙ e ∙ at_k j j_lt j_k))
          | no j_ne ↦
              off_k i i_lt i_ne
              ∙ v.distinct i j i_lt j_lt ne (sym (off_k i i_lt i_ne) ∙ e ∙ off_k j j_lt j_ne)
        ]
      ];
      holds = λ i i_lt ne. elim (ℕ_discrete i k) [
        | yes eq ↦ subst (Holds meta g.fs) (sym (at_k i i_lt eq)) new
        | no other ↦
            let is = off_k i i_lt other in
            subst (Holds meta g.fs) (sym is)
              (keeps (slot f i) (v.holds i i_lt (λ z. ne (is ∙ z)))).0
      ];
      inode = inode;
    }

-- The block of a `Took` is an address that a slot does not have, and the slots' blocks are kept.
pub Took-frame :
    (meta : ℕ) (f : File) (b : ℕ) (t : Fs) (j i : ℕ)
    → IsFile meta f
    → b < f.fs.sb.size
    → Took meta f.fs b t
    → j < 141
    → slot f j ≢ 0
    → t.block (slot f j) i ≡ f.fs.block (slot f j) i
Took-frame meta f b t j i v lt took j_lt ne =
    let h = v.holds j j_lt ne in
    took.frame (slot f j) i (Took-Holds meta f.fs b t (slot f j) took h).1
      (λ e. omega (arith, e, v.disk.bitmap b lt, h.past))

fill_slot-slots :
    (meta : ℕ) (f : File) (k b : ℕ) (t : Fs)
    → IsFile meta f
    → k < 13
    → f.ip.addrs k ≡ 0
    → b < f.fs.sb.size
    → b ≢ 0
    → Took meta f.fs b t
    → (j : ℕ) → j < 141
    → slot (record { ip = put_addr f.ip k b; fs = t }) j ≡ (if j == k then b else slot f j)
fill_slot-slots meta f k b t v k_lt empty lt set took j j_lt =
    let g : File = record { ip = put_addr f.ip k b; fs = t } in
    elim (dec_lt j 13) [
      | yes low ↦ slot_low g j low ∙ rw (slot_low f j low) refl
      | no high ↦
          let other : (j == k) ≡ false = ==_ne j k (λ e. omega arith) in
          elim (ℕ_discrete k 12) [
            | yes last ↦
                slot_some g j b (omega arith) (rw last refl) set
                ∙ uint_at_zeros (t.block b) (4 * (j - 13)) took.zeroed
                ∙ rw (other, slot_none f j (omega arith) (rw last at empty)) refl
            | no ne ↦ elim (ℕ_discrete (f.ip.addrs 12) 0) [
              | yes z ↦
                  slot_none g j (omega arith) (rw (==_ne 12 k (λ e. ne (sym e))) z)
                  ∙ rw (other, slot_none f j (omega arith) z) refl
              | no has ↦
                  let at_12 = slot_low f 12 (omega arith) in
                  slot_some g j (f.ip.addrs 12) (omega arith)
                    (rw (==_ne 12 k (λ e. ne (sym e))) refl) has
                  ∙ uint_at_cong (t.block (f.ip.addrs 12)) (f.fs.block (f.ip.addrs 12))
                      (4 * (j - 13)) (λ i. Took-frame meta f b t 12 i v lt took (omega arith) has)
                  ∙ rw (other, slot_some f j (f.ip.addrs 12) (omega arith) refl has) refl
            ]
          ]
    ]

-- A direct address, or the indirect block's, is filled.
pub fill_slot :
    (meta : ℕ) (f : File) (k b : ℕ) (t : Fs)
    → IsFile meta f
    → k < 13
    → f.ip.addrs k ≡ 0
    → b < f.fs.sb.size
    → meta ≤ b
    → Took meta f.fs b t
    → Filled meta f k b (record { ip = put_addr f.ip k b; fs = t })
fill_slot meta f k b t v k_lt empty lt past took =
    let g : File = record { ip = put_addr f.ip k b; fs = t } in
    let slots : (j : ℕ) → j < 141 → slot g j ≡ (if j == k then b else slot f j) =
      fill_slot-slots meta f k b t v k_lt empty lt (λ z. omega (arith, past, v.disk.boot)) took in
    record {
      valid =
          fills meta f k b g v took.valid (rw took.same_sb v.inode)
            (λ c. Took-Holds meta f.fs b t c took) (Took-new meta f.fs b t lt past took) slots;
      same_ip = (refl, refl, refl);
      ne = λ z. omega (arith, past, v.disk.boot);
      slots = slots;
      zeroed = λ i ne. took.zeroed i;
      frame = λ j i j_lt ne set. Took-frame meta f b t j i v lt took j_lt set;
    }

fill_entry-slots :
    (meta : ℕ) (f : File) (n b : ℕ) (t : Fs)
    → IsFile meta f
    → f.ip.addrs 12 ≢ 0
    → b < f.fs.sb.size
    → Took meta f.fs b t
    → (j : ℕ) → j < 141
    → slot
        (record f {
          fs = log_block t (f.ip.addrs 12) (put_uint (t.block (f.ip.addrs 12)) (4 * n) b);
        })
        j
      ≡ (if j == n + 13 then b else slot f j)
fill_entry-slots meta f n b t v has lt took j j_lt =
    let a = f.ip.addrs 12 in
    let fs = log_block t a (put_uint (t.block a) (4 * n) b) in
    let g : File = record f { fs = fs } in
    let here : fs.block a ≡ put_uint (t.block a) (4 * n) b = rw (==_refl a) refl in
    elim (dec_lt j 13) [
      | yes low ↦ slot_low g j low ∙ rw (slot_low f j low, ==_ne j (n + 13) (λ e. omega arith)) refl
      | no high ↦
          slot_some g j a (omega arith) refl has
          ∙ ap (λ x. uint_at x (4 * (j - 13))) here
          ∙ elim (ℕ_discrete j (n + 13)) [
            | yes e ↦
                let i : 4 * (j - 13) ≡ 4 * n = omega arith in
                rw (i, e, ==_refl (n + 13))
                  (uint_at-put_uint (t.block a) (4 * n) b (omega (arith, lt, v.disk.width)))
            | no ne ↦
                uint_at-put_uint_ne (t.block a) (4 * n) (4 * (j - 13)) b
                  (apart n (j - 13) (λ e. ne (omega arith)))
                ∙ uint_at_cong (t.block a) (f.fs.block a) (4 * (j - 13))
                    (λ i. Took-frame meta f b t 12 i v lt took (omega arith) has)
                ∙ rw (==_ne j (n + 13) ne, slot_some f j a (omega arith) refl has) refl
          ]
    ]

-- An entry of the indirect block is filled.
pub fill_entry :
    (meta : ℕ) (f : File) (n b : ℕ) (t : Fs)
    → IsFile meta f
    → n < 128
    → f.ip.addrs 12 ≢ 0
    → slot f (n + 13) ≡ 0
    → b < f.fs.sb.size
    → meta ≤ b
    → Took meta f.fs b t
    → Filled meta f (n + 13) b (record f {
      fs = log_block t (f.ip.addrs 12) (put_uint (t.block (f.ip.addrs 12)) (4 * n) b);
    })
fill_entry meta f n b t v n_lt has empty lt past took =
    let a = f.ip.addrs 12 in
    let old = v.holds 12 (omega arith) has in
    let kept = Took-Holds meta f.fs b t a took old in
    let clear = past-IsClear meta t a took.valid old.past in
    let put = put_uint (t.block a) (4 * n) b in
    let g : File = record f { fs = log_block t a put } in
    let disk : IsFs meta g.fs =
      log_block-IsFs meta t a put took.valid clear
        (λ i. put_uint_byte (t.block a) (4 * n) b i (took.valid.bytes a i)) in
    let slots = fill_entry-slots meta f n b t v has lt took in
    record {
      valid =
          fills meta f (n + 13) b g v disk (rw took.same_sb v.inode)
            (λ c h.
              let old_c = Took-Holds meta f.fs b t c took h in
              (log_block-Holds meta t a c put took.valid clear old_c.0, old_c.1))
            (log_block-Holds meta t a b put took.valid clear (Took-new meta f.fs b t lt past took))
            slots;
      same_ip = (refl, refl, refl);
      ne = λ z. omega (arith, past, v.disk.boot);
      slots = slots;
      zeroed = λ i ne. rw (==_ne a b kept.1) (took.zeroed i);
      frame = λ j i j_lt ne set.
          let far : a ≢ slot f j = λ e. set (v.distinct j 12 j_lt (omega arith) ne (sym e)) in
          rw (==_ne a (slot f j) far) (Took-frame meta f b t j i v lt took j_lt set);
    }
