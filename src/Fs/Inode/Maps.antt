-- ===== src/Fs/Inode/Maps.antt =====
-- `bmap` of xv6/fs.c: the block of the file that it gives, and what it leaves as it is.
use oslab.Common.{
  ℕ, ◌+◌, ◌-◌, ◌*◌, ◌/◌, ◌%◌, ◌≤◌, ◌<◌, ◌≡◌, ◌≢◌, ◌∙◌, refl, sym, ap, subst, arith, Option, none,
  some, ==_refl, ==_ne, ℕ_discrete, dec_lt, lt→ltb, le→ltb,
}
use oslab.Fs.{bsize, Fs, log_block, balloc}
use oslab.Fs.Blocks.{Alloc, balloc-Alloc}
use oslab.Fs.Holds.{past-IsClear}
use oslab.Fs.Free.{free, AllUsed-free, Took-free, log_block-free}
use oslab.Fs.Inode.{File, ndirect, uint_at, put_uint, put_addr, bmap_slot, bmap_entry, bmap}
use oslab.Fs.Inode.Slots.{slot, slot_low, slot_none, slot_some, IsFile, place, content}
use oslab.Fs.Inode.Fill.{Filled, fill_slot, fill_entry}

-- The same content, in a state that is as well formed, with the same blocks and more, and at most `n` free blocks less.
pub record Keeps (meta : ℕ) (n : ℕ) (f g : File) : Type 0 where
  pub valid : IsFile meta g
  pub same_ip : (g.ip.size ≡ f.ip.size) × (g.ip.type ≡ f.ip.type) × (g.ip.inum ≡ f.ip.inum)
  pub same : (i : ℕ) → i < 71680 → content g i ≡ content f i
  pub grows : (j : ℕ) → j < 141 → slot f j ≢ 0 → slot g j ≡ slot f j
  pub room : free f.fs ≤ free g.fs + n

Filled-content :
    (meta : ℕ) (f : File) (k b : ℕ) (g : File)
    → Filled meta f k b g
    → slot f k ≡ 0
    → (i : ℕ) → i < 71680
    → content g i ≡ content f i
Filled-content meta f k b g h empty i lt =
    let j = place (i / bsize) in
    let j_lt : j < 141 = ground arith in
    let j_ne : j ≢ 12 = ground arith in
    elim (ℕ_discrete j k) [
      | yes e ↦
          let new : slot g j ≡ b = h.slots j j_lt ∙ rw (e, ==_refl k) refl in
          let old : slot f j ≡ 0 = ap (slot f) e ∙ empty in
          rw (new, ==_ne b 0 h.ne, old) (h.zeroed (i % bsize) (λ z. j_ne (e ∙ z)))
      | no ne ↦
          let same : slot g j ≡ slot f j = h.slots j j_lt ∙ rw (==_ne j k ne) refl in
          elim (ℕ_discrete (slot f j) 0) [
            | yes z ↦ rw (same, z) refl
            | no set ↦ rw (same, ==_ne (slot f j) 0 set) (h.frame j (i % bsize) j_lt j_ne set)
          ]
    ]

-- The block of a slot, and the end of a call that looks it up: with no result, `n` or fewer blocks
-- were free.
abbrev pub Fills : ℕ → ℕ → ℕ → File → Option (ℕ × File) → Type 0
Fills meta n k f none = (free f.fs < n) × (slot f k ≡ 0)
Fills meta n k f (some r) = Keeps meta n f r.1 × (slot r.1 k ≡ r.0) × (r.0 ≢ 0)

pub same-Keeps : (meta : ℕ) (n : ℕ) (f : File) → IsFile meta f → Keeps meta n f f
same-Keeps meta n f v = record {
  valid = v;
  same_ip = (refl, refl, refl);
  same = λ i lt. refl;
  grows = λ j lt set. refl;
  room = omega arith;
}

Filled-Keeps :
    (meta : ℕ) (f : File) (k b : ℕ) (g : File)
    → Filled meta f k b g
    → k < 141
    → slot f k ≡ 0
    → free g.fs + 1 ≡ free f.fs
    → Keeps meta 1 f g × (slot g k ≡ b) × (b ≢ 0)
Filled-Keeps meta f k b g h lt empty counted = (
  record {
    valid = h.valid;
    same_ip = h.same_ip;
    same = Filled-content meta f k b g h empty;
    grows = λ j j_lt set. h.slots j j_lt ∙ rw (==_ne j k (λ e. set (ap (slot f) e ∙ empty))) refl;
    room = omega (arith, counted);
  },
  h.slots k lt ∙ rw (==_refl k) refl,
  h.ne,
)

bmap_slot-Fills :
    (meta : ℕ) (k : ℕ) (f : File) → IsFile meta f → k < 13 → Fills meta 1 k f (bmap_slot k f)
unfolding bmap_slot
bmap_slot-Fills meta k f v lt = elim (ℕ_discrete (f.ip.addrs k) 0) [
  | no set ↦ rw (==_ne (f.ip.addrs k) 0 set) (same-Keeps meta 1 f v, slot_low f k lt, set)
  | yes empty ↦ rw (empty) (go (balloc f.fs) empty (balloc-Alloc meta f.fs v.disk))
]
  where
    go :
        (r : Option (ℕ × Fs))
        → f.ip.addrs k ≡ 0
        → Alloc meta f.fs r
        → Fills meta 1 k f (elim r [
          | none ↦ none
          | some (b, fs) ↦ some (b, record { ip = put_addr f.ip k b; fs = fs })
        ])
    go none empty all = (omega (arith, AllUsed-free f.fs all), slot_low f k lt ∙ empty)
    go (some (b, t)) empty h =
        Filled-Keeps meta f k b (record { ip = put_addr f.ip k b; fs = t })
          (fill_slot meta f k b t v lt empty h.0 h.2 h.3) (omega arith) (slot_low f k lt ∙ empty)
          (Took-free meta f.fs b t h.0 h.3)

bmap_entry-Fills :
    (meta : ℕ) (n : ℕ) (f : File)
    → IsFile meta f
    → n < 128
    → f.ip.addrs 12 ≢ 0
    → Fills meta 1 (n + 13) f (bmap_entry (f.ip.addrs 12) n f)
unfolding bmap_entry
bmap_entry-Fills meta n f v lt has =
    let a = f.ip.addrs 12 in
    let at : uint_at (f.fs.block a) (4 * n) ≡ slot f (n + 13) =
      let index : n + 13 - 13 ≡ n = omega arith in
      sym (
        slot_some f (n + 13) a (omega arith) refl has
        ∙ ap (λ j. uint_at (f.fs.block a) (4 * j)) index) in
    elim (ℕ_discrete (slot f (n + 13)) 0) [
      | no set ↦ rw (at, ==_ne (slot f (n + 13)) 0 set) (same-Keeps meta 1 f v, refl, set)
      | yes empty ↦ rw (at ∙ empty) (go (balloc f.fs) empty (balloc-Alloc meta f.fs v.disk))
    ]
  where
    go :
        (r : Option (ℕ × Fs))
        → slot f (n + 13) ≡ 0
        → Alloc meta f.fs r
        → Fills meta 1 (n + 13) f (elim r [
          | none ↦ none
          | some (b, fs) ↦ some (
            b,
            record f {
              fs = log_block fs (f.ip.addrs 12) (put_uint (fs.block (f.ip.addrs 12)) (4 * n) b);
            },
          )
        ])
    go none empty all = (omega (arith, AllUsed-free f.fs all), empty)
    go (some (b, t)) empty h =
        let a = f.ip.addrs 12 in
        let put = put_uint (t.block a) (4 * n) b in
        let same : free (log_block t a put) ≡ free t =
          log_block-free meta t a put h.3.valid
            (past-IsClear meta t a h.3.valid (v.holds 12 (omega arith) has).past) in
        Filled-Keeps meta f (n + 13) b (record f { fs = log_block t a put })
          (fill_entry meta f n b t v lt has empty h.0 h.2 h.3) (omega arith) empty
          (omega (arith, same, Took-free meta f.fs b t h.0 h.3))

pub Keeps-then :
    (meta n m : ℕ) (f g h : File) → Keeps meta n f g → Keeps meta m g h → Keeps meta (n + m) f h
Keeps-then meta n m f g h one two = record {
  valid = two.valid;
  same_ip =
      (two.same_ip.0 ∙ one.same_ip.0, two.same_ip.1 ∙ one.same_ip.1, two.same_ip.2 ∙ one.same_ip.2);
  same = λ i lt. two.same i lt ∙ one.same i lt;
  grows =
      λ j lt set. let kept = one.grows j lt set in two.grows j lt (λ z. set (sym kept ∙ z)) ∙ kept;
  room = omega (arith, one.room, two.room);
}

-- A block that a later state misses was missing before.
pub missed_before :
    (meta n k : ℕ) (f g : File) → k < 141 → Keeps meta n f g → slot g k ≡ 0 → slot f k ≡ 0
missed_before meta n k f g lt one e = elim (ℕ_discrete (slot f k) 0) [
  | yes z ↦ z
  | no set ↦ absurd (set (sym (one.grows k lt set) ∙ e))
]

Fills-after :
    (meta n m k : ℕ) (f g : File) (r : Option (ℕ × File))
    → k < 141
    → Keeps meta n f g
    → Fills meta m k g r
    → Fills meta (n + m) k f r
Fills-after meta n m k f g none lt one h =
    (omega (arith, one.room, h.0), missed_before meta n k f g lt one h.1)
Fills-after meta n m k f g (some (b, t)) lt one h = (Keeps-then meta n m f g t one h.0, h.1, h.2)

-- `bmap` of a block below 140 returns the block that the file has there afterwards, which is not 0;
-- every byte of the file is as before, also where a block was allocated, and the addresses that are
-- set still name different blocks in use past the metadata. It allocates at most 2 blocks, and panics
-- only if less than 2 are free and the file has no such block.
pub bmap-Fills :
    (meta : ℕ) (bn : ℕ) (f : File)
    → IsFile meta f
    → bn < 140
    → Fills meta 2 (place bn) f (bmap bn f)
unfolding bmap
bmap-Fills meta bn f v lt = elim (dec_lt bn 12) [
  | yes low ↦ rw (lt→ltb bn 12 low) (
      Fills-after meta 1 1 bn f f (bmap_slot bn f) (omega arith) (same-Keeps meta 1 f v)
        (bmap_slot-Fills meta bn f v (omega arith)))
  | no high ↦
      rw (le→ltb bn 12 (omega arith), lt→ltb (bn - 12) 128 (omega arith))
        (go (omega arith) (bmap_slot ndirect f) (bmap_slot-Fills meta 12 f v (omega arith)))
]
  where
    go :
        12 ≤ bn
        → (r : Option (ℕ × File)) → Fills meta 1 12 f r
        → Fills meta 2
            (bn + 1)
            f
            (elim r [ none ↦ none | some (addr, g) ↦ bmap_entry addr (bn - ndirect) g ])
    go high none h = (
      omega (arith, h.0),
      slot_none f (bn + 1) (omega arith) (sym (slot_low f 12 (omega arith)) ∙ h.1),
    )
    go high (some (a, g)) h =
        let is : g.ip.addrs 12 ≡ a = sym (slot_low g 12 (omega arith)) ∙ h.1 in
        let entry : Fills meta 1 (bn - 12 + 13) g (bmap_entry (g.ip.addrs 12) (bn - 12) g) =
          bmap_entry-Fills meta (bn - 12) g h.0.valid (omega arith) (rw is h.2) in
        let index : bn - 12 + 13 ≡ bn + 1 = omega arith in
        Fills-after meta 1 1 (bn + 1) f g (bmap_entry a (bn - ndirect) g) (omega arith) h.0 (
          subst (λ k. Fills meta 1 k g (bmap_entry a (bn - 12) g)) index
            (subst (λ x. Fills meta 1 (bn - 12 + 13) g (bmap_entry x (bn - 12) g)) is entry))
