-- ===== src/Bio.antt =====
-- xv6/bio.c: the buffers of the block cache, listed from the most recently used (`head.next`) on. A
-- pointer to a buffer is its number in the array; the data of a block is not here.
pub mod Gets
pub mod Copies
pub mod Reach
mod Tests
use oslab.Common.{
  ℕ, zero, suc, ◌+◌, ◌-◌, ◌^◌, Bool, true, false, ◌&&◌, not, Option, none, some, List, [], ◌∷◌,
  ◌==◌, if◌then◌else◌,
}

abbrev pub nbuf : ℕ
nbuf = 30

-- `struct buf`; `valid` and `dirty` are its flags B_VALID and B_DIRTY.
pub record Buf : Type 0 where
  pub index : ℕ
  pub dev : ℕ
  pub blockno : ℕ
  pub valid : Bool
  pub dirty : Bool
  pub refcnt : ℕ

-- The loop of `binit`: each buffer goes to the front of the list.
pub link_from : ℕ → ℕ → List Buf → List Buf
link_from zero i bufs = bufs
link_from (suc rounds) i bufs =
    link_from rounds (suc i)
      (record { index = i; dev = 0; blockno = 0; valid = false; dirty = false; refcnt = 0 } ∷ bufs)

-- `binit`
pub binit : List Buf
unfolding link_from
binit = link_from nbuf 0 []

abbrev pub is_block : ℕ → ℕ → Buf → Bool
is_block dev blockno b = b.dev == dev && b.blockno == blockno

abbrev pub is_free : Buf → Bool
is_free b = b.refcnt == 0 && not b.dirty

abbrev pub held : Buf → Buf
held b = record b { refcnt = b.refcnt + 1 }

abbrev pub recycled : ℕ → ℕ → Buf → Buf
recycled dev blockno b = record b {
  dev = dev;
  blockno = blockno;
  valid = false;
  dirty = false;
  refcnt = 1;
}

-- A result for the rest of the list, with a buffer in front of it.
abbrev pub behind : Buf → Option (ℕ × List Buf) → Option (ℕ × List Buf)
behind b none = none
behind b (some (i, bufs)) = some (i, b ∷ bufs)

-- The first loop of `bget`, from the front.
unfoldable pub find_cached : ℕ → ℕ → List Buf → Option (ℕ × List Buf)
find_cached dev blockno [] = none
find_cached dev blockno (b ∷ bufs) =
    let rest = find_cached dev blockno bufs in
    if is_block dev blockno b then some (b.index, held b ∷ bufs) else behind b rest

-- The second loop of `bget`, from the back: what is found behind a buffer comes before it.
unfoldable pub recycle : ℕ → ℕ → List Buf → Option (ℕ × List Buf)
recycle dev blockno [] = none
recycle dev blockno (b ∷ bufs) = elim (recycle dev blockno bufs) [
  | some (i, rest) ↦ some (i, b ∷ rest)
  | none ↦ if is_free b then some (b.index, recycled dev blockno b ∷ bufs) else none
]

-- `bget`, up to `acquiresleep`; `none` is the panic.
unfoldable pub bget : ℕ → ℕ → List Buf → Option (ℕ × List Buf)
unfolding find_cached recycle
bget dev blockno bufs = elim (find_cached dev blockno bufs) [
  | some r ↦ some r
  | none ↦ recycle dev blockno bufs
]

-- The buffer with the number, and the list without it.
abbrev pub in_front : Buf → Option (Buf × List Buf) → Option (Buf × List Buf)
in_front b none = none
in_front b (some (x, bufs)) = some (x, b ∷ bufs)

unfoldable pub unlink : ℕ → List Buf → Option (Buf × List Buf)
unlink i [] = none
unlink i (b ∷ bufs) =
    let rest = unlink i bufs in if b.index == i then some (b, bufs) else in_front b rest

-- The buffer with the number is changed where it stands.
unfoldable pub change : ℕ → (Buf → Buf) → List Buf → List Buf
change i f [] = []
change i f (b ∷ bufs) = let rest = change i f bufs in if b.index == i then f b ∷ bufs else b ∷ rest

-- `b->refcnt--` of a `uint`
abbrev pub released : Buf → Buf
released b = record b { refcnt = if b.refcnt == 0 then 2 ^ 32 - 1 else b.refcnt - 1 }

-- `brelse` of the buffer with the number, by the process that holds its sleep lock, so that the test of
-- `holdingsleep` passes; `none` if there is no such buffer.
unfoldable pub brelse : ℕ → List Buf → Option (List Buf)
unfolding unlink change
brelse i bufs = elim (unlink i bufs) [
  | none ↦ none
  | some (b, rest) ↦
      some (if (released b).refcnt == 0 then released b ∷ rest else change i released bufs)
]
