-- ===== src/Log/Head.antt =====
-- The header block and the header in memory: what `copy_head` and `fill_head` leave in each word.
use oslab.Common.{ℕ, zero, suc, ◌+◌, ◌≡◌, refl, arith, ◌&&◌, ltb, leb, if◌then◌else◌}
use oslab.Disk.{Block, update}
use oslab.Log.{copy_head, fill_head, head_n, head_block}

pub copy_head_lem :
    (rounds i : ℕ) (lh : Block) (block : ℕ → ℕ) (j : ℕ)
    → copy_head rounds i lh block j
      ≡ (if leb i j && ltb j (i + rounds) then head_block lh j else block j)
unfolding copy_head
copy_head_lem zero i lh block j = ground arith
copy_head_lem (suc rounds) i lh block j =
    ground (arith, copy_head_lem rounds (suc i) lh (update block i (head_block lh i)) j)

pub fill_head-zero :
    (rounds i : ℕ) (block : ℕ → ℕ) (hb : Block) → head_n (fill_head rounds i block hb) ≡ head_n hb
unfolding fill_head
fill_head-zero zero i block hb = refl
fill_head-zero (suc rounds) i block hb =
    ground (arith, fill_head-zero rounds (suc i) block (update hb (suc i) (block i)))

pub fill_head-suc :
    (rounds i : ℕ) (block : ℕ → ℕ) (hb : Block) (j : ℕ)
    → head_block (fill_head rounds i block hb) j
      ≡ (if leb i j && ltb j (i + rounds) then block j else head_block hb j)
unfolding fill_head
fill_head-suc zero i block hb j = ground arith
fill_head-suc (suc rounds) i block hb j =
    ground (arith, fill_head-suc rounds (suc i) block (update hb (suc i) (block i)) j)
