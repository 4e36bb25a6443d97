-- ===== src/Bio/Tests.antt =====
-- Concrete calls of xv6/bio.c.
use oslab.Common.{ℕ, ◌≡◌, refl, Option, none, some, List, []}
use oslab.Bio.{Buf, binit, link_from, bget, find_cached, recycle, brelse, unlink, change}
use oslab.Bio.Gets.{Gets, bget-Gets}
use oslab.Bio.Copies.{IsCache}
use oslab.Bio.Reach.{Step, Reach-IsCache, here, next}

abbrev list_of : Option (ℕ × List Buf) → List Buf
list_of none = []
list_of (some (i, bufs)) = bufs

abbrev cache_of : Option (List Buf) → List Buf
cache_of none = []
cache_of (some bufs) = bufs

-- Block 7 of device 1 is got, got again by a second user, and released by one of them.
abbrev got : List Buf
got = list_of (bget 1 7 binit)

abbrev shared : List Buf
shared = list_of (bget 1 7 got)

-- The buffer that is recycled is the first of the array, the last of the list.
first_buffer : bget 1 7 binit ≡ some (0, got)
unfolding binit link_from bget find_cached recycle
first_buffer = refl

bget-Gets_example : Gets 1 7 binit (bget 1 7 binit)
bget-Gets_example = bget-Gets 1 7 binit

Reach-IsCache_example : IsCache (cache_of (brelse 0 shared))
unfolding binit link_from bget find_cached recycle brelse unlink change
Reach-IsCache_example =
    Reach-IsCache
      (next (next (next here (Step.gets 1 7 0 refl)) (Step.gets 1 7 0 refl)) (Step.releases 0 refl))
