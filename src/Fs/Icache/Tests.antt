-- ===== src/Fs/Icache/Tests.antt =====
-- A cache with the inodes of the small disk.
use oslab.Common.{ℕ, ◌<◌, ◌≡◌, refl, false, none, some, [], ◌∷◌, Option, count}
use oslab.Fs.Tests.{disk}
use oslab.Fs.Inode.{Inode}
use oslab.Fs.Icache.{Icache, iget, iget_scan, idup}
use oslab.Fs.Icache.Counts.{Users, IsIcache}
use oslab.Fs.Icache.Refs.{Step, here, next, iget-Reach}

abbrev empty : Inode
empty = record {
  dev = 0;
  inum = 0;
  refs = 0;
  valid = false;
  type = 0;
  major = 0;
  minor = 0;
  nlink = 0;
  size = 0;
  addrs = λ k. 0;
}

abbrev cache : Icache
cache = record { inode = λ k. empty; fs = disk }

abbrev cache_of : Option (ℕ × Icache) → Icache
cache_of none = cache
cache_of (some (k, c)) = c

-- Inode 1 is got by one user, and its pointer is duplicated.
abbrev got : Users
got = record { cache = cache_of (iget 1 1 cache); held = 0 ∷ [] }

abbrev shared : Users
shared = record { cache = idup 0 got.cache; held = 0 ∷ 0 ∷ [] }

iget-Reach_example :
    IsIcache shared
    × ((k : ℕ)
        → 0 < count k shared.held
        → iget (shared.cache.inode k).dev (shared.cache.inode k).inum shared.cache
          ≡ some (k, idup k shared.cache))
unfolding iget iget_scan
iget-Reach_example =
    iget-Reach cache shared (λ k. refl)
      (next (next here (Step.gets 1 1 0 refl)) (Step.dups 0 0 refl))
