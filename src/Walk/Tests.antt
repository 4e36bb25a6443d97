-- ===== src/Walk/Tests.antt =====
-- A working directory that is empty, on the small disk.
use oslab.Common.{ℕ, ◌≡◌, refl, true, false, none, some, Option, List, [], ◌∷◌}
use oslab.Fs.Inode.{Inode, Dev, ilock}
use oslab.Fs.Icache.{Icache, idup, iput}
use oslab.Path.{skipelem, skip_slashes, span_elem}
use oslab.Walk.{Outcome, done, panic, timeout, namex, namex_from, dirlookup, lookup_from, put_none}
use oslab.Walk.Path.{Named, namex-Named}

abbrev devsw : ℕ → Dev
devsw major = record { read = none; write = none }

abbrev directory : Inode
directory = record {
  dev = 1;
  inum = 1;
  refs = 1;
  valid = true;
  type = 1;
  major = 0;
  minor = 0;
  nlink = 1;
  size = 0;
  addrs = λ k. 0;
}

abbrev cache : Icache
cache = record {
  inode = λ k. directory;
  fs = record {
    sb = record { size = 16; ninodes = 8; inodestart = 2; bmapstart = 3 };
    block = λ b i. 0;
    logged = [];
  };
}

-- "a/b"
abbrev path : List ℕ
path = 97 ∷ 47 ∷ 98 ∷ []

abbrev result_of : Outcome (Option ℕ × List ℕ × Icache) → Option (Option ℕ × List ℕ)
result_of (done (found, name, c)) = some (found, name)
result_of panic = none
result_of timeout = none

-- The directory has no entry "a": the reference that the walk took is given back.
namex_test : result_of (namex devsw false path 0 cache) ≡ some (none, 97 ∷ [])
unfolding namex namex_from skipelem skip_slashes span_elem ilock dirlookup lookup_from put_none idup
    iput
namex_test = refl

namex-Named_example : Named cache (namex devsw false path 0 cache)
namex-Named_example = namex-Named devsw false path 0 cache
