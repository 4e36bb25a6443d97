-- ===== src/File/Tests.antt =====
-- A table in which the first file is open twice.
use oslab.Common.{ℕ, refl, false, none, some, [], ◌∷◌, Option}
use oslab.File.{Table, fd_none, filealloc, find_file, filedup}
use oslab.File.Table.{Users, Fair, fileclose-Reach, here, next, opens, dups}

abbrev table : Table
table k = record { kind = fd_none; refs = 0; readable = false; writable = false; off = 0 }

abbrev opened : Option (ℕ × Table) → Table
opened none = table
opened (some (k, t)) = t

abbrev doubled : Option Table → Table
doubled none = table
doubled (some t) = t

abbrev twice : Users
twice = record { table = doubled (filedup 0 (opened (filealloc table))); held = 0 ∷ 0 ∷ [] }

fileclose-Reach_example : Fair twice
unfolding filealloc find_file filedup
fileclose-Reach_example =
    fileclose-Reach table twice (λ k. refl) (next (next here (opens 0 refl)) (dups 0 0 refl refl))
