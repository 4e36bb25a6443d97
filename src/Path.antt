-- ===== src/Path.antt =====
-- xv6/fs.c: path names. A string is the list of its bytes, without the zero byte at its end.
pub mod Elements
mod Tests
use oslab.Common.{
  ℕ, zero, suc, ◌+◌, ◌-◌, Bool, true, false, ◌&&◌, ◌||◌, Option, none, some, List, [], ◌∷◌, ◌==◌,
  ltb, leb, if◌then◌else◌, length, take,
}

abbrev pub slash : ℕ
slash = 47

abbrev pub dirsiz : ℕ
dirsiz = 14

-- `while(*path == '/') path++;`
unfoldable pub skip_slashes : List ℕ → List ℕ
skip_slashes [] = []
skip_slashes (c ∷ path) = let rest = skip_slashes path in if c == slash then rest else c ∷ path

-- `while(*path != '/' && *path != 0) path++;`: the bytes that are passed, and the rest
unfoldable pub span_elem : List ℕ → List ℕ × List ℕ
span_elem [] = ([], [])
span_elem (c ∷ path) =
    let r = span_elem path in if c == slash then ([], c ∷ path) else (c ∷ r.0, r.1)

-- `skipelem`: the name and the path behind it, or `none` for 0. A name of 14 bytes or more is cut to 14,
-- as the array then holds no zero byte.
unfoldable pub skipelem : List ℕ → Option (List ℕ × List ℕ)
unfolding skip_slashes span_elem
skipelem path = elim (skip_slashes path) [
  | [] ↦ none
  | c ∷ rest ↦
      let r = span_elem (c ∷ rest) in
      some ((if leb dirsiz (length r.0) then take dirsiz r.0 else r.0), skip_slashes r.1)
]
