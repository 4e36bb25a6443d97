-- ===== src/Path/Tests.antt =====
-- The examples of the comment on `skipelem` in xv6/fs.c.
use oslab.Common.{ℕ, ◌≡◌, refl, none, some, List, [], ◌∷◌}
use oslab.Path.{skip_slashes, span_elem, skipelem}
use oslab.Path.Elements.{Skips, skipelem-Skips}

-- "///a//bb" and "////"
abbrev path : List ℕ
path = 47 ∷ 47 ∷ 47 ∷ 97 ∷ 47 ∷ 47 ∷ 98 ∷ 98 ∷ []

skipelem_test : skipelem path ≡ some (97 ∷ [], 98 ∷ 98 ∷ [])
unfolding skipelem skip_slashes span_elem
skipelem_test = refl

slashes_test : skipelem (47 ∷ 47 ∷ 47 ∷ 47 ∷ []) ≡ none
unfolding skipelem skip_slashes
slashes_test = refl

skipelem-Skips_example : Skips path (skipelem path)
skipelem-Skips_example = skipelem-Skips path
