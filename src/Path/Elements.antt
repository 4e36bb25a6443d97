-- ===== src/Path/Elements.antt =====
-- `skipelem` of xv6/fs.c against the names between the slashes of a path.
use oslab.Common.{
  ℕ, ◌+◌, ◌<◌, ◌≤◌, ◌≡◌, ◌∙◌, refl, sym, ap, ap₂, arith, false, Option, none, some, List, [], ◌∷◌,
  map, ◌==◌, leb, if◌then◌else◌, Bool-cases, inl, inr, length, take,
}
use oslab.Path.{slash, dirsiz, skip_slashes, span_elem, skipelem}

-- The word that a path starts with, which may be empty, and the words behind it that are not.
abbrev pub push : List ℕ → List (List ℕ) → List (List ℕ)
push [] ws = ws
push (c ∷ w) ws = (c ∷ w) ∷ ws

unfoldable pub words : List ℕ → List ℕ × List (List ℕ)
words [] = ([], [])
words (c ∷ path) = let r = words path in if c == slash then ([], push r.0 r.1) else (c ∷ r.0, r.1)

-- A name has at most 14 bytes.
abbrev pub cut : List ℕ → List ℕ
cut w = if leb dirsiz (length w) then take dirsiz w else w

-- The names of a path.
abbrev pub names : List ℕ → List (List ℕ)
names path = map cut (push (words path).0 (words path).1)

skip_slashes-names : (path : List ℕ) → names (skip_slashes path) ≡ names path
unfolding skip_slashes words
skip_slashes-names [] = refl
skip_slashes-names (c ∷ path) = elim (Bool-cases (c == slash)) [
  | inl yes_slash ↦ rw (yes_slash, skip_slashes, words) (skip_slashes-names path)
  | inr other ↦
      let same : skip_slashes (c ∷ path) ≡ c ∷ path = rw (other, skip_slashes) refl in ap names same
]

-- A path after the slashes at its front are skipped.
abbrev pub IsSkipped : List ℕ → Type 0
IsSkipped [] = Unit
IsSkipped (c ∷ path) = (c == slash) ≡ false

skip_slashes-IsSkipped :
    (path : List ℕ) → IsSkipped (skip_slashes path) × (length (skip_slashes path) ≤ length path)
unfolding skip_slashes
skip_slashes-IsSkipped [] = (tt, omega arith)
skip_slashes-IsSkipped (c ∷ path) = elim (Bool-cases (c == slash)) [
  | inl yes_slash ↦
      let h = skip_slashes-IsSkipped path in rw (yes_slash, skip_slashes) (h.0, omega (arith, h.1))
  | inr other ↦ rw (other, skip_slashes) (other, omega arith)
]

span_elem-words :
    (path : List ℕ)
    → ((words path).0 ≡ (span_elem path).0)
      × ((words path).1 ≡ push (words (span_elem path).1).0 (words (span_elem path).1).1)
      × (length (span_elem path).0 + length (span_elem path).1 ≡ length path)
unfolding words span_elem
span_elem-words [] = (refl, refl, refl)
span_elem-words (c ∷ path) = elim (Bool-cases (c == slash)) [
  | inl yes_slash ↦ rw (yes_slash, words, span_elem) (refl, rw (yes_slash, words) refl, omega arith)
  | inr other ↦
      let h = span_elem-words path in
      rw (other, words, span_elem) (ap (λ w. c ∷ w) h.0, h.1, omega (arith, h.2))
]

first_name :
    (c : ℕ) (rest : List ℕ)
    → (c == slash) ≡ false
    → names (c ∷ rest) ≡ cut (c ∷ (span_elem rest).0) ∷ names (skip_slashes (span_elem rest).1)
unfolding words
first_name c rest other =
    let h = span_elem-words rest in
    let split : words (c ∷ rest) ≡ (c ∷ (words rest).0, (words rest).1) = rw (other, words) refl in
    ap (λ (r : List ℕ × List (List ℕ)). map cut (push r.0 r.1)) split
    ∙ ap₂ (λ w ws. cut (c ∷ w) ∷ map cut ws) h.0 h.1
    ∙ ap (λ ns. cut (c ∷ (span_elem rest).0) ∷ ns) (sym (skip_slashes-names (span_elem rest).1))

-- What `skipelem` gives for a path: its first name, and a path with the other names, which does not
-- start with a slash and is shorter.
abbrev pub Skips : List ℕ → Option (List ℕ × List ℕ) → Type 0
Skips path none = names path ≡ []
Skips path (some r) = (names path ≡ r.0 ∷ names r.1) × IsSkipped r.1 × (length r.1 < length path)

-- `skipelem` takes the first name off a path: the names are the parts between slashes that are not
-- empty, each cut to 14 bytes. It returns 0 exactly if there is no name left. The path that it returns
-- has the other names, does not start with a slash, and is shorter.
pub skipelem-Skips : (path : List ℕ) → Skips path (skipelem path)
unfolding skipelem span_elem words
skipelem-Skips path = go (skip_slashes path) (skip_slashes-names path) (skip_slashes-IsSkipped path)
  where
    go :
        (p : List ℕ)
        → names p ≡ names path
        → IsSkipped p × (length p ≤ length path)
        → Skips path (elim p [
          | [] ↦ none
          | c ∷ rest ↦
              let r = span_elem (c ∷ rest) in
              some ((if leb dirsiz (length r.0) then take dirsiz r.0 else r.0), skip_slashes r.1)
        ])
    go [] same h = sym same
    go (c ∷ rest) same h =
        let s = span_elem-words rest in
        let skipped = skip_slashes-IsSkipped (span_elem rest).1 in
        rw (h.0) (sym same ∙ first_name c rest h.0, skipped.0, omega (arith, skipped.1, s.2, h.1))
