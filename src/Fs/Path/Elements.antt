-- ===== src/Fs/Path/Elements.antt =====
-- `skipelem` against the elements of a path.
use cs537pair.Prelude.{
  ℕ, ◌<◌, ◌≡◌, false, List, [], ◌∷◌, Option, none, some, ◌==◌, if◌then◌else◌, length,
}
use cs537pair.Fs.Path.{slash, store_name}

-- What a path means: its maximal runs of bytes that are no slash.
abbrev cons_head : ℕ → List (List ℕ) → List (List ℕ)
cons_head c [] = (c ∷ []) ∷ []
cons_head c (w ∷ ws) = (c ∷ w) ∷ ws

-- The parts between the slashes, empty ones included.
pub parts : List ℕ → List (List ℕ)
parts [] = [] ∷ []
parts (c ∷ path) = if c == slash then [] ∷ parts path else cons_head c (parts path)

abbrev drop_empty : List (List ℕ) → List (List ℕ)
drop_empty [] = []
drop_empty ([] ∷ ws) = drop_empty ws
drop_empty ((c ∷ w) ∷ ws) = (c ∷ w) ∷ drop_empty ws

pub elements : List ℕ → List (List ℕ)
elements path = drop_empty (parts path)

-- The parts behind the first slash.
abbrev tail_parts : List ℕ → List (List ℕ)
tail_parts [] = []
tail_parts (c ∷ path) = parts path

-- What is left does not start with a slash.
abbrev IsSkipped : List ℕ → Type 0
IsSkipped [] = Unit
IsSkipped (c ∷ path) = (c == slash) ≡ false

-- What `skipelem` does to a path.
pub data Skipped (path name : List ℕ) (r : Option (List ℕ × List ℕ)) : Type 0 where
  last : r ≡ none → elements path ≡ [] → Skipped path name r
  elem :
      (s rest : List ℕ)
      → r ≡ some (rest, store_name s name)
      → elements path ≡ s ∷ elements rest
      → length rest < length path
      → (elements rest ≡ [] → rest ≡ [])
      → Skipped path name r
