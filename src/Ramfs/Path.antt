-- ===== src/Ramfs/Path.antt =====
-- The operations on path strings that kernel/src/ramfs.rs uses.
use brane_os.Prelude.{
  ℕ, suc, Bool, true, false, ◌&&◌, Option, none, some, List, [], ◌∷◌, take, drop, ◌==◌,
  if◌then◌else◌,
}

unfoldable pub same_bytes : List ℕ → List ℕ → Bool
same_bytes [] [] = true
same_bytes (x ∷ xs) (y ∷ ys) = x == y && same_bytes xs ys
same_bytes _ _ = false

abbrev pub is_empty : List ℕ → Bool
is_empty [] = true
is_empty (_ ∷ _) = false

-- A byte in front of the first part of a split.
abbrev pub onto_first : ℕ → List (List ℕ) → List (List ℕ)
onto_first x [] = (x ∷ []) ∷ []
onto_first x (part ∷ parts) = (x ∷ part) ∷ parts

-- `split(b)`: the parts between the separators, empty ones too.
unfoldable pub split : ℕ → List ℕ → List (List ℕ)
split b [] = [] ∷ []
split b (x ∷ xs) = if x == b then [] ∷ split b xs else onto_first x (split b xs)

-- `trim_start_matches(b)` and `trim_end_matches(b)`.
unfoldable pub trim_start : ℕ → List ℕ → List ℕ
trim_start b [] = []
trim_start b (x ∷ xs) = if x == b then trim_start b xs else x ∷ xs

abbrev pub keep_unless : ℕ → ℕ → List ℕ → List ℕ
keep_unless b x [] = if x == b then [] else x ∷ []
keep_unless b x (y ∷ ys) = x ∷ y ∷ ys

unfoldable pub trim_end : ℕ → List ℕ → List ℕ
trim_end b [] = []
trim_end b (x ∷ xs) = keep_unless b x (trim_end b xs)

-- `rfind(b)`.
unfoldable pub rfind : ℕ → List ℕ → Option ℕ
rfind b [] = none
rfind b (x ∷ xs) = elim (rfind b xs) [
  | some k ↦ some (suc k)
  | none ↦ if x == b then some 0 else none
]

-- `split_path`: the path of the parent and the name.
unfoldable pub split_path : List ℕ → List ℕ × List ℕ
split_path path =
    let trimmed = trim_end 47 path in
    elim (rfind 47 trimmed) [
      | none ↦ (47 ∷ [], trimmed)
      | some pos ↦
          let parent = take pos trimmed in
          (if is_empty parent then 47 ∷ [] else parent, drop (suc pos) trimmed)
    ]
