-- ===== src/Ramfs/Lookup.antt =====
-- Where the paths of kernel/src/ramfs.rs lead: to an inode of the array, whatever the files contain.
use brane_os.Prelude.{
  ℕ, subst, ◌<◌, ◌≡◌, inl, inr, refl, ap, ◌∙◌, Bool, some, List, [], ◌∷◌, take, ok, arith,
  Bool-cases, Option-cases, ok_injective,
}
use brane_os.Ramfs.Store.{Inode, RamFs, max_inodes, is_directory, inode_at, name_str}
use brane_os.Ramfs.Path.{split, trim_start}
use brane_os.Ramfs.{find_child, walk, is_root, resolve_path}

-- An inode without its contents.
abbrev pub shape : Inode → Inode
shape n = record n { contents = []; data_len = 0 }

abbrev pub SameShape : RamFs → RamFs → Type 0
SameShape fs gs = (j : ℕ) → shape (inode_at gs j) ≡ shape (inode_at fs j)

module _ (is_utf8 : List ℕ → Bool) where
  find_child-below :
      (fs : RamFs) (name cs : List ℕ) {k : ℕ}
      → find_child is_utf8 fs name cs ≡ some k
      → k < max_inodes
  unfolding find_child
  find_child-below fs name [] e = absurd cc
  find_child-below fs name (c ∷ cs) {k} e = ground (arith, find_child-below fs name cs {k = k})

  walk-below :
      (fs : RamFs) (current : ℕ) (names : List (List ℕ)) {k : ℕ}
      → current < max_inodes
      → walk is_utf8 fs current names ≡ ok k
      → k < max_inodes
  unfolding walk
  walk-below fs current [] l e = subst (λ i. i < max_inodes) (ok_injective e) l
  walk-below fs current ([] ∷ names) {k} l e = walk-below fs current names l e
  walk-below fs current ((x ∷ xs) ∷ names) {k} l e =
      elim (Bool-cases (is_directory (inode_at fs current).node_type)) [
        | inr other ↦ absurd (ground (arith, other))
        | inl dir ↦
            let found =
              find_child is_utf8 fs (x ∷ xs)
                (take (inode_at fs current).child_count (inode_at fs current).children) in
            elim (Option-cases found) [
              | inl miss ↦ absurd (ground (arith, dir, miss))
              | inr (child, hit) ↦
                  walk-below fs child names (find_child-below fs (x ∷ xs) _ hit)
                    (rw (walk, dir, hit) at e)
            ]
      ]

  pub resolve_path-below :
      (fs : RamFs) (path : List ℕ) {k : ℕ} → resolve_path is_utf8 fs path ≡ ok k → k < max_inodes
  unfolding resolve_path
  resolve_path-below fs path {k} e = elim (Bool-cases (is_root is_utf8 path)) [
    | inl root ↦ subst (λ i. i < max_inodes) (ok_injective (rw root at e)) (omega arith)
    | inr inner ↦ walk-below fs 0 (split 47 (trim_start 47 path)) (omega arith) (rw inner at e)
  ]

  find_child-same :
      (fs gs : RamFs) (name cs : List ℕ)
      → SameShape fs gs
      → find_child is_utf8 gs name cs ≡ find_child is_utf8 fs name cs
  unfolding find_child name_str
  find_child-same fs gs name [] h = refl
  find_child-same fs gs name (c ∷ cs) h =
      rw (ap (λ n. n.used) (h c), ap (name_str is_utf8) (h c), find_child-same fs gs name cs h) refl

  walk-same :
      (fs gs : RamFs) (current : ℕ) (names : List (List ℕ))
      → SameShape fs gs
      → walk is_utf8 gs current names ≡ walk is_utf8 fs current names
  unfolding walk
  walk-same fs gs current [] h = refl
  walk-same fs gs current ([] ∷ names) h = walk-same fs gs current names h
  walk-same fs gs current ((x ∷ xs) ∷ names) h =
      let found =
        find_child is_utf8 fs (x ∷ xs)
          (take (inode_at fs current).child_count (inode_at fs current).children) in
      let kind = ap (λ n. is_directory n.node_type) (h current) in
      let same : find_child is_utf8 gs (x ∷ xs)
            (take (inode_at gs current).child_count (inode_at gs current).children)
          ≡ found =
        ap (λ n. find_child is_utf8 gs (x ∷ xs) (take n.child_count n.children)) (h current)
        ∙ find_child-same fs gs (x ∷ xs) _ h in
      elim (Bool-cases (is_directory (inode_at fs current).node_type)) [
        | inr other ↦ rw (walk, kind, other) refl
        | inl dir ↦ elim (Option-cases found) [
          | inl miss ↦ rw (walk, kind, dir, same, miss) refl
          | inr (child, hit) ↦ rw (walk, kind, dir, same, hit) (walk-same fs gs child names h)
        ]
      ]

  pub resolve_path-same :
      (fs gs : RamFs) (path : List ℕ)
      → SameShape fs gs
      → resolve_path is_utf8 gs path ≡ resolve_path is_utf8 fs path
  unfolding resolve_path
  resolve_path-same fs gs path h = elim (Bool-cases (is_root is_utf8 path)) [
    | inl root ↦ rw (root) refl
    | inr inner ↦ rw (inner) (walk-same fs gs 0 (split 47 (trim_start 47 path)) h)
  ]
