-- ===== src/Ramfs/Valid.antt =====
-- The inodes that kernel/src/ramfs.rs keeps whole: every operation leaves each with its buffer.
use brane_os.Prelude.{
  ℕ, ◌+◌, ◌<◌, ◌≡◌, ◌≢◌, ◌⊎◌, inl, inr, ℕ_discrete, refl, ap, sym, ◌∙◌, Bool, true, ◌&&◌, List,
  length, take, drop, get_or, set, replicate, ltb, leb, arith, Bool-cases, Option-cases,
  Result-cases, length-set, length-replicate, get_or-set_self, get_or-set_ne, set_out, dec_lt,
  get_or-replicate,
}
use brane_os.Vfs.{NodeType}
use brane_os.Ramfs.Store.{
  Inode, RamFs, max_inodes, max_file_size, max_children, is_directory, inode_at, put, empty, new,
  set_name, alloc_inode, first_free,
}
use brane_os.Ramfs.Path.{split_path}
use brane_os.Ramfs.{resolve_path, enter, create, forget, position, remove, is_root}

-- All inodes are there, each with a whole buffer and no more data than it holds.
pub record IsValid (fs : RamFs) : Type 0 where
  pub sized : length fs.inodes ≡ max_inodes
  pub buffers : (i : ℕ) → length (inode_at fs i).contents ≡ max_file_size

-- What the walk over a path reads of an inode stays when its contents change.
pub inode_at-put :
    (fs : RamFs) (i j : ℕ) (n : Inode)
    → length fs.inodes ≡ max_inodes
    → i < max_inodes
    → ((j ≡ i) × (inode_at (put fs i n) j ≡ n))
      ⊎ ((j ≢ i) × (inode_at (put fs i n) j ≡ inode_at fs j))
unfolding inode_at put
inode_at-put fs i j n s l = elim (ℕ_discrete j i) [
  | yes e ↦ inl (
    e,
    ap (λ k. get_or (set fs.inodes i n) k empty) e
        ∙ get_or-set_self fs.inodes i n empty (omega (arith, s)),
  )
  | no d ↦ inr (d, get_or-set_ne fs.inodes i j n empty (λ e. d (sym e)))
]

pub put-IsValid :
    (fs : RamFs) (i : ℕ) (n : Inode)
    → IsValid fs
    → length n.contents ≡ max_file_size
    → IsValid (put fs i n)
unfolding put inode_at
put-IsValid fs i n v c = record {
  sized = length-set fs.inodes i n ∙ v.sized;
  buffers = λ j. elim (dec_lt i max_inodes) [
    | no out ↦
        ap (λ ns. length (get_or ns j empty).contents)
          (set_out fs.inodes i n (omega (arith, v.sized, out)))
        ∙ v.buffers j
    | yes l ↦ elim (inode_at-put fs i j n v.sized l) [
      | inl (_, p) ↦ ap (λ m. length m.contents) p ∙ c
      | inr (_, p) ↦ ap (λ m. length m.contents) p ∙ v.buffers j
    ]
  ];
}

pub new-IsValid : IsValid new
unfolding new empty set_name inode_at put
new-IsValid =
    let blank : IsValid (record { inodes = replicate max_inodes empty; inode_count = 1 }) = record {
      sized = length-replicate max_inodes empty;
      buffers = λ j.
          ap (λ n. length n.contents) (get_or-replicate max_inodes j empty)
          ∙ length-replicate {A = ℕ} max_file_size 0;
    } in
    put-IsValid _ 0 _ blank (length-replicate {A = ℕ} max_file_size 0)

-- A write to an inode that leaves its contents.
pub keep-IsValid :
    (fs : RamFs) (i : ℕ) (n : Inode)
    → IsValid fs
    → n.contents ≡ (inode_at fs i).contents
    → IsValid (put fs i n)
keep-IsValid fs i n v e = put-IsValid fs i n v (ap length e ∙ v.buffers i)

pub count-IsValid : (fs : RamFs) (k : ℕ) → IsValid fs → IsValid (record fs { inode_count = k })
unfolding inode_at
count-IsValid fs k v = record { sized = v.sized; buffers = v.buffers }

alloc_inode-IsValid : (fs : RamFs) → IsValid fs → IsValid (alloc_inode fs).1
unfolding alloc_inode empty
alloc_inode-IsValid fs v = elim (Option-cases (first_free 1 (drop 1 fs.inodes))) [
  | inl e ↦ rw (alloc_inode, e) v
  | inr (i, e) ↦
      let w =
        put-IsValid fs i (record empty { used = true }) v
          (length-replicate {A = ℕ} max_file_size 0) in
      rw (alloc_inode, e) (count-IsValid _ (fs.inode_count + 1) w)
]

module _ (is_utf8 : List ℕ → Bool) where
  enter-IsValid :
      (fs : RamFs) (parent_idx : ℕ) (name : List ℕ) (node_type : NodeType)
      → IsValid fs
      → IsValid (enter is_utf8 fs parent_idx name node_type).1
  unfolding enter set_name
  enter-IsValid fs parent_idx name node_type v =
      let w = alloc_inode-IsValid fs v in
      elim (Result-cases (alloc_inode fs).0) [
        | inl (i, e) ↦ rw (enter, e) (keep-IsValid _ _ _ (keep-IsValid _ _ _ w refl) refl)
        | inr (x, e) ↦ rw (enter, e) w
      ]

  pub create-IsValid :
      (fs : RamFs) (path : List ℕ) (node_type : NodeType)
      → IsValid fs
      → IsValid (create is_utf8 fs path node_type).1
  unfolding create
  create-IsValid fs path node_type v = elim (Result-cases (resolve_path is_utf8 fs path)) [
    | inl (k, e) ↦ rw (create, e) v
    | inr (x, e) ↦ elim (Result-cases (resolve_path is_utf8 fs (split_path path).0)) [
      | inr (y, d) ↦ rw (create, e, d) v
      | inl (k, d) ↦ elim (Bool-cases (is_directory (inode_at fs k).node_type)) [
        | inr other ↦ rw (create, e, d, other) v
        | inl dir ↦ elim (Bool-cases (leb max_children (inode_at fs k).child_count)) [
          | inl full ↦ rw (create, e, d, dir, full) v
          | inr room ↦
              rw (create, e, d, dir, room) (enter-IsValid fs k (split_path path).1 node_type v)
        ]
      ]
    ]
  ]

  forget_contents : (p : Inode) (i : ℕ) → (forget is_utf8 p i).contents ≡ p.contents
  unfolding forget
  forget_contents p i = elim (Option-cases (position is_utf8 i (take p.child_count p.children))) [
    | inl e ↦ rw (forget, e) refl
    | inr (pos, e) ↦ rw (forget, e) refl
  ]

  pub remove-IsValid :
      (fs : RamFs) (path : List ℕ) → IsValid fs → IsValid (remove is_utf8 fs path).1
  unfolding remove
  remove-IsValid fs path v = elim (Bool-cases (is_root is_utf8 path)) [
    | inl root ↦ rw (remove, root) v
    | inr inner ↦ elim (Result-cases (resolve_path is_utf8 fs path)) [
      | inr (x, e) ↦ rw (remove, inner, e) v
      | inl (i, e) ↦
          elim (Bool-cases
            (is_directory (inode_at fs i).node_type && ltb 0 (inode_at fs i).child_count)) [
              | inl busy ↦ rw (remove, inner, e, busy) v
              | inr free ↦
                  rw (remove, inner, e, free)
                    (count-IsValid _ _
                      (keep-IsValid _ _ _ (keep-IsValid _ _ _ v (forget_contents _ i)) refl))
            ]
    ]
  ]
