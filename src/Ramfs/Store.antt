-- ===== src/Ramfs/Store.antt =====
-- The inodes of kernel/src/ramfs.rs and their array.
use brane_os.Prelude.{
  ℕ, suc, ◌+◌, min, Bool, true, false, Option, none, some, List, [], ◌∷◌, ◌++◌, length, take, drop,
  get_or, set, replicate, Result, ok, err, if◌then◌else◌,
}
use brane_os.Vfs.{NodeType, VfsError, file, directory, max_name, no_space}

abbrev pub max_inodes : ℕ
max_inodes = 256

abbrev pub max_file_size : ℕ
max_file_size = 4096

abbrev pub max_children : ℕ
max_children = 32

pub record Inode : Type 0 where
  pub used : Bool
  pub node_type : NodeType
  pub name : List ℕ
  pub name_len : ℕ
  pub parent : ℕ
  pub contents : List ℕ
  pub data_len : ℕ
  pub children : List ℕ
  pub child_count : ℕ

unfoldable pub empty : Inode
empty = record {
  used = false;
  node_type = file;
  name = replicate max_name 0;
  name_len = 0;
  parent = 0;
  contents = replicate max_file_size 0;
  data_len = 0;
  children = replicate max_children 0;
  child_count = 0;
}

-- `name_str`: the name in use, or "".
unfoldable pub name_str : (List ℕ → Bool) → Inode → List ℕ
name_str is_utf8 n = let bytes = take n.name_len n.name in if is_utf8 bytes then bytes else []

-- `set_name`: the name is cut to 64 bytes.
unfoldable pub set_name : Inode → List ℕ → Inode
set_name n name =
    let len = min (length name) max_name in
    record n { name = take len name ++ drop len n.name; name_len = len }

pub record RamFs : Type 0 where
  pub inodes : List Inode
  pub inode_count : ℕ

abbrev pub is_directory : NodeType → Bool
is_directory directory = true
is_directory _ = false

abbrev pub is_file : NodeType → Bool
is_file file = true
is_file _ = false

unfoldable pub inode_at : RamFs → ℕ → Inode
inode_at fs i = get_or fs.inodes i empty

unfoldable pub put : RamFs → ℕ → Inode → RamFs
put fs i n = record fs { inodes = set fs.inodes i n }

unfoldable pub new : RamFs
new =
    let root = record (set_name empty (47 ∷ [])) {
      used = true;
      node_type = directory;
      parent = 0;
    } in
    record { inodes = set (replicate max_inodes empty) 0 root; inode_count = 1 }

-- The first unused inode of a list whose indices start at `i`.
unfoldable pub first_free : ℕ → List Inode → Option ℕ
first_free i [] = none
first_free i (n ∷ ns) = if n.used then first_free (suc i) ns else some i

unfoldable pub alloc_inode : RamFs → Result ℕ VfsError × RamFs
alloc_inode fs = elim (first_free 1 (drop 1 fs.inodes)) [
  | none ↦ (err no_space, fs)
  | some i ↦
      let taken = put fs i (record empty { used = true }) in
      (ok i, record taken { inode_count = fs.inode_count + 1 })
]
