-- ===== src/Ramfs.antt =====
-- kernel/src/ramfs.rs: the file system in memory, 256 inodes with their contents inline. A path is its
-- bytes; `is_utf8` is `from_utf8(..).is_ok()`.
pub mod Path
pub mod Store
pub mod Valid
pub mod Lookup
pub mod Overlay
pub mod Files
pub mod Boot
mod Tests
use brane_os.Prelude.{
  ℕ, zero, suc, ◌+◌, ◌-◌, min, Bool, true, false, ◌&&◌, ◌||◌, not, Option, none, some, List, [],
  ◌∷◌, ◌++◌, length, take, drop, set, replicate, Result, ok, err, ltb, leb, ◌==◌, if◌then◌else◌,
  add_u64,
}
use brane_os.Prelude.Bytes.{slice}
use brane_os.Vfs.{
  NodeType, NodeInfo, DirEntry, VfsError, max_name, not_found, already_exists, not_a_directory,
  not_a_file, no_space, invalid_path, io_error,
}
use brane_os.Ramfs.Path.{same_bytes, is_empty, split, trim_start, split_path}
use brane_os.Ramfs.Store.{
  Inode, RamFs, max_inodes, max_file_size, max_children, is_directory, is_file, inode_at, put,
  name_str, set_name, alloc_inode,
}

module _ (is_utf8 : List ℕ → Bool) where
  -- The scan of a directory's children for a name.
  unfoldable pub find_child : RamFs → List ℕ → List ℕ → Option ℕ
  find_child fs name [] = none
  find_child fs name (c ∷ cs) =
      if ltb c max_inodes
        && (inode_at fs c).used
        && same_bytes (name_str is_utf8 (inode_at fs c)) name
      then some c
      else find_child fs name cs

  unfoldable pub walk : RamFs → ℕ → List (List ℕ) → Result ℕ VfsError
  walk fs current [] = ok current
  walk fs current (name ∷ names) = elim (is_empty name) [
    | true ↦ walk fs current names
    | false ↦
        let dir = inode_at fs current in
        elim (is_directory dir.node_type) [
          | false ↦ err not_a_directory
          | true ↦ elim (find_child fs name (take dir.child_count dir.children)) [
            | none ↦ err not_found
            | some child ↦ walk fs child names
          ]
        ]
  ]

  abbrev pub is_root : List ℕ → Bool
  is_root path = same_bytes path (47 ∷ []) || is_empty path

  unfoldable pub resolve_path : RamFs → List ℕ → Result ℕ VfsError
  resolve_path fs path = if is_root path then ok 0 else walk fs 0 (split 47 (trim_start 47 path))

  unfoldable pub stat : RamFs → List ℕ → Result NodeInfo VfsError
  stat fs path = elim (resolve_path fs path) [
    | err e ↦ err e
    | ok i ↦
        let n = inode_at fs i in
        ok (record {
          name = take n.name_len n.name ++ replicate (max_name - n.name_len) 0;
          name_len = n.name_len;
          node_type = n.node_type;
          size = n.data_len;
          inode = i;
        })
  ]

  -- The bytes that an inode gives to a buffer of `len` bytes.
  unfoldable pub read_inode : Inode → ℕ → ℕ → Result (List ℕ) VfsError
  read_inode n offset len =
      if not (is_file n.node_type)
      then err not_a_file
      else if leb n.data_len offset
      then ok []
      else (let to_read = min len (n.data_len - offset) in
          ok (slice n.contents offset (offset + to_read)))

  unfoldable pub read : RamFs → List ℕ → ℕ → ℕ → Result (List ℕ) VfsError
  read fs path offset len = elim (resolve_path fs path) [
    | err e ↦ err e
    | ok i ↦ read_inode (inode_at fs i) offset len
  ]

  -- The inode after a write of the bytes from `offset` to `end`.
  unfoldable pub overlay : Inode → ℕ → ℕ → List ℕ → Inode
  overlay n offset end bytes = record n {
    contents = take offset n.contents ++ (bytes ++ drop end n.contents);
    data_len = if ltb n.data_len end then end else n.data_len;
  }

  -- `end` wraps as the release profile does; `None` is the panic of the slice `data[offset..end]` where
  -- `end` lies below `offset`.
  unfoldable pub write : RamFs → List ℕ → ℕ → List ℕ → Option (Result ℕ VfsError × RamFs)
  write fs path offset bytes = elim (resolve_path fs path) [
    | err e ↦ some (err e, fs)
    | ok i ↦
        let n = inode_at fs i in
        let end = add_u64 offset (length bytes) in
        if not (is_file n.node_type)
        then some (err not_a_file, fs)
        else if ltb max_file_size end
        then some (err no_space, fs)
        else if ltb end offset
        then none
        else some (ok (length bytes), put fs i (overlay n offset end bytes))
  ]

  -- The end of `create`: an inode, and an entry for it in its parent.
  unfoldable pub enter : RamFs → ℕ → List ℕ → NodeType → Result (Unit {0}) VfsError × RamFs
  enter fs parent_idx name node_type =
      let (made, fs') = alloc_inode fs in
      elim made [
        | err e ↦ (err e, fs')
        | ok i ↦
            let named =
              put fs' i
                (record (set_name (record (inode_at fs' i) { node_type = node_type }) name) {
                  parent = parent_idx;
                }) in
            let p = inode_at named parent_idx in
            (
              ok tt,
              put named parent_idx (record p {
                children = set p.children p.child_count i;
                child_count = p.child_count + 1;
              }),
            )
      ]

  unfoldable pub create : RamFs → List ℕ → NodeType → Result (Unit {0}) VfsError × RamFs
  create fs path node_type = elim (resolve_path fs path) [
    | ok _ ↦ (err already_exists, fs)
    | err _ ↦
        let (parent_path, name) = split_path path in
        elim (resolve_path fs parent_path) [
          | err e ↦ (err e, fs)
          | ok parent_idx ↦
              let parent = inode_at fs parent_idx in
              if not (is_directory parent.node_type)
              then (err not_a_directory, fs)
              else if leb max_children parent.child_count
              then (err no_space, fs)
              else enter fs parent_idx name node_type
        ]
  ]

  abbrev pub entry : Inode → DirEntry
  entry n = record { name = n.name; name_len = n.name_len; node_type = n.node_type }

  unfoldable pub entries_of : RamFs → List ℕ → List DirEntry
  entries_of fs [] = []
  entries_of fs (c ∷ cs) = entry (inode_at fs c) ∷ entries_of fs cs

  -- The entries put into a buffer of `room` entries.
  unfoldable pub readdir : RamFs → List ℕ → ℕ → Result (List DirEntry) VfsError
  readdir fs path room = elim (resolve_path fs path) [
    | err e ↦ err e
    | ok i ↦
        let n = inode_at fs i in
        if not (is_directory n.node_type)
        then err not_a_directory
        else ok (entries_of fs (take (min n.child_count room) n.children))
  ]

  unfoldable pub position : ℕ → List ℕ → Option ℕ
  position k [] = none
  position k (c ∷ cs) =
      if c == k then some 0 else elim (position k cs) [ some i ↦ some (suc i) | none ↦ none ]

  -- The parent without the child, whose successors move down.
  unfoldable pub forget : Inode → ℕ → Inode
  forget p i = elim (position i (take p.child_count p.children)) [
    | none ↦ p
    | some pos ↦ record p {
      children =
          take pos p.children
          ++ (slice p.children (pos + 1) p.child_count ++ drop (p.child_count - 1) p.children);
      child_count = p.child_count - 1;
    }
  ]

  unfoldable pub remove : RamFs → List ℕ → Result (Unit {0}) VfsError × RamFs
  remove fs path = if is_root path then (err invalid_path, fs) else (elim (resolve_path fs path) [
    | err e ↦ (err e, fs)
    | ok i ↦
        let n = inode_at fs i in
        if is_directory n.node_type && ltb 0 n.child_count
        then (err io_error, fs)
        else (let unlinked = put fs n.parent (forget (inode_at fs n.parent) i) in
            let freed = put unlinked i (record (inode_at unlinked i) { used = false }) in
            (ok tt, record freed { inode_count = fs.inode_count - 1 }))
  ])
