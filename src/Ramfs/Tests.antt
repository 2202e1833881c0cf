-- ===== src/Ramfs/Tests.antt =====
-- The theorem on writes at a file of a fresh file system, and runs of kernel/src/ramfs.rs.
use mathlib.Core.Option
use brane_os.Prelude.{
  Result, some, none, ◌^◌, ◌-◌, arith, ℕ, true, Bool, List, [], ◌∷◌, replicate, ◌≡◌, refl, ok,
}
use brane_os.Vfs.{file, VfsError}
use brane_os.Ramfs.Store.{
  RamFs, new, empty, max_inodes, alloc_inode, first_free, put, inode_at, set_name, name_str,
}
use brane_os.Ramfs.{create, write, read, resolve_path, walk, find_child, enter, overlay, read_inode}
use brane_os.Ramfs.Path.{split, trim_start, trim_end, rfind, split_path, same_bytes}
use brane_os.Ramfs.Boot.{init, with_file, stored, directories, motd_path, motd_content}
use brane_os.Ramfs.Valid.{new-IsValid, create-IsValid}
use brane_os.Ramfs.Files.{Writing, write_file_lem}

abbrev all_utf8 : List ℕ → Bool
all_utf8 bytes = true

-- "/a".
abbrev path : List ℕ
path = 47 ∷ 97 ∷ []

abbrev one_file : RamFs
one_file = (create all_utf8 new path file).1

write_file_lem_example :
    (r : Result ℕ VfsError) × (gs : RamFs) × (write all_utf8 one_file path 5 (104 ∷ 105 ∷ [])
      ≡ some (r, gs))
    × Writing all_utf8 one_file path 5 (104 ∷ 105 ∷ []) r gs
write_file_lem_example =
    write_file_lem all_utf8 one_file path 5 (104 ∷ 105 ∷ [])
      (create-IsValid all_utf8 new path file new-IsValid) (omega arith)

-- The run above succeeds.
write_succeeds :
    Option.map (λ w. w.0) (write all_utf8 one_file path 5 (104 ∷ 105 ∷ [])) ≡ some (ok 2)
unfolding init with_file stored directories read create write resolve_path walk find_child enter
    alloc_inode first_free put inode_at empty new set_name name_str overlay read_inode split
    trim_start trim_end rfind split_path same_bytes replicate
write_succeeds = refl

-- An offset near the end of the 64-bit range panics.
write_panics : write all_utf8 one_file path (2 ^ 64 - 1) (104 ∷ 105 ∷ []) ≡ none
unfolding init with_file stored directories read create write resolve_path walk find_child enter
    alloc_inode first_free put inode_at empty new set_name name_str overlay read_inode split
    trim_start trim_end rfind split_path same_bytes replicate
write_panics = refl

-- The file of the boot image reads back.
motd_readable :
    Option.map
      (λ gs. read all_utf8 gs motd_path 0 64)
      (init all_utf8 (record { inodes = replicate max_inodes empty; inode_count = 0 }))
    ≡ some (ok motd_content)
unfolding init with_file stored directories read create write resolve_path walk find_child enter
    alloc_inode first_free put inode_at empty new set_name name_str overlay read_inode split
    trim_start trim_end rfind split_path same_bytes replicate
motd_readable = refl

-- A name of 70 bytes is cut when it is stored, so the path is not found and can be created again.
long_name_twice :
    (create all_utf8
      (create all_utf8 new (47 ∷ replicate 70 97) file).1
      (47 ∷ replicate 70 97)
      file).0
    ≡ ok tt
unfolding create resolve_path walk find_child enter alloc_inode first_free put inode_at empty
    set_name name_str split trim_start trim_end rfind split_path same_bytes replicate new
long_name_twice = refl
