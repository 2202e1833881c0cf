-- ===== src/Ramfs/Boot.antt =====
-- `init` of kernel/src/ramfs.rs: the root, the standard directories and the two files of the boot image.
use brane_os.Prelude.{
  ◌≡◌, refl, Option, some, none, length, ◌<◌, ◌^◌, arith, ℕ, true, Bool, List, [], ◌∷◌,
}
use brane_os.Vfs.{file, directory}
use brane_os.Ramfs.Valid.{IsValid, keep-IsValid, count-IsValid, create-IsValid}
use brane_os.Ramfs.Files.{write-IsValid}
use brane_os.Ramfs.{create, write}
use brane_os.Ramfs.Store.{RamFs, inode_at, put, set_name}

-- "Welcome to Brane OS v1.0-alpha" and a newline.
abbrev pub motd_content : List ℕ
motd_content =
    87 ∷ 101 ∷ 108 ∷ 99 ∷ 111 ∷ 109 ∷ 101 ∷ 32 ∷ 116 ∷ 111 ∷ 32 ∷ 66 ∷ 114 ∷ 97 ∷ 110 ∷ 101 ∷ 32
    ∷ 79 ∷ 83 ∷ 32 ∷ 118 ∷ 49 ∷ 46 ∷ 48 ∷ 45 ∷ 97 ∷ 108 ∷ 112 ∷ 104 ∷ 97 ∷ 10 ∷ []

-- The script "#!/bin/brsh", "echo 'Starting Brane OS Services...'", "brane status", "lsmod".
abbrev init_script_content : List ℕ
init_script_content =
    35 ∷ 33 ∷ 47 ∷ 98 ∷ 105 ∷ 110 ∷ 47 ∷ 98 ∷ 114 ∷ 115 ∷ 104 ∷ 10 ∷ 101 ∷ 99 ∷ 104 ∷ 111 ∷ 32 ∷ 39
    ∷ 83 ∷ 116 ∷ 97 ∷ 114 ∷ 116 ∷ 105 ∷ 110 ∷ 103 ∷ 32 ∷ 66 ∷ 114 ∷ 97 ∷ 110 ∷ 101 ∷ 32 ∷ 79 ∷ 83
    ∷ 32 ∷ 83 ∷ 101 ∷ 114 ∷ 118 ∷ 105 ∷ 99 ∷ 101 ∷ 115 ∷ 46 ∷ 46 ∷ 46 ∷ 39 ∷ 10 ∷ 98 ∷ 114 ∷ 97
    ∷ 110 ∷ 101 ∷ 32 ∷ 115 ∷ 116 ∷ 97 ∷ 116 ∷ 117 ∷ 115 ∷ 10 ∷ 108 ∷ 115 ∷ 109 ∷ 111 ∷ 100 ∷ 10 ∷ []

-- "/dev", "/proc", "/tmp", "/etc", "/etc/motd" and "/etc/init.sh".
abbrev dev_path : List ℕ
dev_path = 47 ∷ 100 ∷ 101 ∷ 118 ∷ []

abbrev proc_path : List ℕ
proc_path = 47 ∷ 112 ∷ 114 ∷ 111 ∷ 99 ∷ []

abbrev tmp_path : List ℕ
tmp_path = 47 ∷ 116 ∷ 109 ∷ 112 ∷ []

abbrev etc_path : List ℕ
etc_path = 47 ∷ 101 ∷ 116 ∷ 99 ∷ []

abbrev pub motd_path : List ℕ
motd_path = 47 ∷ 101 ∷ 116 ∷ 99 ∷ 47 ∷ 109 ∷ 111 ∷ 116 ∷ 100 ∷ []

abbrev init_path : List ℕ
init_path = 47 ∷ 101 ∷ 116 ∷ 99 ∷ 47 ∷ 105 ∷ 110 ∷ 105 ∷ 116 ∷ 46 ∷ 115 ∷ 104 ∷ []

-- A write at the start of a file, its error dropped; `None` is a panic.
unfoldable pub stored : (List ℕ → Bool) → RamFs → List ℕ → List ℕ → Option RamFs
stored is_utf8 fs path bytes = elim (write is_utf8 fs path 0 bytes) [
  | some (_, gs) ↦ some gs
  | none ↦ none
]

-- The file and its contents.
unfoldable pub with_file : (List ℕ → Bool) → RamFs → List ℕ → List ℕ → Option RamFs
with_file is_utf8 fs path bytes = stored is_utf8 (create is_utf8 fs path file).1 path bytes

-- The root and the standard directories; the errors of the calls are dropped.
unfoldable pub directories : (List ℕ → Bool) → RamFs → RamFs
directories is_utf8 fs =
    let rooted = put fs 0 (record (set_name (inode_at fs 0) (47 ∷ [])) {
      used = true;
      node_type = directory;
      parent = 0;
    }) in
    let dev = (create is_utf8 (record rooted { inode_count = 1 }) dev_path directory).1 in
    let proc = (create is_utf8 dev proc_path directory).1 in
    let tmp = (create is_utf8 proc tmp_path directory).1 in
    (create is_utf8 tmp etc_path directory).1

unfoldable pub init : (List ℕ → Bool) → RamFs → Option RamFs
init is_utf8 fs = elim (with_file is_utf8 (directories is_utf8 fs) motd_path motd_content) [
  | some greeted ↦ with_file is_utf8 greeted init_path init_script_content
  | none ↦ none
]

with_file-IsValid :
    (is_utf8 : List ℕ → Bool) (fs : RamFs) (path bytes : List ℕ)
    → IsValid fs
    → length bytes < 2 ^ 64
    → (gs : RamFs) × (with_file is_utf8 fs path bytes ≡ some gs) × IsValid gs
unfolding with_file stored
with_file-IsValid is_utf8 fs path bytes v small =
    let (r, gs, e, w) =
      write-IsValid is_utf8 (create is_utf8 fs path file).1 path bytes
        (create-IsValid is_utf8 fs path file v) small in
    (gs, rw (with_file, stored, e) refl, w)

directories-IsValid :
    (is_utf8 : List ℕ → Bool) (fs : RamFs) → IsValid fs → IsValid (directories is_utf8 fs)
unfolding directories set_name
directories-IsValid is_utf8 fs v = create-IsValid is_utf8 _ etc_path directory (
    create-IsValid is_utf8 _ tmp_path directory (
      create-IsValid is_utf8 _ proc_path directory (
        create-IsValid is_utf8 _ dev_path directory
          (count-IsValid _ 1 (keep-IsValid fs 0 _ v refl)))))

-- The boot does not panic and leaves every inode in place with a whole buffer.
pub init-IsValid :
    (is_utf8 : List ℕ → Bool) (fs : RamFs)
    → IsValid fs
    → (gs : RamFs) × (init is_utf8 fs ≡ some gs) × IsValid gs
unfolding init
init-IsValid is_utf8 fs v =
    let (greeted, e, w) =
      with_file-IsValid is_utf8 (directories is_utf8 fs) motd_path motd_content
        (directories-IsValid is_utf8 fs v) (omega arith) in
    let (gs, e2, w2) =
      with_file-IsValid is_utf8 greeted init_path init_script_content w (omega arith) in
    (gs, rw (init, e) e2, w2)
