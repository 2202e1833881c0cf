-- ===== src/Vfs.antt =====
-- The types of kernel/src/vfs.rs that the file systems share.
use brane_os.Prelude.{ℕ, List}

abbrev pub max_name : ℕ
max_name = 64

pub data NodeType : Type 0 where
  file directory device : NodeType

pub record NodeInfo : Type 0 where
  pub name : List ℕ
  pub name_len : ℕ
  pub node_type : NodeType
  pub size : ℕ
  pub inode : ℕ

pub record DirEntry : Type 0 where
  pub name : List ℕ
  pub name_len : ℕ
  pub node_type : NodeType

pub data VfsError : Type 0 where
  not_found already_exists not_a_directory not_a_file no_space invalid_path mount_full not_mounted
        fd_table_full bad_fd io_error :
      VfsError
