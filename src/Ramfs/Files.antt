-- ===== src/Ramfs/Files.antt =====
-- The contents of files in kernel/src/ramfs.rs: what a read finds after a write.
use brane_os.Prelude.{
  ℕ, ◌^◌, ◌-◌, ◌≢◌, ◌&&◌, some, max, get_or, add_u64, le→ltb, ◌+◌, ◌≤◌, ◌<◌, ◌≡◌, inl, inr, refl,
  ap, sym, ◌∙◌, Bool, true, false, List, length, Result, ok, err, ltb, leb, if◌then◌else◌, arith,
  Bool-cases, Result-cases, ltb→lt, ltb→le, ◌==◌, ltb→le, ◌==◌,
}
use brane_os.Vfs.{NodeType, file, directory, device, VfsError, not_a_file, no_space}
use brane_os.Ramfs.Store.{RamFs, max_file_size, is_file, inode_at, put}
use brane_os.Ramfs.Valid.{IsValid, inode_at-put, put-IsValid}
use brane_os.Ramfs.{resolve_path, read, overlay, write}
use brane_os.Ramfs.Lookup.{shape, resolve_path-below, resolve_path-same}
use brane_os.Ramfs.Overlay.{
  length-overlay, overlay-SameShape, read_inode-overlay, size-overlay, byte-overlay,
}

is_file-no : (k : NodeType) → is_file k ≡ false → k ≢ file
is_file-no file e h = absurd (cc)
is_file-no directory e h = cc
is_file-no device e h = cc

is_file-file : (k : NodeType) → is_file k ≡ true → k ≡ file
is_file-file file e = refl
is_file-file directory e = absurd (cc)
is_file-file device e = absurd (cc)

module _ (is_utf8 : List ℕ → Bool) where
  -- A file system after bytes were written to the inode `i`, which `path` names.
  pub record Written (fs : RamFs) (path : List ℕ) (i offset : ℕ) (bytes : List ℕ) (gs : RamFs)
      : Type 0 where
    pub resolves : (p : List ℕ) → resolve_path is_utf8 gs p ≡ resolve_path is_utf8 fs p
    pub back : read is_utf8 gs path offset (length bytes) ≡ ok bytes
    pub size : (inode_at gs i).data_len ≡ max (inode_at fs i).data_len (offset + length bytes)
    pub byte :
        (k : ℕ)
        → get_or (inode_at gs i).contents k 0 ≡ (
            if leb offset k && ltb k (offset + length bytes)
            then get_or bytes (k - offset) 0
            else get_or (inode_at fs i).contents k 0)
    pub else_same : shape (inode_at gs i) ≡ shape (inode_at fs i)
    pub others : (k : ℕ) → inode_at gs k ≡ (if k == i then inode_at gs i else inode_at fs k)
    pub valid : IsValid gs

  -- The outcomes of a write.
  pub data Writing (fs : RamFs) (path : List ℕ) (offset : ℕ) (bytes : List ℕ)
      : Result ℕ VfsError → RamFs → Type 0 where
    unresolved :
        (e : VfsError)
        → resolve_path is_utf8 fs path ≡ err e
        → Writing fs path offset bytes (err e) fs
    wrong_kind :
        (i : ℕ)
        → resolve_path is_utf8 fs path ≡ ok i
        → (inode_at fs i).node_type ≢ file
        → Writing fs path offset bytes (err not_a_file) fs
    too_long :
        (i : ℕ)
        → resolve_path is_utf8 fs path ≡ ok i
        → (inode_at fs i).node_type ≡ file
        → max_file_size < offset + length bytes
        → Writing fs path offset bytes (err no_space) fs
    written :
        (i : ℕ) (gs : RamFs)
        → resolve_path is_utf8 fs path ≡ ok i
        → (inode_at fs i).node_type ≡ file
        → Written fs path i offset bytes gs
        → Writing fs path offset bytes (ok (length bytes)) gs

  overlay-Written :
      (fs : RamFs) (path : List ℕ) (i offset : ℕ) (bytes : List ℕ)
      → IsValid fs
      → resolve_path is_utf8 fs path ≡ ok i
      → is_file (inode_at fs i).node_type ≡ true
      → offset + length bytes ≤ max_file_size
      → Written fs path i offset bytes
          (put fs i (overlay is_utf8 (inode_at fs i) offset (offset + length bytes) bytes))
  unfolding read overlay
  overlay-Written fs path i offset bytes v e f l =
      let n = overlay is_utf8 (inode_at fs i) offset (offset + length bytes) bytes in
      let below = resolve_path-below is_utf8 fs path e in
      let same = overlay-SameShape is_utf8 fs i offset bytes v below in
      let placed : inode_at (put fs i n) i ≡ n = elim (inode_at-put fs i i n v.sized below) [
        | inl (_, p) ↦ p
        | inr (d, _) ↦ absurd (d refl)
      ] in
      record {
        resolves = λ p. resolve_path-same is_utf8 fs (put fs i n) p same;
        back =
            rw (read, resolve_path-same is_utf8 fs (put fs i n) path same, e, placed)
              (read_inode-overlay is_utf8 (inode_at fs i) offset bytes (v.buffers i) l f);
        size = ap (λ m. m.data_len) placed ∙ size-overlay is_utf8 (inode_at fs i) offset _ bytes;
        byte = λ k.
            ap (λ m. get_or m.contents k 0) placed
            ∙ byte-overlay (inode_at fs i).contents bytes offset k (omega (arith, l, v.buffers i));
        else_same = same i;
        others = λ k. elim (inode_at-put fs i k n v.sized below) [
          | inl (q, p) ↦ p ∙ sym placed ∙ ground (arith, q)
          | inr (d, p) ↦ p ∙ ground (arith, d)
        ];
        valid =
            put-IsValid fs i n v
              (length-overlay is_utf8 (inode_at fs i) offset bytes (v.buffers i) l);
      }

  -- With every inode in place, and where the end of the bytes fits in 64 bits, a write does not
  -- panic. One that succeeds changes the bytes of one file at their place and no others: a read
  -- there gives them back, the file grows to their end if it was shorter and is never cut, every
  -- path still leads where it led, and every other inode is as it was. A write fails, and changes
  -- nothing, where the path leads nowhere, to something that is no file, or where the bytes end
  -- behind the 4096 bytes of a file.
  pub write_file_lem :
      (fs : RamFs) (path : List ℕ) (offset : ℕ) (bytes : List ℕ)
      → IsValid fs
      → offset + length bytes < 2 ^ 64
      → (r : Result ℕ VfsError) × (gs : RamFs) × (write is_utf8 fs path offset bytes ≡ some (r, gs))
        × Writing fs path offset bytes r gs
  unfolding write
  write_file_lem fs path offset bytes v small =
      let exact : add_u64 offset (length bytes) ≡ offset + length bytes = omega (arith, small) in
      elim (Result-cases (resolve_path is_utf8 fs path)) [
        | inr (e, lost) ↦ (err e, fs, rw (write, lost) refl, unresolved e lost)
        | inl (i, here) ↦ elim (Bool-cases (is_file (inode_at fs i).node_type)) [
          | inr other ↦ (
            err not_a_file,
            fs,
            rw (write, here, other) refl,
            wrong_kind i here (is_file-no _ other),
          )
          | inl f ↦ elim (Bool-cases (ltb max_file_size (offset + length bytes))) [
            | inl long ↦ (
              err no_space,
              fs,
              rw (write, here, f, exact, long) refl,
              too_long i here (is_file-file _ f) (ltb→lt _ _ long),
            )
            | inr fits ↦ (
              ok (length bytes),
              put fs i (overlay is_utf8 (inode_at fs i) offset (offset + length bytes) bytes),
              rw (write, here, f, exact, fits, le→ltb (offset + length bytes) offset (omega arith))
                  refl,
              written i _ here (is_file-file _ f)
                  (overlay-Written fs path i offset bytes v here f (ltb→le _ _ fits)),
            )
          ]
        ]
      ]

  Writing-IsValid :
      {fs gs : RamFs} {path bytes : List ℕ} {offset : ℕ} {r : Result ℕ VfsError}
      → Writing fs path offset bytes r gs
      → IsValid fs
      → IsValid gs
  Writing-IsValid (unresolved e lost) v = v
  Writing-IsValid (wrong_kind i here other) v = v
  Writing-IsValid (too_long i here f long) v = v
  Writing-IsValid (written i gs here f w) v = w.valid

  -- A write at the start of a file does not panic.
  pub write-IsValid :
      (fs : RamFs) (path bytes : List ℕ)
      → IsValid fs
      → length bytes < 2 ^ 64
      → (r : Result ℕ VfsError) × (gs : RamFs) × (write is_utf8 fs path 0 bytes ≡ some (r, gs))
        × IsValid gs
  write-IsValid fs path bytes v small =
      let (r, gs, e, w) = write_file_lem fs path 0 bytes v (omega arith) in
      (r, gs, e, Writing-IsValid w v)
