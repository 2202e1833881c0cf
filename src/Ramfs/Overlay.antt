-- ===== src/Ramfs/Overlay.antt =====
-- The inode of kernel/src/ramfs.rs that bytes were written to.
use brane_os.Prelude.{
  ℕ, subst, ◌-◌, ◌&&◌, max, get_or, dec_lt, get_or-append_inside, get_or-append_behind, get_or-take,
  ◌+◌, ◌≤◌, ◌<◌, ◌≡◌, inl, inr, refl, ap, sym, ◌∙◌, Bool, true, List, [], ◌∷◌, ◌++◌, length, take,
  drop, ok, ltb, leb, if◌then◌else◌, arith, Bool-cases, length-append, length-take, length-drop,
}
use brane_os.Prelude.Bytes.{Left, Left-all, Left-after, take-Left, get_or-drop}
use brane_os.Ramfs.Store.{Inode, RamFs, max_inodes, max_file_size, is_file, inode_at, put}
use brane_os.Ramfs.Valid.{IsValid, inode_at-put}
use brane_os.Ramfs.{read_inode, overlay}
use brane_os.Ramfs.Lookup.{shape, SameShape}

nil_of : (bytes : List ℕ) → length bytes ≡ 0 → [] ≡ bytes
nil_of [] e = refl
nil_of (b ∷ bs) e = absurd (omega (arith, e))

-- The bytes of a buffer after others were put over it.
pub byte-overlay :
    (old bytes : List ℕ) (offset k : ℕ)
    → offset + length bytes ≤ length old
    → get_or (take offset old ++ (bytes ++ drop (offset + length bytes) old)) k 0 ≡ (
        if leb offset k && ltb k (offset + length bytes)
        then get_or bytes (k - offset) 0
        else get_or old k 0)
byte-overlay old bytes offset k l = elim (dec_lt k offset) [
  | yes before ↦
      get_or-append_inside front _ k 0 (omega (arith, taken, before))
      ∙ get_or-take offset old k 0 before
      ∙ ground (arith, before)
  | no later ↦
      get_or-append_behind front _ k 0 (omega (arith, taken, later))
      ∙ ap (λ j. get_or (bytes ++ rest) j 0) {y = k - offset} (omega (arith, taken, later))
      ∙ (elim (dec_lt k (offset + length bytes)) [
        | yes inside ↦
            get_or-append_inside bytes rest (k - offset) 0 (omega (arith, inside, later))
            ∙ ground (arith, inside, later)
        | no behind ↦
            get_or-append_behind bytes rest (k - offset) 0 (omega (arith, behind, later))
            ∙ get_or-drop (offset + length bytes) (k - offset - length bytes) old 0
            ∙ ap (λ j. get_or old j 0) {y = k} (omega (arith, behind, later))
            ∙ ground (arith, behind, later)
      ])
]
  where
    front : List ℕ
    front = take offset old

    rest : List ℕ
    rest = drop (offset + length bytes) old

    taken : length front ≡ offset
    taken = omega (arith, l, length-take offset old)

module _ (is_utf8 : List ℕ → Bool) where
  -- What a read gives where the write put its bytes.
  pub read_inode-overlay :
      (n : Inode) (offset : ℕ) (bytes : List ℕ)
      → length n.contents ≡ max_file_size
      → offset + length bytes ≤ max_file_size
      → is_file n.node_type ≡ true
      → read_inode is_utf8
          (overlay is_utf8 n offset (offset + length bytes) bytes)
          offset
          (length bytes)
        ≡ ok bytes
  unfolding read_inode overlay
  read_inode-overlay n offset bytes s l f =
      let end = offset + length bytes in
      let kept = if ltb n.data_len end then end else n.data_len in
      let rest = drop end n.contents in
      let buffer = take offset n.contents ++ (bytes ++ rest) in
      let grown : end ≤ kept = ground arith in
      let at_offset : Left buffer offset (bytes ++ rest) =
        subst (λ k. Left buffer k (bytes ++ rest))
          (omega (arith, length-take offset n.contents, s, l))
          (Left-after (take offset n.contents) (Left-all buffer)) in
      elim (Bool-cases (leb kept offset)) [
        | inl behind ↦ rw (f, behind) (ap ok (nil_of bytes (ground (arith, behind, grown))))
        | inr before ↦
            rw (f, before)
              (ap ok (
                ap (λ k. take k (drop offset buffer)) (ground (arith, before, grown))
                ∙ take-Left bytes rest at_offset))
      ]

  pub overlay-SameShape :
      (fs : RamFs) (i offset : ℕ) (bytes : List ℕ)
      → IsValid fs
      → i < max_inodes
      → SameShape fs
          (put fs i (overlay is_utf8 (inode_at fs i) offset (offset + length bytes) bytes))
  unfolding overlay
  overlay-SameShape fs i offset bytes v l j =
      elim (inode_at-put fs i j
        (overlay is_utf8 (inode_at fs i) offset (offset + length bytes) bytes) v.sized l) [
          | inl (e, p) ↦ ap shape p ∙ ap (λ k. shape (inode_at fs k)) (sym e)
          | inr (_, p) ↦ ap shape p
        ]

  pub length-overlay :
      (n : Inode) (offset : ℕ) (bytes : List ℕ)
      → length n.contents ≡ max_file_size
      → offset + length bytes ≤ max_file_size
      → length (overlay is_utf8 n offset (offset + length bytes) bytes).contents ≡ max_file_size
  unfolding overlay
  length-overlay n offset bytes s l =
      let rest = drop (offset + length bytes) n.contents in
      omega (
        arith,
        s,
        l,
        length-append (take offset n.contents) (bytes ++ rest),
        length-append bytes rest,
        length-take offset n.contents,
        length-drop (offset + length bytes) n.contents,
      )

  pub size-overlay :
      (n : Inode) (offset end : ℕ) (bytes : List ℕ)
      → (overlay is_utf8 n offset end bytes).data_len ≡ max n.data_len end
  unfolding overlay
  size-overlay n offset end bytes = ground arith
