-- ===== src/Block/Transfers.antt =====
-- The transfers of kernel/src/block.rs: what reaches a driver, and why a transfer is refused.
use brane_os.Prelude.{
  ℕ, ◌+◌, ◌/◌, ◌%◌, ◌^◌, ◌≤◌, ◌<◌, ◌≡◌, ◌≢◌, ◌⊎◌, inl, inr, true, false, none, some, List, length,
  Result, ok, err, ltb, ◌==◌, checked_add_u64, arith, Bool-cases, Option-cases,
}
use brane_os.Block.{
  BlockError, invalid_device, invalid_buffer, out_of_range, is_read_only, BlockDeviceInfo,
  BlockDevice, RegisteredBlockDevice, BlockRegistry, validate_transfer, handle_read, handle_write,
  lookup, read, write,
}

-- The verdict on a transfer of `len` bytes at block `lba`.
pub data Verdict (info : BlockDeviceInfo) (lba len : ℕ)
    : Result (Unit {0}) BlockError → Type 0 where
  whole :
      0 < len
      → len % info.block_size ≡ 0
      → lba + len / info.block_size ≤ info.block_count
      → Verdict info lba len (ok tt)
  ill_sized : (len ≡ 0) ⊎ (len % info.block_size ≢ 0) → Verdict info lba len (err invalid_buffer)
  beyond :
      (info.block_count < lba + len / info.block_size) ⊎ (2 ^ 64 ≤ lba + len / info.block_size)
      → Verdict info lba len (err out_of_range)

pub validate_transfer_lem :
    (info : BlockDeviceInfo) (lba len : ℕ) → Verdict info lba len (validate_transfer info lba len)
unfolding validate_transfer checked_add_u64
validate_transfer_lem info lba len = elim (Bool-cases (len == 0)) [
  | inl empty ↦ rw empty (ill_sized (inl (ground arith)))
  | inr some_bytes ↦ elim (Bool-cases (len % info.block_size == 0)) [
    | inr ragged ↦ rw (some_bytes, ragged) (ill_sized (inr (λ e. ground arith)))
    | inl even ↦ elim (Bool-cases (ltb (lba + len / info.block_size) (2 ^ 64))) [
      | inr wraps ↦ rw (some_bytes, even, wraps) (beyond (inr (ground arith)))
      | inl fits ↦ elim (Bool-cases (ltb info.block_count (lba + len / info.block_size))) [
        | inl past ↦ rw (some_bytes, even, fits, past) (beyond (inl (ground arith)))
        | inr inside ↦
            rw (some_bytes, even, fits, inside) (whole (ground arith) (ground arith) (ground arith))
      ]
    ]
  ]
]

module _ {D W : Type 0} (driver : BlockDevice D W) where
  -- The outcomes of a write through the registry.
  pub data Writing (r : BlockRegistry driver) (w : W) (id lba : ℕ) (bytes : List ℕ)
      : Result (Unit {0}) BlockError → W → Type 0 where
    unknown : lookup driver r id ≡ none → Writing r w id lba bytes (err invalid_device) w
    protected :
        (h : RegisteredBlockDevice driver)
        → lookup driver r id ≡ some h
        → h.info.read_only ≡ true
        → Writing r w id lba bytes (err is_read_only) w
    refused :
        (h : RegisteredBlockDevice driver) (e : BlockError)
        → lookup driver r id ≡ some h
        → h.info.read_only ≡ false
        → Verdict h.info lba (length bytes) (err e)
        → Writing r w id lba bytes (err e) w
    driven :
        (h : RegisteredBlockDevice driver)
        → lookup driver r id ≡ some h
        → h.info.read_only ≡ false
        → Verdict h.info lba (length bytes) (ok tt)
        → Writing r w id lba bytes
            (driver.write_blocks w h.device lba bytes).0
            (driver.write_blocks w h.device lba bytes).1

  handle_write_lem :
      (r : BlockRegistry driver) (h : RegisteredBlockDevice driver) (w : W) (id lba : ℕ)
      (bytes : List ℕ)
      → lookup driver r id ≡ some h
      → Writing r w id lba bytes
          (handle_write driver h w lba bytes).0
          (handle_write driver h w lba bytes).1
  unfolding handle_write
  handle_write_lem r h w id lba bytes e = elim (Bool-cases h.info.read_only) [
    | inl guarded ↦ rw guarded (protected h e guarded)
    | inr open' ↦ simp open' (judged open' _ (validate_transfer_lem h.info lba (length bytes)))
  ]
    where
      judged :
          h.info.read_only ≡ false
          → (v : Result (Unit {0}) BlockError) → Verdict h.info lba (length bytes) v
          → let out = elim v as (λ _. Result (Unit {0}) BlockError × W) [
            | ok _ ↦ driver.write_blocks w h.device lba bytes
            | err x ↦ (err x, w)
          ] in
            Writing r w id lba bytes out.0 out.1
      judged open' (ok _) v = driven h e open' v
      judged open' (err x) v = refused h x e open' v

  -- A write reaches a driver only with a whole number of blocks, at least one, that lie inside the
  -- device, and only where the device may be written; the driver then gets exactly the bytes of the
  -- call. In every other case nothing changes and the error says why.
  pub write_lem :
      (r : BlockRegistry driver) (w : W) (id lba : ℕ) (bytes : List ℕ)
      → Writing r w id lba bytes (write driver r w id lba bytes).0 (write driver r w id lba bytes).1
  unfolding write
  write_lem r w id lba bytes = elim (Option-cases (lookup driver r id)) [
    | inl e ↦ rw (e, write) (unknown e)
    | inr (h, e) ↦ rw (e, write) (handle_write_lem r h w id lba bytes e)
  ]

  -- The outcomes of a read through the registry.
  pub data Reading (r : BlockRegistry driver) (w : W) (id lba len : ℕ)
      : Result (List ℕ) BlockError → W → Type 0 where
    nobody : lookup driver r id ≡ none → Reading r w id lba len (err invalid_device) w
    declined :
        (h : RegisteredBlockDevice driver) (e : BlockError)
        → lookup driver r id ≡ some h
        → Verdict h.info lba len (err e)
        → Reading r w id lba len (err e) w
    fetched :
        (h : RegisteredBlockDevice driver)
        → lookup driver r id ≡ some h
        → Verdict h.info lba len (ok tt)
        → Reading r w id lba len
            (driver.read_blocks w h.device lba len).0
            (driver.read_blocks w h.device lba len).1

  handle_read_lem :
      (r : BlockRegistry driver) (h : RegisteredBlockDevice driver) (w : W) (id lba len : ℕ)
      → lookup driver r id ≡ some h
      → (v : Result (Unit {0}) BlockError) → Verdict h.info lba len v
      → let out = elim v as (λ _. Result (List ℕ) BlockError × W) [
        | ok _ ↦ driver.read_blocks w h.device lba len
        | err x ↦ (err x, w)
      ] in
        Reading r w id lba len out.0 out.1
  handle_read_lem r h w id lba len e (ok _) v = fetched h e v
  handle_read_lem r h w id lba len e (err x) v = declined h x e v

  -- A read asks a driver only for a whole number of blocks, at least one, that lie inside the device;
  -- otherwise nothing changes and the error says why.
  pub read_lem :
      (r : BlockRegistry driver) (w : W) (id lba len : ℕ)
      → Reading r w id lba len (read driver r w id lba len).0 (read driver r w id lba len).1
  unfolding read handle_read
  read_lem r w id lba len = elim (Option-cases (lookup driver r id)) [
    | inl e ↦ rw (e, read) (nobody e)
    | inr (h, e) ↦
        rw (e, read) (handle_read_lem r h w id lba len e _ (validate_transfer_lem h.info lba len))
  ]
