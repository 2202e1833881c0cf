-- ===== src/Block.antt =====
-- kernel/src/block.rs: the registry of block devices and the checked transfers. A driver is an
-- interface, the trait `BlockDevice`: a device is a reference of type `D`, and the state behind all the
-- references is of type `W`. A read gives the bytes it puts into the buffer.
pub mod Transfers
pub mod Checks
pub mod Registry
mod Tests
use brane_os.Prelude.{
  ℕ, ◌+◌, ◌-◌, ◌*◌, ◌/◌, ◌%◌, ◌^◌, min, Bool, true, false, ◌&&◌, ◌||◌, not, Option, none, some,
  List, [], ◌∷◌, ◌++◌, length, take, drop, replicate, set, Result, ok, err, ok_or, ◌>>=◌, bit_and,
  ltb, leb, ◌==◌, if◌then◌else◌, checked_add_u64,
}
use brane_os.Prelude.Slots.{find}

abbrev pub max_block_devices : ℕ
max_block_devices = 16

abbrev pub max_block_device_name : ℕ
max_block_device_name = 24

abbrev pub min_block_size : ℕ
min_block_size = 512

abbrev pub max_block_size : ℕ
max_block_size = 65536

pub data BlockError : Type 0 where
  registry_full duplicate_name invalid_device invalid_geometry invalid_buffer out_of_range
        is_read_only busy unsupported io :
      BlockError

pub record BlockDeviceInfo : Type 0 where
  pub id : ℕ
  pub name : List ℕ
  pub name_len : ℕ
  pub block_size : ℕ
  pub block_count : ℕ
  pub read_only : Bool

-- The trait `BlockDevice`. The slice that a driver gets is a list of bytes, or, for a read, its length.
pub record BlockDevice (D W : Type 0) : Type 0 where
  pub name : W → D → List ℕ
  pub block_size : W → D → ℕ
  pub block_count : W → D → ℕ
  pub read_only : W → D → Bool
  pub read_blocks : W → D → ℕ → ℕ → Result (List ℕ) BlockError × W
  pub write_blocks : W → D → ℕ → List ℕ → Result (Unit {0}) BlockError × W
  pub flush : W → D → Result (Unit {0}) BlockError × W

-- `BlockDeviceInfo::name`: the bytes in use, or "invalid".
unfoldable pub info_name : (List ℕ → Bool) → BlockDeviceInfo → List ℕ
info_name is_utf8 info =
    let bytes = take info.name_len info.name in
    if is_utf8 bytes then bytes else 105 ∷ 110 ∷ 118 ∷ 97 ∷ 108 ∷ 105 ∷ 100 ∷ []

-- `checked_mul` on `u64`.
unfoldable pub capacity_bytes : BlockDeviceInfo → Option ℕ
capacity_bytes info =
    if ltb (info.block_count * info.block_size) (2 ^ 64)
    then some (info.block_count * info.block_size)
    else none

unfoldable pub validate_transfer : BlockDeviceInfo → ℕ → ℕ → Result (Unit {0}) BlockError
validate_transfer info lba buffer_len =
    if buffer_len == 0 || not (buffer_len % info.block_size == 0)
    then err invalid_buffer
    else ok_or out_of_range (checked_add_u64 lba (buffer_len / info.block_size)) >>= λ end.
        if ltb info.block_count end then err out_of_range else ok tt

unfoldable pub same_bytes : List ℕ → List ℕ → Bool
same_bytes [] [] = true
same_bytes (x ∷ xs) (y ∷ ys) = x == y && same_bytes xs ys
same_bytes _ _ = false

unfoldable pub is_power_of_two : ℕ → Bool
is_power_of_two n = not (n == 0) && bit_and n (n - 1) == 0

abbrev pub is_empty : List ℕ → Bool
is_empty [] = true
is_empty (_ ∷ _) = false

module _ {D W : Type 0} (driver : BlockDevice D W) where
  -- `BlockDeviceInfo::from_device`: the name is cut to 24 bytes.
  unfoldable pub from_device : W → ℕ → D → BlockDeviceInfo
  from_device w id device =
      let name = driver.name w device in
      let len = min (length name) max_block_device_name in
      record {
        id = id;
        name = take len name ++ drop len (replicate max_block_device_name 0);
        name_len = len;
        block_size = driver.block_size w device;
        block_count = driver.block_count w device;
        read_only = driver.read_only w device;
      }

  -- `RegisteredBlockDevice`, which is also the `BlockDeviceHandle` of a client.
  pub record RegisteredBlockDevice : Type 0 where
    pub info : BlockDeviceInfo
    pub device : D

  -- `BlockDeviceHandle::read`, `write` and `flush`.
  unfoldable pub handle_read : RegisteredBlockDevice → W → ℕ → ℕ → Result (List ℕ) BlockError × W
  handle_read h w lba buffer_len = elim (validate_transfer h.info lba buffer_len) [
    | ok _ ↦ driver.read_blocks w h.device lba buffer_len
    | err e ↦ (err e, w)
  ]

  unfoldable pub handle_write :
      RegisteredBlockDevice → W → ℕ → List ℕ → Result (Unit {0}) BlockError × W
  handle_write h w lba bytes =
      if h.info.read_only
      then (err is_read_only, w)
      else (elim (validate_transfer h.info lba (length bytes)) [
        | ok _ ↦ driver.write_blocks w h.device lba bytes
        | err e ↦ (err e, w)
      ])

  abbrev pub handle_flush : RegisteredBlockDevice → W → Result (Unit {0}) BlockError × W
  handle_flush h w = driver.flush w h.device

  pub record BlockRegistry : Type 0 where
    pub devices : List (Option RegisteredBlockDevice)
    pub count : ℕ
    pub next_id : ℕ

  unfoldable pub new : BlockRegistry
  new = record { devices = replicate max_block_devices none; count = 0; next_id = 1 }

  -- The tests on the geometry; a true answer is refused.
  unfoldable pub bad_geometry : W → D → Bool
  bad_geometry w device =
      let block_size = driver.block_size w device in
      is_empty (driver.name w device)
      || not (leb min_block_size block_size && leb block_size max_block_size)
      || not (is_power_of_two block_size)
      || driver.block_count w device == 0

  abbrev pub has_name : (List ℕ → Bool) → BlockDeviceInfo → RegisteredBlockDevice → Bool
  has_name is_utf8 candidate registered =
      same_bytes (info_name is_utf8 registered.info) (info_name is_utf8 candidate)

  -- The end of `register`: the next id and the slot.
  unfoldable pub store : BlockRegistry → BlockDeviceInfo → D → Result ℕ BlockError × BlockRegistry
  store r candidate device =
      if ltb (r.next_id + 1) (2 ^ 16)
      then (
        ok r.next_id,
        record {
          devices = set r.devices r.count (some (record { info = candidate; device = device }));
          count = r.count + 1;
          next_id = r.next_id + 1;
        },
      )
      else (err registry_full, r)

  unfoldable pub register :
      (List ℕ → Bool) → W → BlockRegistry → D → Result ℕ BlockError × BlockRegistry
  register is_utf8 w r device =
      let candidate = from_device w r.next_id device in
      if r.count == max_block_devices
      then (err registry_full, r)
      else if bad_geometry w device
      then (err invalid_geometry, r)
      else (elim (find (has_name is_utf8 candidate) r.devices) [
        | some _ ↦ (err duplicate_name, r)
        | none ↦ store r candidate device
      ])

  abbrev pub has_id : ℕ → RegisteredBlockDevice → Bool
  has_id k registered = registered.info.id == k

  -- `BlockRegistry::find`, which is `handle` too.
  unfoldable pub lookup : BlockRegistry → ℕ → Option RegisteredBlockDevice
  lookup r id = find (has_id id) (take r.count r.devices)

  unfoldable pub info : BlockRegistry → ℕ → Option BlockDeviceInfo
  info r id = elim (lookup r id) [ some h ↦ some h.info | none ↦ none ]

  unfoldable pub read : BlockRegistry → W → ℕ → ℕ → ℕ → Result (List ℕ) BlockError × W
  read r w id lba buffer_len = elim (lookup r id) [
    | some h ↦ handle_read h w lba buffer_len
    | none ↦ (err invalid_device, w)
  ]

  unfoldable pub write : BlockRegistry → W → ℕ → ℕ → List ℕ → Result (Unit {0}) BlockError × W
  write r w id lba bytes = elim (lookup r id) [
    | some h ↦ handle_write h w lba bytes
    | none ↦ (err invalid_device, w)
  ]

  unfoldable pub flush : BlockRegistry → W → ℕ → Result (Unit {0}) BlockError × W
  flush r w id = elim (lookup r id) [ some h ↦ handle_flush h w | none ↦ (err invalid_device, w) ]
