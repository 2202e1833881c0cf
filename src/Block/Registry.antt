-- ===== src/Block/Registry.antt =====
-- The registry of kernel/src/block.rs: ids and names of the registered devices.
use brane_os.Prelude.{
  ℕ, ◌+◌, ◌≤◌, ◌^◌, ◌≡◌, ◌≢◌, refl, Bool, none, some, List, length, length-replicate, Result, ok,
  err, ◌==◌, if◌then◌else◌, arith,
}
use brane_os.Prelude.Slots.{find}
use brane_os.Block.Checks.{WellShaped, NameInUse}
use brane_os.Block.{
  BlockError, registry_full, duplicate_name, invalid_geometry, BlockDevice, RegisteredBlockDevice,
  BlockRegistry, max_block_devices, new, from_device, lookup,
}

module _ {D W : Type 0} (driver : BlockDevice D W) where
  -- The slots below `count` are in use and the others empty, and ids were handed out in order.
  pub record IsValid (r : BlockRegistry driver) : Type 0 where
    pub sized : length r.devices ≡ max_block_devices
    pub counted : r.count ≤ max_block_devices
    pub ids : (k : ℕ) → r.next_id ≤ k → lookup driver r k ≡ none

  pub new-IsValid : IsValid (new driver)
  unfolding new lookup find
  new-IsValid = record {
    sized = length-replicate max_block_devices none;
    counted = omega arith;
    ids = λ k h. refl;
  }

  -- The registry after the device was stored under the next id.
  pub record Registered (r : BlockRegistry driver) (h : RegisteredBlockDevice driver)
      (n : BlockRegistry driver) : Type 0 where
    pub one_more : n.count ≡ r.count + 1
    pub moved : n.next_id ≡ r.next_id + 1
    pub found : (k : ℕ) → lookup driver n k ≡ (if r.next_id == k then some h else lookup driver r k)
    pub valid : IsValid n

  -- The outcomes of `register`, in the order of the guards.
  pub data Registration (is_utf8 : List ℕ → Bool) (w : W) (r : BlockRegistry driver) (d : D)
      : Result ℕ BlockError → BlockRegistry driver → Type 0 where
    full : r.count ≡ max_block_devices → Registration is_utf8 w r d (err registry_full) r
    misshapen :
        r.count ≢ max_block_devices
        → (WellShaped driver w d → ⊥)
        → Registration is_utf8 w r d (err invalid_geometry) r
    taken :
        r.count ≢ max_block_devices
        → WellShaped driver w d
        → NameInUse driver is_utf8 r.devices (from_device driver w r.next_id d)
        → Registration is_utf8 w r d (err duplicate_name) r
    out_of_ids :
        r.count ≢ max_block_devices
        → WellShaped driver w d
        → (NameInUse driver is_utf8 r.devices (from_device driver w r.next_id d) → ⊥)
        → 2 ^ 16 ≤ r.next_id + 1
        → Registration is_utf8 w r d (err registry_full) r
    registered :
        (n : BlockRegistry driver)
        → r.count ≢ max_block_devices
        → WellShaped driver w d
        → (NameInUse driver is_utf8 r.devices (from_device driver w r.next_id d) → ⊥)
        → Registered r (record { info = from_device driver w r.next_id d; device = d }) n
        → Registration is_utf8 w r d (ok r.next_id) n
