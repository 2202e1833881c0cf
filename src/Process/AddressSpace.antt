-- ===== src/Process/AddressSpace.antt =====
-- `AddressSpaceState` of kernel/src/process.rs: a generation that mapping changes bump and that
-- readers pin. `pins` is a `u32` and `generation` a `u64`, both guarded by checked additions.
use brane_os.Prelude.{ℕ, ◌+◌, ◌-◌, ◌^◌, ◌||◌, not, Result, ok, err, ltb, ◌==◌, if◌then◌else◌}

pub record AddressSpaceState : Type 0 where
  pub generation : ℕ
  pub pins : ℕ

pub record AddressSpacePin : Type 0 where
  pub pid : ℕ
  pub generation : ℕ

pub data AddressSpaceError : Type 0 where
  not_found busy invalid_pin pin_count_exhausted generation_exhausted : AddressSpaceError

unfoldable pub new : AddressSpaceState
new = record { generation = 1; pins = 0 }

-- `AddressSpaceState::pin`.
unfoldable pub pin :
    AddressSpaceState → ℕ → Result AddressSpacePin AddressSpaceError × AddressSpaceState
pin s pid =
    if ltb (s.pins + 1) (2 ^ 32)
    then (ok (record { pid = pid; generation = s.generation }), record s { pins = s.pins + 1 })
    else (err pin_count_exhausted, s)

-- `AddressSpaceState::release`, which consumes the pin.
unfoldable pub release :
    AddressSpaceState → AddressSpacePin → Result (Unit {0}) AddressSpaceError × AddressSpaceState
release s p =
    if not (p.generation == s.generation) || s.pins == 0
    then (err invalid_pin, s)
    else (ok tt, record s { pins = s.pins - 1 })

-- `AddressSpaceState::bump_generation`.
unfoldable pub bump_generation : AddressSpaceState → Result ℕ AddressSpaceError × AddressSpaceState
bump_generation s =
    if not (s.pins == 0)
    then (err busy, s)
    else if ltb (s.generation + 1) (2 ^ 64)
    then (ok (s.generation + 1), record s { generation = s.generation + 1 })
    else (err generation_exhausted, s)
