-- ===== src/Security.antt =====
-- kernel/src/security.rs: capability tokens, the table of 256 of them, and its checks. Log lines are
-- left out; `revoke_capability` and `grant_capability`, which also write the audit log, are in Service.
pub mod Permissions
pub mod Table
pub mod Checks
pub mod Lifetime
pub mod Service
mod Tests
use brane_os.Prelude.{
  ℕ, ◌≡◌, Bool, true, false, ◌&&◌, Option, none, some, List, replicate, Result, ok, err, ◌==◌,
  if◌then◌else◌, bit_and, bit_or, add_u64, ◌^◌,
}
use brane_os.Prelude.Slots.{fill_free, find, clear, entries, keep, used}

pub data RiskLevel : Type 0 where
  low medium high critical : RiskLevel

pub data CapScope : Type 0 where
  process : ℕ → CapScope
  service : ℕ → CapScope
  system : CapScope
  brane : ℕ → CapScope

-- The derived equality of scopes.
unfoldable pub scope_eq : CapScope → CapScope → Bool
scope_eq (process a) (process b) = a == b
scope_eq (service a) (service b) = a == b
scope_eq system system = true
scope_eq (brane a) (brane b) = a == b
scope_eq _ _ = false

-- `CapPermissions`, a `u32` bit field; a permission is the mask `1 << n`.
abbrev pub CapPermissions : Type 0
CapPermissions = ℕ

pub data Permission : Type 0 where
  read write execute grant revoke ipc_send ipc_recv brane_connect brane_discover : Permission
  process_create process_signal memory_map brane_send brane_recv : Permission

-- The bit of each named permission.
unfoldable pub bit_of : Permission → ℕ
bit_of read = 0
bit_of write = 1
bit_of execute = 2
bit_of grant = 3
bit_of revoke = 4
bit_of ipc_send = 5
bit_of ipc_recv = 6
bit_of brane_connect = 7
bit_of brane_discover = 8
bit_of process_create = 9
bit_of process_signal = 10
bit_of memory_map = 11
bit_of brane_send = 12
bit_of brane_recv = 13

unfoldable pub mask : Permission → CapPermissions
mask p = 2 ^ bit_of p

-- `CapPermissions::has`.
unfoldable pub has : CapPermissions → CapPermissions → Bool
has held perm = bit_and held perm == perm

-- `CapPermissions::union`.
unfoldable pub union : CapPermissions → CapPermissions → CapPermissions
union a b = bit_or a b

pub record Capability : Type 0 where
  pub id : ℕ
  pub owner : ℕ
  pub scope : CapScope
  pub permissions : CapPermissions
  pub risk_level : RiskLevel
  pub revocable : Bool

pub data CapError : Type 0 where
  not_found permission_denied already_revoked table_full invalid_scope : CapError

abbrev pub max_capabilities : ℕ
max_capabilities = 256

pub record CapabilityManager : Type 0 where
  pub capabilities : List (Option Capability)
  pub next_id : ℕ

unfoldable pub new : CapabilityManager
new = record { capabilities = replicate max_capabilities none; next_id = 1 }

-- The `Capability` that `grant` stores.
unfoldable pub token : ℕ → ℕ → CapScope → CapPermissions → RiskLevel → Bool → Capability
token id owner scope permissions risk_level revocable = record {
  id = id;
  owner = owner;
  scope = scope;
  permissions = permissions;
  risk_level = risk_level;
  revocable = revocable;
}

-- `CapabilityManager::grant`: the first free slot takes the token, and only then the counter moves.
unfoldable pub grant_cap :
    CapabilityManager
    → ℕ
    → CapScope
    → CapPermissions
    → RiskLevel
    → Bool
    → Result ℕ CapError × CapabilityManager
grant_cap m owner scope permissions risk_level revocable =
    elim (fill_free (token m.next_id owner scope permissions risk_level revocable) m.capabilities) [
      | some slots ↦
          (ok m.next_id, record m { capabilities = slots; next_id = add_u64 m.next_id 1 })
      | none ↦ (err table_full, m)
    ]

-- The test in the loop of `check`.
unfoldable pub authorizes : ℕ → CapPermissions → CapScope → Capability → Bool
unfolding has scope_eq
authorizes task required scope cap =
    cap.owner == task && (scope_eq cap.scope scope && has cap.permissions required)

-- `CapabilityManager::check`.
unfoldable pub check : CapabilityManager → ℕ → CapPermissions → CapScope → Result ℕ CapError
unfolding authorizes
check m task required scope = elim (find (authorizes task required scope) m.capabilities) [
  | some cap ↦ ok cap.id
  | none ↦ err permission_denied
]

abbrev pub has_id : ℕ → Capability → Bool
has_id k c = c.id == k

-- `CapabilityManager::revoke`: the first slot with the id is emptied if its token is revocable.
unfoldable pub revoke_cap : CapabilityManager → ℕ → Result (Unit {0}) CapError × CapabilityManager
revoke_cap m cap_id = elim (find (has_id cap_id) m.capabilities) [
  | some cap ↦
      if cap.revocable
      then (ok tt, record m { capabilities = clear (has_id cap_id) m.capabilities })
      else (err permission_denied, m)
  | none ↦ (err not_found, m)
]

-- `CapabilityManager::list_for_task`.
unfoldable pub list_for_task : CapabilityManager → ℕ → List Capability
list_for_task m task = keep (λ c. c.owner == task) (entries m.capabilities)

-- `CapabilityManager::active_count`.
unfoldable pub active_count : CapabilityManager → ℕ
active_count m = used m.capabilities
