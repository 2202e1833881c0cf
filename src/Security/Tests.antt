-- ===== src/Security/Tests.antt =====
-- The theorems on capabilities at concrete tables.
use brane_os.Prelude.{ℕ, ◌≡◌, ◌≢◌, refl, ◌⊎◌, true, false, some, [], ◌∷◌, ok, err, replicate, arith}
use brane_os.Prelude.Slots.{fill_free, find}
use brane_os.Audit
use brane_os.Audit.{Stamp, success, capability_granted, capability_revoked}
use brane_os.Audit.Retention.{new-Retains}
use brane_os.Security.{
  CapabilityManager, Capability, CapError, system, low, high, new, token, grant_cap, revoke_cap,
  check, max_capabilities, active_count, table_full, permission_denied,
}
use brane_os.Security.Table.{
  IsValid, lookup, Granted, grant_cap_lem, Revocation, revoke_cap_lem, new-IsValid,
}
use brane_os.Security.Checks.{Covers, check_decides}
use brane_os.Security.Lifetime.{grants, revokes, after, after-IsValid, revoked_for_good}
use brane_os.Security.Service.{Services, revoke_capability}
use brane_os.Security.Service.Audited.{
  Logged, owner_of, revocation_result, revoke_capability_audited,
}

-- Token 1 of task 5 for reading and writing, which can be revoked.
abbrev table : CapabilityManager
table = after new (grants 5 system 3 low true ∷ [])

table-IsValid : IsValid table
unfolding new
table-IsValid = after-IsValid (grants 5 system 3 low true ∷ []) new new-IsValid (omega arith)

check-table : check table 5 2 system ≡ ok 1
unfolding check after grant_cap fill_free new replicate find token
check-table = refl

revoke-table : (revoke_cap table 1).0 ≡ ok tt
unfolding revoke_cap after grant_cap fill_free new replicate find token
revoke-table = refl

grant_cap_lem_example :
    let (r, n) = grant_cap new 5 system 3 low true in
    ((r ≡ ok 1) × Granted new (token 1 5 system 3 low true) n)
    ⊎ ((active_count new ≡ max_capabilities) × (r ≡ err table_full) × (n ≡ new))
unfolding new
grant_cap_lem_example = grant_cap_lem new 5 system 3 low true new-IsValid (omega arith)

revoke_cap_lem_example : Revocation table 1 (revoke_cap table 1).0 (revoke_cap table 1).1
revoke_cap_lem_example = revoke_cap_lem table 1 table-IsValid

check_decides_example :
    ((i : ℕ)
      → check table 5 2 system ≡ ok i
      → (c : Capability) × (lookup table i ≡ some c) × Covers c 5 2 system)
    × ((e : CapError)
        → check table 5 2 system ≡ err e
        → (e ≡ permission_denied)
          × ((i : ℕ) (c : Capability) → lookup table i ≡ some c → ¬ Covers c 5 2 system))
check_decides_example = check_decides table 5 2 system table-IsValid

-- Another grant, to the same task, follows the revocation of token 1.
revoked_for_good_example :
    check (after (revoke_cap table 1).1 (grants 5 system 3 high false ∷ revokes 7 ∷ [])) 5 2 system
    ≢ ok 1
unfolding after grant_cap fill_free new replicate
revoked_for_good_example =
    revoked_for_good table 1 (grants 5 system 3 high false ∷ revokes 7 ∷ []) table-IsValid
      revoke-table (omega arith) 5 2 system

abbrev services : Services
services = record { caps = table; audit = Audit.new }

abbrev now : Stamp
now = record { tick = 40; cpu_id = 1 }

revoke_capability_audited_example :
    let (r, t) = revoke_capability now services 1 in
    Logged now [] t.audit (owner_of table 1) (capability_revoked 1) (revocation_result table 1)
revoke_capability_audited_example = revoke_capability_audited now services [] 1 new-Retains
