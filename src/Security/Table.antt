-- ===== src/Security/Table.antt =====
-- The capability table as a finite map from ids to tokens.
use brane_os.Prelude.{
  ℕ, ◌+◌, ◌^◌, ◌<◌, ◌≡◌, refl, ◌∙◌, subst, ◌⊎◌, inl, inr, Bool, true, false, Option, none, some,
  length, length-replicate, Result, ok, err, ◌==◌, if◌then◌else◌, arith, Option-cases, Bool-cases,
}
use brane_os.Prelude.Slots.{
  fill_free, find, clear, fill_free-none, fill_free-some, length-clear, used-clear,
}
use brane_os.Prelude.Slots.Keyed.{
  Keyed, Keyed-replicate, find-fill_free, fill_free-Keyed, find-clear, clear-Keyed,
}
use brane_os.Security.{
  CapabilityManager, Capability, CapScope, CapPermissions, CapError, RiskLevel, max_capabilities,
  new, token, grant_cap, revoke_cap, has_id, active_count, table_full, permission_denied, not_found,
}

-- Ids are distinct and were all handed out before `next_id`.
pub record IsValid (m : CapabilityManager) : Type 0 where
  pub sized : length m.capabilities ≡ max_capabilities
  pub keyed : Keyed (λ c. c.id) m.next_id m.capabilities
  pub counter : m.next_id < 2 ^ 64

unfoldable pub lookup : CapabilityManager → ℕ → Option Capability
lookup m k = find (has_id k) m.capabilities

pub new-IsValid : IsValid new
unfolding new
new-IsValid = record {
  sized = length-replicate max_capabilities none;
  keyed = Keyed-replicate (λ c. c.id) 1 max_capabilities;
  counter = omega arith;
}

-- The table after a token was stored under a fresh id.
pub record Granted (m : CapabilityManager) (cap : Capability) (n : CapabilityManager) : Type 0 where
  pub had_room : active_count m < max_capabilities
  pub one_more : active_count n ≡ active_count m + 1
  pub moved : n.next_id ≡ m.next_id + 1
  pub found : (k : ℕ) → lookup n k ≡ (if m.next_id == k then some cap else lookup m k)
  pub valid : IsValid n

-- What a grant does, on both branches, while ids are left: with a free slot it hands out the next id
-- and the lookup gains exactly the new token; with 256 tokens it answers `TableFull` and changes
-- nothing.
pub grant_cap_lem :
    (m : CapabilityManager) (owner : ℕ) (scope : CapScope) (perms : CapPermissions)
    (risk : RiskLevel) (revocable : Bool)
    → IsValid m
    → m.next_id + 1 < 2 ^ 64
    → let (r, n) = grant_cap m owner scope perms risk revocable in
      ((r ≡ ok m.next_id) × Granted m (token m.next_id owner scope perms risk revocable) n)
      ⊎ ((active_count m ≡ max_capabilities) × (r ≡ err table_full) × (n ≡ m))
unfolding grant_cap active_count lookup token
grant_cap_lem m owner scope perms risk revocable v room =
    elim (Option-cases (fill_free cap m.capabilities)) [
      | inl full ↦
          rw (full, grant_cap) (inr (fill_free-none cap m.capabilities full ∙ v.sized, refl, refl))
      | inr (slots, e) ↦
          let counts = fill_free-some cap m.capabilities e in
          rw (e, grant_cap)
            (inl (
              refl,
              record {
                had_room = omega (arith, v.sized, counts.1);
                one_more = counts.0;
                moved = omega arith;
                found =
                    λ k. find-fill_free (λ c. c.id) m.next_id k cap m.capabilities v.keyed refl e;
                valid = record {
                  sized = counts.2 ∙ v.sized;
                  keyed =
                      subst (λ n. Keyed (λ c. c.id) n slots) (omega arith)
                        (fill_free-Keyed (λ c. c.id) m.next_id cap m.capabilities v.keyed refl e);
                  counter = omega arith;
                };
              },
            ))
    ]
  where
    cap : Capability
    cap = token m.next_id owner scope perms risk revocable

-- The table after the token under `k` was taken out.
pub record Revoked (m : CapabilityManager) (k : ℕ) (n : CapabilityManager) : Type 0 where
  pub kept_counter : n.next_id ≡ m.next_id
  pub one_less : active_count n + 1 ≡ active_count m
  pub found : (j : ℕ) → lookup n j ≡ (if k == j then none else lookup m j)
  pub valid : IsValid n

-- The three outcomes of a revocation.
pub data Revocation (m : CapabilityManager) (k : ℕ)
    : Result (Unit {0}) CapError → CapabilityManager → Type 0 where
  missing : lookup m k ≡ none → Revocation m k (err not_found) m
  irrevocable :
      (c : Capability)
      → lookup m k ≡ some c
      → c.revocable ≡ false
      → Revocation m k (err permission_denied) m
  revoked :
      (c : Capability) (n : CapabilityManager)
      → lookup m k ≡ some c
      → c.revocable ≡ true
      → Revoked m k n
      → Revocation m k (ok tt) n

-- A revocation takes out the token under the id if it is there and revocable; otherwise it answers
-- `NotFound` or `PermissionDenied` and changes nothing. No other token is touched.
pub revoke_cap_lem :
    (m : CapabilityManager) (k : ℕ)
    → IsValid m
    → Revocation m k (revoke_cap m k).0 (revoke_cap m k).1
unfolding revoke_cap active_count lookup
revoke_cap_lem m k v = elim (Option-cases (lookup m k)) [
  | inl e ↦ rw (e, revoke_cap) (missing e)
  | inr (c, e) ↦ elim (Bool-cases c.revocable) [
    | inl yes' ↦ rw (e, revoke_cap, yes') (revoked c _ e yes' (taken c e))
    | inr no' ↦ rw (e, revoke_cap, no') (irrevocable c e no')
  ]
]
  where
    taken :
        (c : Capability)
        → lookup m k ≡ some c
        → Revoked m k (record m { capabilities = clear (has_id k) m.capabilities })
    taken c e = record {
      kept_counter = refl;
      one_less = used-clear (has_id k) m.capabilities e;
      found = λ j. find-clear (λ c. c.id) m.next_id j k m.capabilities v.keyed;
      valid = record {
        sized = length-clear (has_id k) m.capabilities ∙ v.sized;
        keyed = clear-Keyed (λ c. c.id) m.next_id k m.capabilities v.keyed;
        counter = v.counter;
      };
    }
