-- ===== src/Security/Checks.antt =====
-- What an answer of `CapabilityManager::check` means.
use brane_os.Prelude.{
  ℕ, ◌≡◌, refl, Bool, true, some, ok, err, ok_injective, err_injective, inl, inr, sym, subst, arith,
  Option-cases,
}
use brane_os.Prelude.Slots.{find, find_satisfies, find-none}
use brane_os.Prelude.Slots.Keyed.{find_own_key}
use brane_os.Security.{
  CapabilityManager, Capability, CapScope, process, service, system, brane, CapPermissions,
  CapError, scope_eq, authorizes, check, has_id, permission_denied,
}
use brane_os.Security.Permissions.{Allows, has_iff}
use brane_os.Security.Table.{IsValid, lookup}

scope_eq→eq : (a b : CapScope) → scope_eq a b ≡ true → a ≡ b
unfolding scope_eq
scope_eq→eq (process a) (process b) h = ground arith
scope_eq→eq (service a) (service b) h = ground arith
scope_eq→eq system system h = refl
scope_eq→eq (brane a) (brane b) h = ground arith
scope_eq→eq _ _ h = ground arith

scope_eq_refl : (a : CapScope) → scope_eq a a ≡ true
unfolding scope_eq
scope_eq_refl (process a) = ground arith
scope_eq_refl (service a) = ground arith
scope_eq_refl system = refl
scope_eq_refl (brane a) = ground arith

-- A token of the task for exactly this scope, with every required permission bit.
pub record Covers (c : Capability) (task : ℕ) (required : CapPermissions) (scope : CapScope)
    : Type 0 where
  pub owned : c.owner ≡ task
  pub scoped : c.scope ≡ scope
  pub allowed : Allows c.permissions required

authorizes-Covers :
    (c : Capability) (task : ℕ) (required : CapPermissions) (scope : CapScope)
    → authorizes task required scope c ≡ true
    → Covers c task required scope
unfolding authorizes
authorizes-Covers c task required scope h = record {
  owned = ground arith;
  scoped = scope_eq→eq c.scope scope (ground arith);
  allowed = (has_iff c.permissions required).0 (ground arith);
}

Covers-authorizes :
    (c : Capability) (task : ℕ) (required : CapPermissions) (scope : CapScope)
    → Covers c task required scope
    → authorizes task required scope c ≡ true
unfolding authorizes
Covers-authorizes c task required scope v =
    rw (v.owned, v.scoped, scope_eq_refl scope, (has_iff c.permissions required).1 v.allowed)
      (ground arith)

-- `check` decides whether the table holds a token that covers the request: it answers `Ok` with the
-- id of a token in the table that belongs to the task, has exactly the scope and holds every required
-- permission bit, and it answers `PermissionDenied` only where no token in the table does.
pub check_decides :
    (m : CapabilityManager) (task : ℕ) (required : CapPermissions) (scope : CapScope)
    → IsValid m
    → ((i : ℕ)
        → check m task required scope ≡ ok i
        → (c : Capability) × (lookup m i ≡ some c) × Covers c task required scope)
      × ((e : CapError)
          → check m task required scope ≡ err e
          → (e ≡ permission_denied)
            × ((i : ℕ) (c : Capability) → lookup m i ≡ some c → ¬ Covers c task required scope))
unfolding check lookup
check_decides m task required scope v = elim (Option-cases (find test m.capabilities)) [
  | inl e ↦ (
    λ i h. absurd (cc (sym (rw (e, check) at h))),
    λ f h. (
      sym (err_injective (rw (e, check) at h)),
      λ i c found covers. cc (
        find-none test (has_id i) m.capabilities e found,
        Covers-authorizes c task required scope covers,
      ),
    ),
  )
  | inr (c, e) ↦ (
    λ i h. (
      c,
      subst (λ k. find (has_id k) m.capabilities ≡ some c) (ok_injective (rw (e, check) at h))
          (find_own_key (λ c. c.id) m.next_id test m.capabilities v.keyed e),
      authorizes-Covers c task required scope (find_satisfies test m.capabilities e),
    ),
    λ f h. absurd (cc (sym (rw (e, check) at h))),
  )
]
  where
    test : Capability → Bool
    test = authorizes task required scope
