-- ===== src/Security/Lifetime.antt =====
-- Capability tokens over time: sequences of grants and revocations.
use brane_os.Prelude.{
  ℕ, ◌+◌, ◌^◌, ◌≤◌, ◌<◌, ◌≡◌, ◌≢◌, Bool, inl, inr, none, List, [], ◌∷◌, length, Result, ok, arith,
}
use brane_os.Prelude.Slots.Keyed.{find_below}
use brane_os.Security.{
  CapabilityManager, CapScope, CapPermissions, RiskLevel, CapError, grant_cap, revoke_cap, check,
}
use brane_os.Security.Table.{
  IsValid, lookup, grant_cap_lem, Revocation, missing, irrevocable, revoked, revoke_cap_lem,
}
use brane_os.Security.Checks.{check_decides}

pub data Op : Type 0 where
  grants : ℕ → CapScope → CapPermissions → RiskLevel → Bool → Op
  revokes : ℕ → Op

unfoldable pub step : CapabilityManager → Op → CapabilityManager
step m (grants owner scope perms risk revocable) = (grant_cap m owner scope perms risk revocable).1
step m (revokes k) = (revoke_cap m k).1

unfoldable pub after : CapabilityManager → List Op → CapabilityManager
unfolding step
after m [] = m
after m (op ∷ ops) = after (step m op) ops

-- What every step keeps: validity, at most one id used up, and the absence of an old id.
record Keeps (m n : CapabilityManager) : Type 0 where
  valid : IsValid n
  counter : (m.next_id ≤ n.next_id) × (n.next_id ≤ m.next_id + 1)
  absent : (k : ℕ) → k < m.next_id → lookup m k ≡ none → lookup n k ≡ none

Revocation-Keeps :
    (m : CapabilityManager) (k : ℕ) {r : Result (Unit {0}) CapError} {n : CapabilityManager}
    → IsValid m
    → Revocation m k r n
    → Keeps m n
Revocation-Keeps m k v (missing e) = record {
  valid = v;
  counter = omega arith;
  absent = λ j _ h. h;
}
Revocation-Keeps m k v (irrevocable c e f) = record {
  valid = v;
  counter = omega arith;
  absent = λ j _ h. h;
}
Revocation-Keeps m k v (revoked c n e f t) = record {
  valid = t.valid;
  counter = omega (arith, t.kept_counter);
  absent = λ j _ h. ground (arith, t.found j);
}

step-Keeps :
    (m : CapabilityManager) (op : Op) → IsValid m → m.next_id + 1 < 2 ^ 64 → Keeps m (step m op)
unfolding step
step-Keeps m (revokes k) v room = Revocation-Keeps m k v (revoke_cap_lem m k v)
step-Keeps m (grants owner scope perms risk revocable) v room =
    elim (grant_cap_lem m owner scope perms risk revocable v room) [
      | inl (_, g) ↦ record {
        valid = g.valid;
        counter = omega (arith, g.moved);
        absent = λ k old h. ground (arith, g.found k);
      }
      | inr (_, _, same) ↦
          rw same (record { valid = v; counter = omega arith; absent = λ j _ h. h })
    ]

after-Keeps :
    (ops : List Op) (m : CapabilityManager) (k : ℕ)
    → IsValid m
    → m.next_id + length ops < 2 ^ 64
    → k < m.next_id
    → lookup m k ≡ none
    → IsValid (after m ops) × (lookup (after m ops) k ≡ none)
unfolding after
after-Keeps [] m k v room old h = (v, h)
after-Keeps (op ∷ ops) m k v room old h =
    let kept = step-Keeps m op v (omega arith) in
    after-Keeps ops (step m op) k kept.valid (omega (arith, kept.counter))
      (omega (arith, kept.counter)) (kept.absent k old h)

pub after-IsValid :
    (ops : List Op) (m : CapabilityManager)
    → IsValid m
    → m.next_id + length ops < 2 ^ 64
    → IsValid (after m ops)
unfolding after
after-IsValid [] m v room = v
after-IsValid (op ∷ ops) m v room =
    let kept = step-Keeps m op v (omega arith) in
    after-IsValid ops (step m op) kept.valid (omega (arith, kept.counter))

-- The table that a successful revocation leaves.
record Gone (m : CapabilityManager) (k : ℕ) (n : CapabilityManager) : Type 0 where
  valid : IsValid n
  counter : n.next_id ≡ m.next_id
  absent : lookup n k ≡ none
  old : k < m.next_id

Revocation-Gone :
    (m : CapabilityManager) (k : ℕ) {r : Result (Unit {0}) CapError} {n : CapabilityManager}
    → IsValid m
    → Revocation m k r n
    → r ≡ ok tt
    → Gone m k n
unfolding lookup
Revocation-Gone m k v (missing e) done = absurd (cc)
Revocation-Gone m k v (irrevocable c e f) done = absurd (cc)
Revocation-Gone m k v (revoked c n e f t) done = record {
  valid = t.valid;
  counter = t.kept_counter;
  absent = ground (arith, t.found k);
  old = (find_below (λ c. c.id) m.next_id k m.capabilities v.keyed e).1;
}

-- Once a revocation has succeeded, whatever grants and revocations follow, as long as the 64-bit id
-- counter does not run out, no check of any task, permission or scope is ever authorized by that
-- token again.
pub revoked_for_good :
    (m : CapabilityManager) (k : ℕ) (ops : List Op)
    → IsValid m
    → (revoke_cap m k).0 ≡ ok tt
    → m.next_id + length ops < 2 ^ 64
    → (task : ℕ) (required : CapPermissions) (scope : CapScope)
    → check (after (revoke_cap m k).1 ops) task required scope ≢ ok k
revoked_for_good m k ops v done room task required scope granted =
    let gone = Revocation-Gone m k v (revoke_cap_lem m k v) done in
    let kept =
      after-Keeps ops (revoke_cap m k).1 k gone.valid (omega (arith, gone.counter))
        (omega (arith, gone.counter, gone.old)) gone.absent in
    let (c, found, _) = (check_decides _ task required scope kept.0).0 k granted in
    cc (found, kept.1)
