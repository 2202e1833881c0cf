-- ===== src/Security/Permissions.antt =====
-- What the permission bit tests of kernel/src/security.rs decide.
use brane_os.Prelude.{ℕ, ◌≤◌, ◌≡◌, ◌↔◌, ◌∙◌, ap, true, arith, ==→eq, ==_refl, bit_and, bit_or}
use brane_os.Prelude.Bits.{bit_at, bit_at-bit_and, bit_at-bit_or, bits_ext}
use brane_os.Security.{CapPermissions, has, union}

-- Every bit that is required is held.
abbrev pub Allows : CapPermissions → CapPermissions → Type 0
Allows held required = (i : ℕ) → bit_at i required ≤ bit_at i held

-- `has` decides that every required bit is held.
pub has_iff : (held required : CapPermissions) → (has held required ≡ true) ↔ Allows held required
unfolding has
has_iff held required = (
  λ h i. omega (arith, ap (bit_at i) (==→eq _ _ h), bit_at-bit_and i held required),
  λ a.
      let e : bit_and held required ≡ required =
        bits_ext _ _ (λ i. bit_at-bit_and i held required ∙ omega (arith, a i)) in
      rw e (==_refl required),
)

-- A union holds what either part holds, and nothing else: a single named permission is held by the
-- union exactly when one of the parts holds it, and any set held by a part is held by the union.
pub has-union :
    (a b required : CapPermissions)
    → has a required ≡ true
    → (has (union a b) required ≡ true) × (has (union b a) required ≡ true)
unfolding union
has-union a b required h = (
  (has_iff (bit_or a b) required).1
      λ i. omega (arith, (has_iff a required).0 h i, bit_at-bit_or i a b),
  (has_iff (bit_or b a) required).1
      λ i. omega (arith, (has_iff a required).0 h i, bit_at-bit_or i b a),
)
