-- ===== src/Syscall/UserRange/Bounds.antt =====
-- Which ranges the constructor accepts.
use brane_os.Prelude.{
  ℕ, ◌+◌, ◌≤◌, ◌<◌, ◌≡◌, ◌↔◌, ◌⊎◌, inl, inr, ok, arith, ◌==◌, Bool-cases, checked_add_u64,
}
use brane_os.Syscall.UserRange.{
  UserAccess, user_address_max, is_canonical_user_address, check_end, new_with_user_limit,
}

-- The range lies in the user half below the limit, is not longer than the budget, and does not start at
-- the null address unless it is empty.
pub record InUserSpace (start len max_copy_bytes limit : ℕ) : Type 0 where
  pub limit_fits : limit ≤ user_address_max
  pub in_budget : len ≤ max_copy_bytes
  pub extent : ((len ≡ 0) × (start ≤ limit)) ⊎ ((0 < len) × (0 < start) × (start + len ≤ limit + 1))

-- The constructor accepts a range exactly when the limit is a canonical one, the length is within the
-- budget, and the range is empty at an address up to the limit or starts above zero and ends at most one
-- past the limit. No sum wraps around on the way.
pub new_with_user_limit_iff :
    (start len : ℕ) (access : UserAccess) (max_copy_bytes limit : ℕ)
    → (new_with_user_limit start len access max_copy_bytes limit
        ≡ ok (record { start = start; len = len; access = access }))
      ↔ InUserSpace start len max_copy_bytes limit
unfolding new_with_user_limit check_end is_canonical_user_address checked_add_u64
new_with_user_limit_iff start len access max_copy_bytes limit = (
  λ h. record {
    limit_fits = ground arith;
    in_budget = ground arith;
    extent = elim (Bool-cases (len == 0)) [
      | inl e ↦ inl (ground arith, ground arith)
      | inr n ↦ inr (ground arith, ground arith, ground arith)
    ];
  },
  λ v. ground (arith, v.limit_fits, v.in_budget, v.extent),
)
