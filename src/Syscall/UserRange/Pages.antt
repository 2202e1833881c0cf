-- ===== src/Syscall/UserRange/Pages.antt =====
-- A validated range is usable at each of its bytes.
use brane_os.Prelude.{
  ℕ, zero, suc, ◌+◌, ◌-◌, ◌*◌, ◌/◌, ◌^◌, ◌≤◌, ◌<◌, ◌≡◌, ◌↔◌, refl, inl, inr, true, false, ok, err,
  arith, ◌==◌, subst, ℕ_discrete, Result, add_u64, ◌>>=◌,
}
use brane_os.Syscall.UserRange.Bounds.{new_with_user_limit_iff}
use brane_os.Syscall.UserRange.{
  new_with_user_limit, UserAccess, UserRange, UserPagePermissions, is_write, user_page_size,
  page_count, validate_page, validate_from, validate_pages,
}

-- The page is mapped for the user, and for writing where the access writes.
pub record Usable (access : UserAccess) (p : UserPagePermissions) : Type 0 where
  pub present : p.present ≡ true
  pub user_accessible : p.user_accessible ≡ true
  pub writable : (is_write access ≡ true) → p.writable ≡ true

both_ok :
    {E : Type 0} (x y : Result (Unit {0}) E)
    → ((x >>= λ _. y) ≡ ok tt) ↔ ((x ≡ ok tt) × (y ≡ ok tt))
both_ok (ok tt) y = (λ h. (refl, h), λ v. v.1)
both_ok (err e) y = (λ h. absurd (cc), λ v. absurd (cc))

add_small : (a b : ℕ) → a + b < 2 ^ 64 → add_u64 a b ≡ a + b
add_small a b h = omega (arith, h)

page_sum :
    (start a : ℕ)
    → start ≤ a
    → start / user_page_size * user_page_size
        + (a / user_page_size - start / user_page_size) * user_page_size
      ≡ a / user_page_size * user_page_size
page_sum start a lo = omega arith

page_start :
    (q j : ℕ)
    → (q + j) * user_page_size / user_page_size * user_page_size
      ≡ q * user_page_size + j * user_page_size
page_start q j = omega arith

module _ (resolve : ℕ → UserPagePermissions) (access : UserAccess) where
  validate_page_iff :
      (page : ℕ) → (validate_page resolve access page ≡ ok tt) ↔ Usable access (resolve page)
  unfolding validate_page
  validate_page_iff page = (
    λ h. record {
      present = ground arith;
      user_accessible = ground arith;
      writable = λ w. ground arith;
    },
    λ v. ground (arith, v.present, v.user_accessible, v.writable),
  )

  validate_from_iff :
      (first i k : ℕ)
      → first + (i + k) * user_page_size < 2 ^ 64
      → (validate_from resolve access first i k ≡ ok tt)
        ↔ ((j : ℕ) → i ≤ j → j < i + k → Usable access (resolve (first + j * user_page_size)))
  unfolding validate_from
  validate_from_iff first i zero small = (λ h j a b. absurd (omega arith), λ v. refl)
  validate_from_iff first i (suc k) small =
      let here = validate_page_iff (first + i * user_page_size) in
      let rest = validate_from_iff first (i + 1) k (omega arith) in
      rw (add_small first (i * user_page_size) (omega arith)) (
        λ h j a b.
            let done = (both_ok _ _).0 h in
            elim (ℕ_discrete i j) [
              | yes same ↦
                  subst (λ n. Usable access (resolve (first + n * user_page_size))) same
                    (here.0 done.0)
              | no other ↦ rest.0 done.1 j (omega arith) (omega arith)
            ],
        λ all. (both_ok _ _).1 (
          here.1 (all i (omega arith) (omega arith)),
          rest.1 (λ j a b. all j (omega arith) (omega arith)),
        ),
      )

  pages-bytes :
      (start len : ℕ)
      → 0 < len
      → start + len ≤ 2 ^ 47
      → ((j : ℕ)
          → 0 ≤ j
          → j < 0 + ((start + len - 1) / user_page_size - start / user_page_size + 1)
          → Usable access (resolve (start / user_page_size * user_page_size + j * user_page_size)))
        ↔ ((a : ℕ)
            → start ≤ a
            → a < start + len
            → Usable access (resolve (a / user_page_size * user_page_size)))
  pages-bytes start len pos small = (
    λ pages a lo hi.
        subst (λ n. Usable access (resolve n)) (page_sum start a lo)
          (pages (a / user_page_size - start / user_page_size) (omega arith) (omega arith)),
    λ bytes j _ hi. elim (ℕ_discrete j 0) [
      | yes e ↦
          subst (λ n. Usable access (resolve n)) (omega arith)
            (bytes start (omega arith) (omega arith))
      | no ne ↦
          subst (λ n. Usable access (resolve n)) (page_start (start / user_page_size) j)
            (bytes ((start / user_page_size + j) * user_page_size) (omega arith) (omega arith))
    ],
  )

-- A range that the constructor accepted passes the page check exactly when each of its bytes, from the
-- first to the last, lies in a page that the resolver reports as present and open to the user, and as
-- writable where the access writes.
pub validate_pages_iff :
    (start len : ℕ) (access : UserAccess) (max_copy_bytes limit : ℕ)
    (resolve : ℕ → UserPagePermissions)
    → let r : UserRange = record { start = start; len = len; access = access } in
      new_with_user_limit start len access max_copy_bytes limit ≡ ok r
      → (validate_pages r resolve ≡ ok tt) ↔ (
          (a : ℕ)
          → start ≤ a
          → a < start + len
          → Usable access (resolve (a / user_page_size * user_page_size)))
unfolding validate_pages page_count
validate_pages_iff start len access max_copy_bytes limit resolve accepted =
    let v = (new_with_user_limit_iff start len access max_copy_bytes limit).0 accepted in
    elim v.extent [
      | inl (empty, _) ↦ rw empty (λ _ a lo hi. absurd (omega arith), λ _. refl)
      | inr (pos, _, fits) ↦
          let some_len : (len == 0) ≡ false = ground arith in
          let room : start + len ≤ 2 ^ 47 = omega (arith, v.limit_fits, fits) in
          let loop =
            validate_from_iff resolve access (start / user_page_size * user_page_size) 0
              ((start + len - 1) / user_page_size - start / user_page_size + 1) (omega arith) in
          let bytes = pages-bytes resolve access start len pos room in
          rw (some_len, add_small start len (omega arith))
            (λ h. bytes.0 (loop.0 h), λ b. loop.1 (bytes.1 b))
    ]
