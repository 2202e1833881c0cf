-- ===== src/Syscall/UserRange.antt =====
-- `UserRange` of kernel/src/syscall.rs. Addresses and lengths are 64 bits wide; the page-table walk,
-- the closure that `validate_pages` takes, is an argument.
pub mod Bounds
pub mod Pages
use brane_os.Prelude.{
  ℕ, zero, suc, ◌+◌, ◌-◌, ◌*◌, ◌/◌, ◌^◌, Bool, true, false, ◌||◌, ◌&&◌, not, Option, none, some,
  Result, ok, err, ◌>>=◌, ok_or, ltb, leb, ◌==◌, if◌then◌else◌, checked_add_u64, add_u64,
}

-- `USER_ADDRESS_MAX`, `(1 << 47) - 1`.
abbrev pub user_address_max : ℕ
user_address_max = 2 ^ 47 - 1

abbrev pub user_page_size : ℕ
user_page_size = 4096

pub data UserAccess : Type 0 where
  read write : UserAccess

unfoldable pub is_write : UserAccess → Bool
is_write read = false
is_write write = true

pub data UserRangeError : Type 0 where
  null_address length_exceeds_maximum non_canonical_start non_canonical_end : UserRangeError
  address_overflow outside_user_space invalid_user_limit : UserRangeError

pub record UserPagePermissions : Type 0 where
  pub present : Bool
  pub user_accessible : Bool
  pub writable : Bool

pub data UserPageValidationError : Type 0 where
  unmapped not_user_accessible not_writable : ℕ → UserPageValidationError

pub record UserRange : Type 0 where
  pub start : ℕ
  pub len : ℕ
  pub access : UserAccess

-- `is_canonical_user_address`.
unfoldable pub is_canonical_user_address : ℕ → Bool
is_canonical_user_address address = leb address user_address_max

-- The tests of `new_with_user_limit` on the end of the range.
unfoldable pub check_end : ℕ → ℕ → ℕ → ℕ → Result (Unit {0}) UserRangeError
unfolding is_canonical_user_address
check_end start len limit end =
    if not (len == 0)
    then if not (is_canonical_user_address (end - 1))
      then err non_canonical_end
      else (ok_or invalid_user_limit (checked_add_u64 limit 1) >>= λ user_end.
          if ltb user_end end then err outside_user_space else ok tt)
    else if ltb limit start
    then err outside_user_space
    else ok tt

-- `UserRange::new_with_user_limit`.
unfoldable pub new_with_user_limit : ℕ → ℕ → UserAccess → ℕ → ℕ → Result UserRange UserRangeError
unfolding is_canonical_user_address check_end
new_with_user_limit start len access max_copy_bytes limit =
    if ltb user_address_max limit
    then err invalid_user_limit
    else if start == 0 && not (len == 0)
    then err null_address
    else if ltb max_copy_bytes len
    then err length_exceeds_maximum
    else if not (is_canonical_user_address start)
    then err non_canonical_start
    else (ok_or address_overflow (checked_add_u64 start len) >>= λ end.
        check_end start len limit end >>= λ _.
        ok (record { start = start; len = len; access = access }))

-- `UserRange::new`.
unfoldable pub new : ℕ → ℕ → UserAccess → ℕ → Result UserRange UserRangeError
new start len access max_copy_bytes =
    new_with_user_limit start len access max_copy_bytes user_address_max

-- `UserRange::page_count`.
unfoldable pub page_count : UserRange → ℕ
page_count r =
    if r.len == 0
    then 0
    else (add_u64 r.start r.len - 1) / user_page_size - r.start / user_page_size + 1

-- The body of the loop of `validate_pages` at one page.
unfoldable pub validate_page :
    (ℕ → UserPagePermissions) → UserAccess → ℕ → Result (Unit {0}) UserPageValidationError
unfolding is_write
validate_page resolve access page =
    let permissions = resolve page in
    if not permissions.present
    then err (unmapped page)
    else if not permissions.user_accessible
    then err (not_user_accessible page)
    else if is_write access && not permissions.writable
    then err (not_writable page)
    else ok tt

-- The loop of `validate_pages` from page index `i` on, `k` pages left.
unfoldable pub validate_from :
    (ℕ → UserPagePermissions) → UserAccess → ℕ → ℕ → ℕ → Result (Unit {0}) UserPageValidationError
unfolding validate_page
validate_from resolve access first_page i zero = ok tt
validate_from resolve access first_page i (suc k) =
    validate_page resolve access (add_u64 first_page (i * user_page_size)) >>= λ _.
    validate_from resolve access first_page (i + 1) k

-- `UserRange::validate_pages`.
unfoldable pub validate_pages :
    UserRange → (ℕ → UserPagePermissions) → Result (Unit {0}) UserPageValidationError
unfolding page_count
validate_pages r resolve =
    if r.len == 0
    then ok tt
    else validate_from resolve r.access (r.start / user_page_size * user_page_size) 0 (page_count r)
