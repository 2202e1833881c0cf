-- ===== src/Syscall/Authorize/Decides.antt =====
-- Answers of the authorization code of kernel/src/syscall.rs that decide a property.
use brane_os.Prelude.{
  ◌≡◌, ◌∙◌, sym, ◌↔◌, ◌⊎◌, inl, inr, subst, ℕ, Bool, true, false, Option, none, some, Result, ok,
  err, ok_injective, err_injective, if◌then◌else◌, refl,
}
use brane_os.Syscall.Status.{SyscallError, permission_denied}
use brane_os.Syscall.Authorize.{map_some}

-- An answer is right for a property of results: what it answers has the property, and a refusal says
-- `PermissionDenied` and comes only where nothing has it.
abbrev pub Decides : {A : Type 0} → Result A SyscallError → (A → Type 0) → Type 0
Decides {A} r P =
    ((a : A) → r ≡ ok a → P a)
    × ((e : SyscallError) → r ≡ err e → (e ≡ permission_denied) × ((a : A) → ¬ (P a)))

pub decides_ok : {A : Type 0} (P : A → Type 0) (a : A) → P a → Decides (ok a) P
decides_ok P a p = (λ b h. subst P (ok_injective h) p, λ e h. absurd (cc))

pub decides_err :
    {A : Type 0} (P : A → Type 0) → ((a : A) → ¬ (P a)) → Decides (err permission_denied) P
decides_err P n = (λ a h. absurd (cc), λ e h. (sym (err_injective h), n))

pub decides_some :
    {P : ℕ → Type 0} (r : Result ℕ SyscallError)
    → Decides r P
    → Decides (map_some r) (λ used. (id : ℕ) × (used ≡ some id) × P id)
decides_some (ok id) d = decides_ok _ (some id) (id, refl, d.0 id refl)
decides_some (err e) d = (
  λ used h. absurd (cc),
  λ x h. (sym (err_injective h) ∙ (d.1 e refl).0, λ used v. (d.1 e refl).1 v.0 v.2),
)

-- A test that lets a call pass without a token comes before the other right.
pub decides_or :
    {F : Type 0} {P : Option ℕ → Type 0} (b : Bool) (r : Result (Option ℕ) SyscallError)
    → (b ≡ true) ↔ F
    → Decides r P
    → Decides (if b then ok none else r) (λ used. ((used ≡ none) × F) ⊎ ((¬ F) × P used))
decides_or true r test d = decides_ok _ none (inl (refl, test.0 refl))
decides_or false r test d = (
  λ used h. inr (λ f. cc (test.1 f), d.0 used h),
  λ e h. (
    (d.1 e h).0,
    λ used v. elim v [ inl (_, f) ↦ cc (test.1 f) | inr (_, right) ↦ (d.1 e h).1 used right ],
  ),
)
