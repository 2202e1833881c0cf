-- ===== src/Prelude/Slots.antt =====
-- Fixed tables `[Option<T>; N]`: the scans that the kernel makes over them. `fill_free` is the loop
-- that stores into the first empty slot, `find` is `iter().flatten().find(..)`, `modify` and `clear`
-- change or empty the first entry that fits, and `entries` is `iter().flatten()`.
pub mod Keyed
pub mod Scans
pub mod Counts
use Prim.Native.Nat.{ℕ, zero, suc, ◌+◌, ◌≤◌, ◌<◌}
use mathlib.Core.Path.{◌≡◌, refl, ap, sym, ◌∙◌}
use mathlib.Core.Logic.{inl, inr}
use mathlib.Core.Bool.{Bool, true, false}
use mathlib.Core.Option
use mathlib.Core.Option.{Option, none, some}
use mathlib.Core.List.{List, [], ◌∷◌}
use native.Mathlib.Omega.{arith}
use mathlib.Core.Option.{some-injective}
use brane_os.Prelude.Tests.{Bool-cases, if◌then◌else◌, Option-cases}
use brane_os.Prelude.Lists.{length, replicate}

module _ {ℓ} {A : Type ℓ} where
  -- `None` when every slot is taken.
  unfoldable pub fill_free : A → List (Option A) → Option (List (Option A))
  fill_free a [] = none
  fill_free a (none ∷ s) = some (some a ∷ s)
  fill_free a (some b ∷ s) = Option.map (◌∷◌ (some b)) (fill_free a s)

  unfoldable pub find : (A → Bool) → List (Option A) → Option A
  find p [] = none
  find p (none ∷ s) = find p s
  find p (some a ∷ s) = if p a then some a else find p s

  unfoldable pub modify : (A → Bool) → (A → A) → List (Option A) → List (Option A)
  modify p f [] = []
  modify p f (none ∷ s) = none ∷ modify p f s
  modify p f (some a ∷ s) = if p a then some (f a) ∷ s else some a ∷ modify p f s

  unfoldable pub clear : (A → Bool) → List (Option A) → List (Option A)
  clear p [] = []
  clear p (none ∷ s) = none ∷ clear p s
  clear p (some a ∷ s) = if p a then none ∷ s else some a ∷ clear p s

  unfoldable pub entries : List (Option A) → List A
  entries [] = []
  entries (none ∷ s) = entries s
  entries (some a ∷ s) = a ∷ entries s

  -- `iter().filter(..)` over the entries.
  unfoldable pub keep : (A → Bool) → List A → List A
  keep p [] = []
  keep p (a ∷ s) = if p a then a ∷ keep p s else keep p s

  -- `iter().filter(|s| s.is_some()).count()`
  unfoldable pub used : List (Option A) → ℕ
  unfolding entries
  used s = length (entries s)

  -- The table is full exactly when no slot is found.
  pub fill_free-none : (a : A) (s : List (Option A)) → fill_free a s ≡ none → used s ≡ length s
  unfolding fill_free used
  fill_free-none a [] h = refl
  fill_free-none a (none ∷ s) h = ground arith
  fill_free-none a (some b ∷ s) h = ground (arith, fill_free-none a s)

  pub used-le-length : (s : List (Option A)) → used s ≤ length s
  unfolding used
  used-le-length [] = omega arith
  used-le-length (none ∷ s) = omega (arith, used-le-length s)
  used-le-length (some b ∷ s) = omega (arith, used-le-length s)

  pub fill_free-some :
      (a : A) (s : List (Option A)) {t : List (Option A)}
      → fill_free a s ≡ some t
      → (used t ≡ used s + 1) × (used s < length s) × (length t ≡ length s)
  unfolding fill_free used
  fill_free-some a [] h = ground arith
  fill_free-some a (none ∷ s) h = ground (arith, used-le-length s)
  fill_free-some a (some b ∷ s) h = elim (Option-cases (fill_free a s)) [
    | inl e ↦ ground arith
    | inr (u, e) ↦ ground (arith, fill_free-some a s e)
  ]

  pub length-modify :
      (p : A → Bool) (f : A → A) (s : List (Option A)) → length (modify p f s) ≡ length s
  unfolding modify
  length-modify p f [] = refl
  length-modify p f (none ∷ s) = ap suc (length-modify p f s)
  length-modify p f (some a ∷ s) = ground (arith, length-modify p f s)

  pub length-clear : (p : A → Bool) (s : List (Option A)) → length (clear p s) ≡ length s
  unfolding clear
  length-clear p [] = refl
  length-clear p (none ∷ s) = ap suc (length-clear p s)
  length-clear p (some a ∷ s) = ground (arith, length-clear p s)

  pub modify_same :
      (p : A → Bool) (f : A → A) (s : List (Option A)) (a : A)
      → find p s ≡ some a
      → f a ≡ a
      → modify p f s ≡ s
  unfolding find modify
  modify_same p f [] a h e = refl
  modify_same p f (none ∷ s) a h e = ap (◌∷◌ none) (modify_same p f s a h e)
  modify_same p f (some b ∷ s) a h e = elim (Bool-cases (p b)) [
    | inl hit ↦
        let same = some-injective _ _ (rw hit at h) in
        rw hit (ap (λ x. some x ∷ s) (ap f same ∙ e ∙ sym same))
    | inr miss ↦ rw miss (ap (◌∷◌ (some b)) (modify_same p f s a (rw miss at h) e))
  ]

  -- Emptying the slot of an entry that is there frees one.
  pub used-clear :
      (p : A → Bool) (s : List (Option A)) {a : A}
      → find p s ≡ some a
      → used (clear p s) + 1 ≡ used s
  unfolding used find clear
  used-clear p [] h = ground arith
  used-clear p (none ∷ s) h = used-clear p s h
  used-clear p (some b ∷ s) {a} h = ground (arith, used-clear p s {a = a})

  pub find_satisfies : (p : A → Bool) (s : List (Option A)) {a : A} → find p s ≡ some a → p a ≡ true
  unfolding find
  find_satisfies p [] h = ground arith
  find_satisfies p (none ∷ s) h = find_satisfies p s h
  find_satisfies p (some b ∷ s) {a} h = ground (arith, find_satisfies p s {a = a})

  -- What the scan for `p` missed does not satisfy it.
  pub find-none :
      (p q : A → Bool) (s : List (Option A)) {a : A}
      → find p s ≡ none
      → find q s ≡ some a
      → p a ≡ false
  unfolding find
  find-none p q [] h k = ground arith
  find-none p q (none ∷ s) h k = find-none p q s h k
  find-none p q (some b ∷ s) {a} h k = ground (arith, find-none p q s {a = a})

  pub find-replicate : (p : A → Bool) (n : ℕ) → find p (replicate n none) ≡ none
  unfolding find replicate
  find-replicate p zero = refl
  find-replicate p (suc n) = find-replicate p n

pub used-replicate {ℓ} : (A : Type ℓ) (n : ℕ) → used (replicate {A = Option A} n none) ≡ 0
unfolding used replicate
used-replicate A zero = refl
used-replicate A (suc n) = used-replicate A n
