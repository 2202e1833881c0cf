-- ===== src/Prelude/Slots/Counts.antt =====
-- How many entries of a table satisfy a test, and what the scans do to that number.
use Prim.Native.Nat.{ℕ, zero, suc, ◌+◌}
use mathlib.Core.Path.{◌≡◌, refl}
use mathlib.Core.Logic.{inl, inr}
use mathlib.Core.Bool.{Bool}
use mathlib.Core.Option.{Option, none, some}
use mathlib.Core.List.{List, [], ◌∷◌}
use native.Mathlib.Omega.{arith}
use brane_os.Prelude.Tests.{if◌then◌else◌, Option-cases}
use brane_os.Prelude.Lists.{length, replicate}
use brane_os.Prelude.Slots.{fill_free, find, modify, clear, entries, keep}

module _ {A : Type 0} where
  -- `iter().flatten().filter(p).count()`
  unfoldable pub matching : (A → Bool) → List (Option A) → ℕ
  matching p [] = 0
  matching p (none ∷ s) = matching p s
  matching p (some a ∷ s) = (if p a then 1 else 0) + matching p s

  pub matching-keep :
      (p : A → Bool) (s : List (Option A)) → length (keep p (entries s)) ≡ matching p s
  unfolding matching keep entries
  matching-keep p [] = refl
  matching-keep p (none ∷ s) = matching-keep p s
  matching-keep p (some a ∷ s) = ground (arith, matching-keep p s)

  pub matching-replicate : (p : A → Bool) (n : ℕ) → matching p (replicate n none) ≡ 0
  unfolding matching replicate
  matching-replicate p zero = refl
  matching-replicate p (suc n) = matching-replicate p n

  pub matching-none : (p : A → Bool) (s : List (Option A)) → find p s ≡ none → matching p s ≡ 0
  unfolding matching find
  matching-none p [] h = refl
  matching-none p (none ∷ s) h = matching-none p s h
  matching-none p (some a ∷ s) h = ground (arith, matching-none p s)

  pub matching-fill_free :
      (p : A → Bool) (a : A) (s : List (Option A)) {t : List (Option A)}
      → fill_free a s ≡ some t
      → matching p t ≡ (if p a then 1 else 0) + matching p s
  unfolding matching fill_free
  matching-fill_free p a [] h = ground arith
  matching-fill_free p a (none ∷ s) h = ground arith
  matching-fill_free p a (some b ∷ s) h = elim (Option-cases (fill_free a s)) [
    | inl e ↦ ground arith
    | inr (u, e) ↦ ground (arith, matching-fill_free p a s e)
  ]

  pub matching-clear :
      (p q : A → Bool) (s : List (Option A)) {a : A}
      → find q s ≡ some a
      → (if p a then 1 else 0) + matching p (clear q s) ≡ matching p s
  unfolding matching clear find
  matching-clear p q [] h = ground arith
  matching-clear p q (none ∷ s) h = matching-clear p q s h
  matching-clear p q (some b ∷ s) {a} h = ground (arith, matching-clear p q s {a = a})

  pub matching-modify :
      (p q : A → Bool) (f : A → A) (s : List (Option A))
      → ((a : A) → p (f a) ≡ p a)
      → matching p (modify q f s) ≡ matching p s
  unfolding matching modify
  matching-modify p q f [] keeps = refl
  matching-modify p q f (none ∷ s) keeps = matching-modify p q f s keeps
  matching-modify p q f (some a ∷ s) keeps = ground (arith, keeps a, matching-modify p q f s keeps)

  pub find_unmatched : (p : A → Bool) (s : List (Option A)) → matching p s ≡ 0 → find p s ≡ none
  unfolding matching find
  find_unmatched p [] h = refl
  find_unmatched p (none ∷ s) h = find_unmatched p s h
  find_unmatched p (some a ∷ s) h = ground (arith, find_unmatched p s)
