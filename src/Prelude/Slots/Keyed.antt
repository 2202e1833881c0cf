-- ===== src/Prelude/Slots/Keyed.antt =====
-- Tables whose entries carry a key drawn from a counter: lookups by key behave as a finite map.
use Prim.Native.Nat.{ℕ, zero, suc, ◌≤◌, ◌<◌}
use mathlib.Core.Path.{◌≡◌, refl, ◌∙◌, subst}
use mathlib.Core.Logic.{inl, inr}
use mathlib.Core.Bool.{Bool}
use mathlib.Core.Option
use mathlib.Core.Option.{Option, none, some, some-injective}
use mathlib.Core.List.{List, [], ◌∷◌}
use native.Mathlib.Omega.{arith}
use brane_os.Prelude.Tests.{◌==◌, if◌then◌else◌, Option-cases}
use brane_os.Prelude.Lists.{replicate}
use brane_os.Prelude.Slots.{fill_free, find, modify, clear}

module _ {A : Type 0} (key : A → ℕ) where
  abbrev pub has_key : ℕ → A → Bool
  has_key k a = key a == k

  -- The keys lie below `n`, and no two entries share one.
  abbrev pub Keyed : ℕ → List (Option A) → Type 0
  Keyed n [] = Unit
  Keyed n (none ∷ s) = Keyed n s
  Keyed n (some a ∷ s) = (key a < n) × (find (has_key (key a)) s ≡ none) × Keyed n s

  pub Keyed-replicate : (n m : ℕ) → Keyed n (replicate m none)
  unfolding replicate
  Keyed-replicate n zero = tt
  Keyed-replicate n (suc m) = Keyed-replicate n m

  pub find_above : (n k : ℕ) (s : List (Option A)) → Keyed n s → n ≤ k → find (has_key k) s ≡ none
  unfolding find
  find_above n k [] v h = refl
  find_above n k (none ∷ s) v h = find_above n k s v h
  find_above n k (some a ∷ s) v h = ground (arith, find_above n k s v.2)

  pub find_below :
      (n k : ℕ) (s : List (Option A)) {a : A}
      → Keyed n s
      → find (has_key k) s ≡ some a
      → (key a ≡ k) × (k < n)
  unfolding find
  find_below n k [] v h = ground arith
  find_below n k (none ∷ s) v h = find_below n k s v h
  find_below n k (some a ∷ s) {a = b} v h = ground (arith, find_below n k s {a = b} v.2)

  -- An entry under a new key is found, and hides nothing.
  pub find-fill_free :
      (n k : ℕ) (a : A) (s : List (Option A)) {t : List (Option A)}
      → Keyed n s
      → key a ≡ n
      → fill_free a s ≡ some t
      → find (has_key k) t ≡ (if n == k then some a else find (has_key k) s)
  unfolding find fill_free
  find-fill_free n k a [] v e h = ground arith
  find-fill_free n k a (none ∷ s) v e h = ground arith
  find-fill_free n k a (some b ∷ s) v e h = elim (Option-cases (fill_free a s)) [
    | inl q ↦ ground arith
    | inr (u, q) ↦ ground (arith, find-fill_free n k a s v.2 e q)
  ]

  pub Keyed-mono : (n m : ℕ) (s : List (Option A)) → n ≤ m → Keyed n s → Keyed m s
  Keyed-mono n m [] h v = tt
  Keyed-mono n m (none ∷ s) h v = Keyed-mono n m s h v
  Keyed-mono n m (some a ∷ s) h v = (omega arith, v.1, Keyed-mono n m s h v.2)

  pub fill_free-Keyed :
      (n : ℕ) (a : A) (s : List (Option A)) {t : List (Option A)}
      → Keyed n s
      → key a ≡ n
      → fill_free a s ≡ some t
      → Keyed (suc n) t
  unfolding fill_free
  fill_free-Keyed n a [] v e h = ground arith
  fill_free-Keyed n a (none ∷ s) v e h =
      subst (Keyed (suc n)) (some-injective _ _ h) (
        omega arith,
        find_above n (key a) s v (omega arith),
        Keyed-mono n (suc n) s (omega arith) v,
      )
  fill_free-Keyed n a (some b ∷ s) v e h = elim (Option-cases (fill_free a s)) [
    | inl q ↦ ground arith
    | inr (u, q) ↦ subst (Keyed (suc n)) (some-injective _ _ (rw q at h)) (
      omega arith,
      find-fill_free n (key b) a s v.2 e q ∙ ground arith,
      fill_free-Keyed n a s v.2 e q,
    )
  ]

  pub find-clear :
      (n j k : ℕ) (s : List (Option A))
      → Keyed n s
      → find (has_key j) (clear (has_key k) s) ≡ (if k == j then none else find (has_key j) s)
  unfolding find clear
  find-clear n j k [] v = ground arith
  find-clear n j k (none ∷ s) v = find-clear n j k s v
  find-clear n j k (some a ∷ s) v = ground (arith, find-clear n j k s v.2)

  pub clear-Keyed : (n k : ℕ) (s : List (Option A)) → Keyed n s → Keyed n (clear (has_key k) s)
  unfolding clear
  clear-Keyed n k [] v = tt
  clear-Keyed n k (none ∷ s) v = clear-Keyed n k s v
  clear-Keyed n k (some a ∷ s) v =
      ground (arith, clear-Keyed n k s v.2, find-clear n (key a) k s v.2)

  -- A change that keeps the key shows at that key alone.
  pub find-modify :
      (j k : ℕ) (f : A → A) (s : List (Option A))
      → ((a : A) → key (f a) ≡ key a)
      → find (has_key j) (modify (has_key k) f s)
        ≡ (if k == j then Option.map f (find (has_key j) s) else find (has_key j) s)
  unfolding find modify
  find-modify j k f [] keeps = ground arith
  find-modify j k f (none ∷ s) keeps = find-modify j k f s keeps
  find-modify j k f (some a ∷ s) keeps = ground (arith, keeps a, find-modify j k f s keeps)

  pub modify-Keyed :
      (n k : ℕ) (f : A → A) (s : List (Option A))
      → ((a : A) → key (f a) ≡ key a)
      → Keyed n s
      → Keyed n (modify (has_key k) f s)
  unfolding modify
  modify-Keyed n k f [] keeps v = tt
  modify-Keyed n k f (none ∷ s) keeps v = modify-Keyed n k f s keeps v
  modify-Keyed n k f (some a ∷ s) keeps v =
      ground (arith, keeps a, modify-Keyed n k f s keeps v.2, find-modify (key a) k f s keeps)

  -- Whatever a scan finds, the lookup by its key finds too.
  pub find_own_key :
      (n : ℕ) (p : A → Bool) (s : List (Option A)) {a : A}
      → Keyed n s
      → find p s ≡ some a
      → find (has_key (key a)) s ≡ some a
  unfolding find
  find_own_key n p [] v h = ground arith
  find_own_key n p (none ∷ s) v h = find_own_key n p s v h
  find_own_key n p (some b ∷ s) {a} v h =
      ground (arith, find_own_key n p s {a = a} v.2, find_below n (key b) s {a = a} v.2)
