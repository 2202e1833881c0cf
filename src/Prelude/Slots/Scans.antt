-- ===== src/Prelude/Slots/Scans.antt =====
-- Filtered scans over a keyed table: which entries they meet.
use Prim.Native.Nat.{ℕ}
use mathlib.Core.Path.{◌≡◌, refl}
use mathlib.Core.Logic.{◌≢◌, ◌⊎◌, inl, inr}
use mathlib.Core.Bool.{Bool, true}
use mathlib.Core.Option.{Option, none, some}
use mathlib.Core.List.{List, [], ◌∷◌}
use native.Mathlib.Omega.{arith}
use brane_os.Prelude.Tests.{Bool-cases}
use brane_os.Prelude.Slots.{find, entries, keep}
use brane_os.Prelude.Slots.Keyed.{has_key, Keyed}

module _ {A : Type 0} where
  -- The element stands in the list.
  abbrev pub In : A → List A → Type 0
  In a [] = ⊥
  In a (x ∷ xs) = (a ≡ x) ⊎ In a xs

module _ {A : Type 0} (key : A → ℕ) (p : A → Bool) where
  pub find-In :
      (k : ℕ) (s : List (Option A)) (a : A)
      → find (has_key key k) s ≡ some a
      → p a ≡ true
      → In a (keep p (entries s))
  unfolding find entries keep
  find-In k [] a h e = absurd (cc)
  find-In k (none ∷ s) a h e = find-In k s a h e
  find-In k (some b ∷ s) a h e = ground (arith, find-In k s a)

  pub In-find :
      (n : ℕ) (s : List (Option A)) (a : A)
      → Keyed key n s
      → In a (keep p (entries s))
      → (find (has_key key (key a)) s ≡ some a) × (p a ≡ true)
  unfolding find entries keep
  In-find n [] a v h = absurd h
  In-find n (none ∷ s) a v h = In-find n s a v h
  In-find n (some b ∷ s) a v h = elim (Bool-cases (p b)) [
    | inl takes ↦ elim (rw takes at h) [
      | inl e ↦ ground arith
      | inr t ↦ let (f, q) = In-find n s a v.2 t in ground arith
    ]
    | inr skips ↦ let (f, q) = In-find n s a v.2 (rw skips at h) in ground arith
  ]

  tail_eq : {a b : A} {xs ys : List A} → ◌≡◌ {A = List A} (a ∷ xs) (b ∷ ys) → xs ≡ ys
  tail_eq h = cc

  -- The first two entries that a scan meets have different keys.
  pub keep_distinct :
      (n : ℕ) (s : List (Option A)) (b c : A) (rest : List A)
      → Keyed key n s
      → keep p (entries s) ≡ b ∷ c ∷ rest
      → key b ≢ key c
  unfolding entries keep
  keep_distinct n [] b c rest v h = absurd (cc)
  keep_distinct n (none ∷ s) b c rest v h = keep_distinct n s b c rest v h
  keep_distinct n (some a ∷ s) b c rest v h = elim (Bool-cases (p a)) [
    | inl takes ↦
        let second : In c (keep p (entries s)) = rw (tail_eq (rw takes at h)) (inl refl) in
        let (f, q) = In-find n s c v.2 second in λ same. ground arith
    | inr skips ↦ keep_distinct n s b c rest v.2 (rw skips at h)
  ]
