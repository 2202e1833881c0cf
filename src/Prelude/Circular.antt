-- ===== src/Prelude/Circular.antt =====
-- Fixed arrays `[Option<T>; N]` used as circular buffers: which entries the array holds from an
-- index on, going round at `N`, and what a store into one slot does to them.
use Prim.Native.Nat.{ℕ, zero, suc, ◌+◌, ◌-◌, ◌%◌, ◌≤◌, ◌<◌}
use mathlib.Core.Path.{◌≡◌, ◌∙◌, ap, sym}
use mathlib.Core.Logic.{◌≢◌}
use mathlib.Core.Option.{Option, none, some}
use mathlib.Core.List.{List, [], ◌∷◌, ◌++◌}
use native.Mathlib.Nat.{mod-add-mod, mod-eq_of_lt, mod-eq-sub-mod, add-zero, mod-lt, add-mod_right}
use native.Mathlib.Decide.{dec_lt}
use native.Mathlib.Omega.{arith}
use brane_os.Prelude.Lists.{length, get_or, set, take, get_or-set_self, get_or-set_ne, length-take}

-- Going round fewer slots than there are does not lead back to the start.
pub add-mod-ne : (size h k : ℕ) → h < size → 0 < k → k < size → (h + k) % size ≢ h
add-mod-ne size h k hh hk h0 = elim (dec_lt (h + k) size) [
  | yes p ↦ omega (arith, mod-eq_of_lt p)
  | no p ↦ omega (
    arith,
    mod-eq-sub-mod {n = h + k} {m = size} (omega arith),
    mod-eq_of_lt {n = h + k - size} {m = size} (omega arith),
  )
]

-- One step round, and then `k` more.
pub step-mod : (size h k : ℕ) → ((h + 1) % size + k) % size ≡ (h + suc k) % size
step-mod size h k = mod-add-mod (h + 1) size k ∙ ap (λ j. j % size) (omega arith)

module _ {A : Type 0} (size : ℕ) where
  abbrev pub Holds : List (Option A) → ℕ → List A → Type 0
  Holds slots h [] = Unit
  Holds slots h (x ∷ xs) = (get_or slots h none ≡ some x) × Holds slots ((h + 1) % size) xs

  -- A store past the held entries leaves them.
  pub set-Holds :
      (slots : List (Option A)) (h k i : ℕ) (v : Option A) (xs : List A)
      → h < size
      → length xs ≤ k
      → k < size
      → i ≡ (h + k) % size
      → Holds slots h xs
      → Holds (set slots i v) h xs
  set-Holds slots h k i v [] hh hk kc e held = tt
  set-Holds slots h zero i v (x ∷ xs) hh hk kc e held = absurd (omega arith)
  set-Holds slots h (suc k) i v (x ∷ xs) hh hk kc e held = (
    get_or-set_ne slots i h v none
          (λ q. add-mod-ne size h (suc k) hh (omega arith) kc (omega arith))
        ∙ held.0,
    set-Holds slots ((h + 1) % size) k i v xs (mod-lt (h + 1) (omega arith)) (omega arith)
        (omega arith) (e ∙ omega (arith, step-mod size h k)) held.1,
  )

  -- A store just past the held entries extends them.
  pub push-Holds :
      (slots : List (Option A)) (h i : ℕ) (x : A) (xs : List A)
      → size ≤ length slots
      → h < size
      → length xs < size
      → i ≡ (h + length xs) % size
      → Holds slots h xs
      → Holds (set slots i (some x)) h (xs ++ (x ∷ []))
  push-Holds slots h i x [] hs hh hk e held =
      (rw (e, add-zero, mod-eq_of_lt hh) (get_or-set_self slots h (some x) none (omega arith)), tt)
  push-Holds slots h i x (y ∷ ys) hs hh hk e held = (
    get_or-set_ne slots i h (some x) none
          (λ q. add-mod-ne size h (suc (length ys)) hh (omega arith) hk (omega arith))
        ∙ held.0,
    push-Holds slots ((h + 1) % size) i x ys hs (mod-lt (h + 1) (omega arith)) (omega arith)
        (e ∙ omega (arith, step-mod size h (length ys))) held.1,
  )

  -- Emptying the slot of the oldest entry leaves the others.
  pub pop-Holds :
      (slots : List (Option A)) (h : ℕ) (x : A) (xs : List A)
      → h < size
      → length xs < size
      → Holds slots h (x ∷ xs)
      → Holds (set slots h none) ((h + 1) % size) xs
  pop-Holds slots h x xs hh hk held =
      set-Holds slots ((h + 1) % size) (size - 1) h none xs (mod-lt (h + 1) (omega arith))
        (omega arith) (omega arith) (sym around) held.1
    where
      around : ((h + 1) % size + (size - 1)) % size ≡ h
      around =
          step-mod size h (size - 1)
          ∙ ap (λ j. j % size) (omega arith)
          ∙ add-mod_right h size
          ∙ mod-eq_of_lt hh

-- Two different offsets below the size lead to different slots.
pub offset-ne : (size h j k : ℕ) → 0 < size → j < k → k < size → (h + k) % size ≢ (h + j) % size
offset-ne size h j k hs jk ks e =
    add-mod-ne size ((h + j) % size) (k - j) (mod-lt (h + j) hs) (omega arith) (omega arith)
      (mod-add-mod (h + j) size (k - j) ∙ ap (λ i. i % size) (omega arith) ∙ e)

-- The same buffer read from its newest entry back: the entry with `n` older ones stands `n` slots
-- past the oldest.
module _ {A : Type 0} (size : ℕ) where
  abbrev pub HoldsNewest : List (Option A) → ℕ → List A → Type 0
  HoldsNewest slots h [] = Unit
  HoldsNewest slots h (y ∷ ys) =
      (get_or slots ((h + length ys) % size) none ≡ some y) × HoldsNewest slots h ys

  pub set-HoldsNewest :
      (slots : List (Option A)) (h k : ℕ) (v : Option A) (ys : List A)
      → length ys ≤ k
      → k < size
      → HoldsNewest slots h ys
      → HoldsNewest (set slots ((h + k) % size) v) h ys
  set-HoldsNewest slots h k v [] l ks held = tt
  set-HoldsNewest slots h k v (y ∷ ys) l ks held = (
    get_or-set_ne slots ((h + k) % size) ((h + length ys) % size) v none
          (offset-ne size h (length ys) k (omega arith) (omega arith) ks)
        ∙ held.0,
    set-HoldsNewest slots h k v ys (omega arith) ks held.1,
  )

  pub push-HoldsNewest :
      (slots : List (Option A)) (h : ℕ) (y : A) (ys : List A)
      → size ≤ length slots
      → length ys < size
      → HoldsNewest slots h ys
      → HoldsNewest (set slots ((h + length ys) % size) (some y)) h (y ∷ ys)
  push-HoldsNewest slots h y ys hs l held = (
    get_or-set_self slots ((h + length ys) % size) (some y) none
        (ground (arith, mod-lt (h + length ys) {m = size})),
    set-HoldsNewest slots h (length ys) (some y) ys (omega arith) l held,
  )

  -- Forgetting the oldest entry moves the start one slot on.
  pub drop-HoldsNewest :
      (slots : List (Option A)) (h k : ℕ) (ys : List A)
      → length ys ≡ suc k
      → HoldsNewest slots h ys
      → HoldsNewest slots ((h + 1) % size) (take k ys)
  drop-HoldsNewest slots h zero ys e held = tt
  drop-HoldsNewest slots h (suc k) [] e held = tt
  drop-HoldsNewest slots h (suc k) (y ∷ ys) e held = (
    rw (length-take, step-mod)
        (ap (λ j. get_or slots ((h + j) % size) none) (omega arith) ∙ held.0),
    drop-HoldsNewest slots h k ys (omega arith) held.1,
  )
