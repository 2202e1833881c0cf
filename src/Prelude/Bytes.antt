-- ===== src/Prelude/Bytes.antt =====
-- Byte slices: what is left of a buffer behind an offset, and little-endian words.
use native.Mathlib.Nat.{pow-suc, zero-add, suc-add, add-zero}
use Prim.Native.Nat.{ℕ, zero, suc, ◌+◌, ◌-◌, ◌*◌, ◌/◌, ◌%◌, ◌^◌, ◌≤◌, ◌<◌}
use mathlib.Core.Path.{◌≡◌, refl, ap, sym, ◌∙◌}
use mathlib.Core.List.{List, [], ◌∷◌, ◌++◌}
use native.Mathlib.Omega.{arith}
use brane_os.Prelude.Lists.{
  length, get_or, take, drop, length-append, length-drop, take-append_length,
}

-- `&data[from..to]`.
abbrev pub slice : List ℕ → ℕ → ℕ → List ℕ
slice buf from to = take (to - from) (drop from buf)

-- `x.to_le_bytes()` of a word of `k` bytes, and `from_le_bytes`.
unfoldable pub to_le : ℕ → ℕ → List ℕ
to_le zero x = []
to_le (suc k) x = x % 256 ∷ to_le k (x / 256)

unfoldable pub from_le : List ℕ → ℕ
from_le [] = 0
from_le (b ∷ bs) = b + 256 * from_le bs

pub length-to_le : (k x : ℕ) → length (to_le k x) ≡ k
unfolding to_le
length-to_le zero x = refl
length-to_le (suc k) x = ap suc (length-to_le k (x / 256))

pub from_le-to_le : (k x : ℕ) → x < 256 ^ k → from_le (to_le k x) ≡ x
unfolding from_le to_le
from_le-to_le zero x h = omega arith
from_le-to_le (suc k) x h = omega (arith, from_le-to_le k (x / 256) (omega (arith, pow-suc 256 k)))

-- The buffer `buf` has `rest` left behind the `offset`.
pub record Left {ℓ} {A : Type ℓ} (buf : List A) (offset : ℕ) (rest : List A) : Type ℓ where
  pub inside : offset ≤ length buf
  pub left : drop offset buf ≡ rest

module _ {ℓ} {A : Type ℓ} where
  drop_nil : (n : ℕ) → drop {A = A} n [] ≡ []
  drop_nil zero = refl
  drop_nil (suc n) = refl

  drop-drop : (m n : ℕ) (xs : List A) → drop m (drop n xs) ≡ drop (n + m) xs
  drop-drop m zero xs = rw zero-add
  drop-drop m (suc n) [] = drop_nil m ∙ sym (drop_nil (suc n + m))
  drop-drop m (suc n) (x ∷ xs) = drop-drop m n xs ∙ rw suc-add

  drop-append_length : (xs ys : List A) → drop (length xs) (xs ++ ys) ≡ ys
  drop-append_length [] ys = refl
  drop-append_length (x ∷ xs) ys = drop-append_length xs ys

  pub get_or-drop : (n i : ℕ) (xs : List A) (d : A) → get_or (drop n xs) i d ≡ get_or xs (n + i) d
  get_or-drop zero i xs d = rw zero-add
  get_or-drop (suc n) i [] d = refl
  get_or-drop (suc n) i (x ∷ xs) d = get_or-drop n i xs d ∙ rw suc-add

  pub Left-all : (buf : List A) → Left buf 0 buf
  Left-all buf = record { inside = omega arith; left = refl }

  pub length-Left :
      {buf rest : List A} {offset : ℕ} → Left buf offset rest → length buf ≡ offset + length rest
  length-Left {buf} {rest} {offset} h =
      omega (arith, h.inside, ap length h.left, length-drop offset buf)

  -- The next element, and what is left behind it.
  pub get_or-Left :
      {buf rest : List A} {offset : ℕ} {x : A} (d : A)
      → Left buf offset (x ∷ rest)
      → get_or buf offset d ≡ x
  get_or-Left {buf} {rest} {offset} {x} d h =
      ap (λ k. get_or buf k d) (sym (add-zero offset))
      ∙ sym (get_or-drop offset 0 buf d)
      ∙ ap (λ xs. get_or xs 0 d) h.left

  -- A run of elements, and what is left behind it.
  pub take-Left :
      {buf : List A} (xs rest : List A) {offset : ℕ}
      → Left buf offset (xs ++ rest)
      → take (length xs) (drop offset buf) ≡ xs
  take-Left {buf} xs rest {offset} h = ap (take (length xs)) h.left ∙ take-append_length xs rest

  pub Left-after :
      {buf rest : List A} (xs : List A) {offset : ℕ}
      → Left buf offset (xs ++ rest)
      → Left buf (offset + length xs) rest
  Left-after {buf} {rest} xs {offset} h = record {
    inside = omega (arith, length-Left h, length-append xs rest);
    left =
        sym (drop-drop (length xs) offset buf)
        ∙ ap (drop (length xs)) h.left
        ∙ drop-append_length xs rest;
  }
