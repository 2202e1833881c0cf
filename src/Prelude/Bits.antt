-- ===== src/Prelude/Bits.antt =====
-- Bit masks: the single bits of `&`, `|`, `1 << n` and `!`, and that the bits determine a word.
mod Digits
pub mod Powers
use Prim.Native.Nat.{
  ℕ, zero, suc, ◌+◌, ◌-◌, ◌*◌, ◌/◌, ◌%◌, ◌^◌, ◌≤◌, ◌<◌, min, max, bit_and, bit_or,
}
use mathlib.Core.Path.{◌≡◌, refl, ◌∙◌, ap}
use native.Mathlib.Nat.{pow-suc}
use native.Mathlib.Omega.{arith}
use mathlib.Core.Logic.{◌↔◌}
use mathlib.Core.Bool.{true}
use brane_os.Prelude.Tests.{◌==◌, if◌then◌else◌}
use Digits.{bit_and_step, bit_or_step}

-- Bit `i`, counted from the lowest.
unfoldable pub bit_at : ℕ → ℕ → ℕ
bit_at zero x = x % 2
bit_at (suc i) x = bit_at i (x / 2)

pub bit_at-le-one : (i x : ℕ) → bit_at i x ≤ 1
unfolding bit_at
bit_at-le-one zero x = omega arith
bit_at-le-one (suc i) x = bit_at-le-one i (x / 2)

pub bit_at-bit_and : (i a b : ℕ) → bit_at i (bit_and a b) ≡ min (bit_at i a) (bit_at i b)
unfolding bit_at
bit_at-bit_and zero a b = omega (arith, bit_and_step a b)
bit_at-bit_and (suc i) a b =
    ap (bit_at i) (omega (arith, bit_and_step a b)) ∙ bit_at-bit_and i (a / 2) (b / 2)

pub bit_at-bit_or : (i a b : ℕ) → bit_at i (bit_or a b) ≡ max (bit_at i a) (bit_at i b)
unfolding bit_at
bit_at-bit_or zero a b = omega (arith, bit_or_step a b)
bit_at-bit_or (suc i) a b =
    ap (bit_at i) (omega (arith, bit_or_step a b)) ∙ bit_at-bit_or i (a / 2) (b / 2)

pub bit_at-zero : (i : ℕ) → bit_at i 0 ≡ 0
unfolding bit_at
bit_at-zero zero = refl
bit_at-zero (suc i) = bit_at-zero i

pub bit_at-pow : (i j : ℕ) → bit_at i (2 ^ j) ≡ (if i == j then 1 else 0)
unfolding bit_at
bit_at-pow zero zero = refl
bit_at-pow zero (suc j) = ground (arith, pow-suc 2 j)
bit_at-pow (suc i) zero = ground (arith, bit_at-zero i)
bit_at-pow (suc i) (suc j) =
    ap (bit_at i) (omega (arith, pow-suc 2 j)) ∙ bit_at-pow i j ∙ ground arith

-- `!a` on a word of `w` bits.
abbrev pub complement : ℕ → ℕ → ℕ
complement w a = 2 ^ w - 1 - a

pub bit_at-complement : (w i a : ℕ) → i < w → a < 2 ^ w → bit_at i (complement w a) ≡ 1 - bit_at i a
unfolding bit_at
bit_at-complement zero i a h l = absurd (omega arith)
bit_at-complement (suc w) zero a h l = omega (arith, pow-suc 2 w)
bit_at-complement (suc w) (suc i) a h l =
    ap (bit_at i) (omega (arith, pow-suc 2 w))
    ∙ bit_at-complement w i (a / 2) (omega arith) (omega (arith, pow-suc 2 w))

bits_ext_fuel : (n a b : ℕ) → a ≤ n → b ≤ n → ((i : ℕ) → bit_at i a ≡ bit_at i b) → a ≡ b
unfolding bit_at
bits_ext_fuel zero a b ha hb e = omega arith
bits_ext_fuel (suc n) a b ha hb e =
    omega (arith, e 0, bits_ext_fuel n (a / 2) (b / 2) (omega arith) (omega arith) (λ i. e (suc i)))

-- Words with the same bits are equal.
pub bits_ext : (a b : ℕ) → ((i : ℕ) → bit_at i a ≡ bit_at i b) → a ≡ b
bits_ext a b e = bits_ext_fuel (a + b) a b (omega arith) (omega arith) e

-- The test `x & (1 << n) == 0`.
pub mask_test_iff : (n x : ℕ) → ((bit_and x (2 ^ n) == 0) ≡ true) ↔ (bit_at n x ≡ 0)
mask_test_iff n x = (
  λ h.
      let e : bit_and x (2 ^ n) ≡ 0 = ground arith in
      ground (
        arith,
        ap (bit_at n) e,
        bit_at-zero n,
        bit_at-bit_and n x (2 ^ n),
        bit_at-pow n n,
        bit_at-le-one n x,
      ),
  λ h.
      let e : bit_and x (2 ^ n) ≡ 0 = bits_ext _ 0 λ i.
        ground (arith, bit_at-bit_and i x (2 ^ n), bit_at-pow i n, bit_at-zero i, same_bit i n) in
      ground arith,
)
  where
    same_bit : (i n' : ℕ) → i ≡ n' → bit_at i x ≡ bit_at n' x
    same_bit i n' q = ap (λ k. bit_at k x) q

pub pow_pos : (w : ℕ) → 0 < 2 ^ w
pow_pos zero = omega arith
pow_pos (suc w) = omega (arith, pow-suc 2 w, pow_pos w)

pub pow_lt : (n w : ℕ) → n < w → 2 ^ n < 2 ^ w
pow_lt n zero h = absurd (omega arith)
pow_lt zero (suc w) h = omega (arith, pow-suc 2 w, pow_pos w)
pow_lt (suc n) (suc w) h = omega (arith, pow-suc 2 n, pow-suc 2 w, pow_lt n w (omega arith))

-- `x & !(1 << n)` clears bit `n` of a word and keeps the others.
pub clear_bit :
    (w n i x : ℕ)
    → i < w
    → n < w
    → bit_at i (bit_and x (complement w (2 ^ n))) ≡ (if n == i then 0 else bit_at i x)
clear_bit w n i x hi hn = ground (
  arith,
  bit_at-bit_and i x (complement w (2 ^ n)),
  bit_at-complement w i (2 ^ n) hi (pow_lt n w hn),
  bit_at-pow i n,
  bit_at-le-one i x,
)
