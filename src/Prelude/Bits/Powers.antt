-- ===== src/Prelude/Bits/Powers.antt =====
-- The test of `is_power_of_two`.
use Prim.Native.Nat.{ℕ, zero, suc, ◌-◌, ◌/◌, ◌%◌, ◌^◌, ◌≤◌, ◌<◌, bit_and}
use mathlib.Core.Path.{◌≡◌, refl, ap, ◌∙◌}
use mathlib.Core.Logic.{◌↔◌}
use native.Mathlib.Nat.{pow-suc}
use native.Mathlib.Decide.{ℕ_discrete}
use native.Mathlib.Omega.{arith}
use brane_os.Prelude.Bits.{pow_pos}
use brane_os.Prelude.Bits.Digits.{bit_and_step}

bit_and_self : (n a : ℕ) → a ≤ n → bit_and a a ≡ a
bit_and_self zero a h = ap (λ k. bit_and k k) {x = a} {y = 0} (omega (arith, h)) ∙ omega (arith, h)
bit_and_self (suc n) a h = omega (arith, bit_and_step a a, bit_and_self n (a / 2) (omega arith))

power_fuel : (b n : ℕ) → n ≤ b → 0 < n → bit_and n (n - 1) ≡ 0 → (k : ℕ) × (n ≡ 2 ^ k)
power_fuel zero n l p e = absurd (omega arith)
power_fuel (suc b) n l p e = elim (ℕ_discrete (n % 2) 0) [
  | yes even ↦
      let rest : bit_and (n / 2) (n / 2 - 1) ≡ 0 = omega (
        arith,
        even,
        e,
        bit_and_step n (n - 1),
        ap (bit_and (n / 2)) {x = (n - 1) / 2} {y = n / 2 - 1} (omega (arith, even)),
      ) in
      let (k, q) = power_fuel b (n / 2) (omega (arith, even)) (omega (arith, even)) rest in
      (suc k, omega (arith, q, even, pow-suc 2 k))
  | no odd ↦ (
    0,
    omega (
      arith,
      odd,
      e,
      bit_and_step n (n - 1),
      ap (bit_and (n / 2)) {x = (n - 1) / 2} {y = n / 2} (omega (arith, odd)),
      bit_and_self n (n / 2) (omega arith),
    ),
  )
]

bit_and_power : (k : ℕ) → bit_and (2 ^ k) (2 ^ k - 1) ≡ 0
bit_and_power zero = refl
bit_and_power (suc k) = omega (
  arith,
  pow-suc 2 k,
  pow_pos k,
  bit_and_step (2 ^ suc k) (2 ^ suc k - 1),
  bit_and_power k,
  ap (bit_and (2 ^ suc k / 2)) {x = (2 ^ suc k - 1) / 2} {y = 2 ^ k - 1}
      (omega (arith, pow-suc 2 k, pow_pos k)),
  ap (λ a. bit_and a (2 ^ k - 1)) {x = 2 ^ suc k / 2} {y = 2 ^ k} (omega (arith, pow-suc 2 k)),
)

-- A positive number shares no bit with its predecessor exactly when it is a power of two.
pub power_of_two_iff : (n : ℕ) → 0 < n → (bit_and n (n - 1) ≡ 0) ↔ ((k : ℕ) × (n ≡ 2 ^ k))
power_of_two_iff n p =
    (power_fuel n n (omega arith) p, λ h. ap (λ a. bit_and a (a - 1)) h.1 ∙ bit_and_power h.0)
