-- ===== src/Options/Power.antt =====
-- `isPowerOfTwo` decides what its name says.
use testofdumping.Prelude.{
  ℕ, zero, suc, ◌+◌, ◌-◌, ◌*◌, ◌/◌, ◌%◌, ◌^◌, ◌≤◌, ◌<◌, true, ◌≡◌, ◌↔◌, refl, ap, ◌∙◌, arith,
  bit_and,
}
use testofdumping.Prelude.Bits.{bit_and_halves, bit_and_self}
use testofdumping.Options.{is_power_of_two}
use native.Mathlib.Nat.{pow-suc}
use native.Mathlib.Decide.{ℕ_discrete}

-- An odd number keeps all its digits but the last; an even one passes the question to its half.
and_pred_odd : (y : ℕ) → bit_and (2 * y + 1) (2 * y) ≡ 2 * y
and_pred_odd y = omega (
  arith,
  bit_and_halves (2 * y + 1) (2 * y),
  ap (λ k. bit_and k (2 * y / 2)) half_odd,
  ap (λ k. bit_and y k) half_even,
  bit_and_self y,
)
  where
    half_odd : (2 * y + 1) / 2 ≡ y
    half_odd = omega arith

    half_even : 2 * y / 2 ≡ y
    half_even = omega arith

and_pred_even : (y : ℕ) → 0 < y → bit_and (2 * y) (2 * y - 1) ≡ 2 * bit_and y (y - 1)
and_pred_even y pos = omega (
  arith,
  bit_and_halves (2 * y) (2 * y - 1),
  ap (λ k. bit_and k ((2 * y - 1) / 2)) half_even,
  ap (λ k. bit_and y k) half_pred,
)
  where
    half_even : 2 * y / 2 ≡ y
    half_even = omega arith

    half_pred : (2 * y - 1) / 2 ≡ y - 1
    half_pred = omega arith

power_of_and : (n x : ℕ) → x ≤ n → 0 < x → bit_and x (x - 1) ≡ 0 → (k : ℕ) × (x ≡ 2 ^ k)
power_of_and zero x le pos e = absurd (omega arith)
power_of_and (suc n) x le pos e = elim (ℕ_discrete (x % 2) 0) [
  | yes even ↦
      let y = x / 2 in
      let double : x ≡ 2 * y = omega arith in
      let half : bit_and y (y - 1) ≡ 0 =
        omega (arith, e, ap (λ k. bit_and k (k - 1)) double, and_pred_even y (omega arith)) in
      let (k, ek) = power_of_and n y (omega arith) (omega arith) half in
      (suc k, omega (arith, pow-suc 2 k))
  | no odd ↦
      let y = x / 2 in
      let double : x ≡ 2 * y + 1 = omega arith in
      let pred : 2 * y + 1 - 1 ≡ 2 * y = omega arith in
      (
        zero,
        omega (
          arith,
          e,
          ap (λ k. bit_and k (k - 1)) double,
          ap (λ k. bit_and (2 * y + 1) k) pred,
          and_pred_odd y,
        ),
      )
]

and_of_power : (k : ℕ) → (0 < 2 ^ k) × (bit_and (2 ^ k) (2 ^ k - 1) ≡ 0)
and_of_power zero = (omega arith, refl)
and_of_power (suc k) =
    let (pos, ih) = and_of_power k in
    (
      omega (arith, pow-suc 2 k),
      ap (λ n. bit_and n (n - 1)) (double k) ∙ and_pred_even (2 ^ k) pos ∙ omega (arith, ih),
    )
  where
    double : (j : ℕ) → 2 ^ suc j ≡ 2 * 2 ^ j
    double j = omega (arith, pow-suc 2 j)

-- `isPowerOfTwo` is true of a number exactly when that is a power of two; of 0 it is false.
pub is_power_of_two_iff : (x : ℕ) → (is_power_of_two x ≡ true) ↔ ((k : ℕ) × (x ≡ 2 ^ k))
unfolding is_power_of_two
is_power_of_two_iff x = (
  λ h. power_of_and x x (omega arith) (ground arith) (ground arith),
  λ (k, e). rw e (let (pos, z) = and_of_power k in ground arith),
)
