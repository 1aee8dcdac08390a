-- ===== src/Prelude/Bits.antt =====
-- `&` of two variables: it is that of the halves, doubled, with that of the last digits.
use Prim.Native.Nat.{
  ℕ, zero, suc, ◌+◌, ◌-◌, ◌*◌, ◌/◌, ◌%◌, ◌≤◌, ◌<◌, min, bit_and, digits, bit_and-bitwise,
}
use mathlib.Core.Path.{◌≡◌, refl, sym, ap, ◌∙◌}
use native.Mathlib.Omega.{arith}

-- The digits that both numbers have, with fuel.
abbrev shared : (fuel x y : ℕ) → ℕ
shared fuel x y = digits (λ rest. zero) min fuel x y

one_more : (fuel x y : ℕ) → x ≤ fuel → shared (suc fuel) x y ≡ shared fuel x y
one_more zero zero y le = refl
one_more (suc fuel) zero y le = refl
one_more (suc fuel) (suc x) y le = omega (arith, one_more fuel (suc x / 2) (y / 2) (omega arith))
one_more zero (suc x) y le = absurd (omega arith)

spare : (k fuel x y : ℕ) → x ≤ fuel → shared (k + fuel) x y ≡ shared fuel x y
spare zero fuel x y le = ap (λ n. shared n x y) none
  where
    none : 0 + fuel ≡ fuel
    none = omega arith
spare (suc k) fuel x y le =
    ap (λ n. shared n x y) next ∙ one_more (k + fuel) x y (omega arith) ∙ spare k fuel x y le
  where
    next : suc k + fuel ≡ suc (k + fuel)
    next = omega arith

-- A number of fuel that is enough serves as well as the number itself.
shared_enough : (fuel x y : ℕ) → x ≤ fuel → shared fuel x y ≡ bit_and x y
shared_enough fuel x y le =
    ap (λ n. shared n x y) fuel_split
    ∙ spare (fuel - x) x x y (omega arith)
    ∙ sym (bit_and-bitwise x y)
  where
    fuel_split : fuel ≡ fuel - x + x
    fuel_split = omega arith

pub bit_and_halves : (x y : ℕ) → bit_and x y ≡ 2 * bit_and (x / 2) (y / 2) + min (x % 2) (y % 2)
bit_and_halves zero y = omega (arith, bit_and-bitwise zero y, bit_and-bitwise zero (y / 2))
bit_and_halves (suc x) y =
    omega (arith, bit_and-bitwise (suc x) y, shared_enough x (suc x / 2) (y / 2) (omega arith))

self_below : (bound x : ℕ) → x < bound → bit_and x x ≡ x
self_below (suc bound) (suc x) lt =
    omega (arith, self_below bound (suc x / 2) (omega arith), bit_and_halves (suc x) (suc x))
self_below (suc bound) zero lt = refl
self_below zero x lt = absurd (omega arith)

pub bit_and_self : (x : ℕ) → bit_and x x ≡ x
bit_and_self x = self_below (suc x) x (omega arith)
