-- ===== src/Prelude/Decimal.antt =====
-- `%ld` of a number that is not negative: its decimal digits, and why no two numbers share them.
use Prim.Native.Nat.{ℕ, zero, suc, ◌+◌, ◌-◌, ◌*◌, ◌/◌, ◌%◌, ◌<◌}
use mathlib.Core.Path.{◌≡◌, refl, sym, ap, ◌∙◌}
use mathlib.Core.List.{List, [], ◌∷◌, ◌++◌}
use native.Mathlib.Omega.{arith}
use testofdumping.Prelude.Tests.{ltb, if◌then◌else◌}
use testofdumping.Prelude.Lists.{length, length-append}

-- With fuel; a number is at most itself, so that its successor is fuel enough.
decimal_fuel : ℕ → ℕ → List ℕ
decimal_fuel zero n = []
decimal_fuel (suc f) n =
    let rest = decimal_fuel f (n / 10) ++ (48 + n % 10) ∷ [] in
    if ltb n 10 then (48 + n) ∷ [] else rest

unfoldable pub decimal : ℕ → List ℕ
unfolding decimal_fuel
decimal n = decimal_fuel (suc n) n

-- Reads digits back, most significant first.
read : ℕ → List ℕ → ℕ
read acc [] = acc
read acc (c ∷ cs) = read (acc * 10 + (c - 48)) cs

read-append : (acc : ℕ) (xs ys : List ℕ) → read acc (xs ++ ys) ≡ read (read acc xs) ys
unfolding read
read-append acc [] ys = refl
read-append acc (x ∷ xs) ys = read-append (acc * 10 + (x - 48)) xs ys

read-decimal_fuel : (f n : ℕ) → n < f → read 0 (decimal_fuel f n) ≡ n
unfolding decimal_fuel read
read-decimal_fuel zero n h = absurd (omega arith)
read-decimal_fuel (suc f) n h = ground (
  arith,
  read-append 0 (decimal_fuel f (n / 10)) ((48 + n % 10) ∷ []),
  read-decimal_fuel f (n / 10),
)

-- Printing is injective.
pub decimal-injective : (m n : ℕ) → decimal m ≡ decimal n → m ≡ n
unfolding decimal
decimal-injective m n h =
    sym (read-decimal_fuel (suc m) m (omega arith))
    ∙ ap (read 0) h
    ∙ read-decimal_fuel (suc n) n (omega arith)

pub decimal-ne-nil : (n : ℕ) → 0 < length (decimal n)
unfolding decimal decimal_fuel
decimal-ne-nil n = ground (arith, length-append (decimal_fuel n (n / 10)) ((48 + n % 10) ∷ []))
