-- ===== src/Base/Digits.antt =====
-- The native operations on binary digits, one digit at a time.
use Prim.Native.Nat.{
  ℕ, zero, suc, ◌+◌, ◌*◌, ◌/◌, ◌%◌, ◌≤◌, min, max, digits, differ, bit_and, bit_or, bit_xor,
  bit_and-bitwise, bit_or-bitwise, bit_xor-bitwise,
}
use mathlib.Core.Path.{◌≡◌, refl}
use native.Mathlib.Nat.{le_refl}
use native.Mathlib.Omega.{arith}

module _ (rest : ℕ → ℕ) (op : ℕ → ℕ → ℕ) where
  -- More fuel than the first number has digits changes nothing.
  enough_fuel : (f g x y : ℕ) → x ≤ f → x ≤ g → digits rest op f x y ≡ digits rest op g x y
  enough_fuel zero zero x y hf hg = refl
  enough_fuel zero (suc g) zero y hf hg = refl
  enough_fuel (suc f) zero zero y hf hg = refl
  enough_fuel zero (suc g) (suc x) y hf hg = absurd (omega arith)
  enough_fuel (suc f) zero (suc x) y hf hg = absurd (omega arith)
  enough_fuel (suc f) (suc g) zero y hf hg = refl
  enough_fuel (suc f) (suc g) (suc x) y hf hg =
      omega (arith, enough_fuel f g (suc x / 2) (y / 2) (omega arith) (omega arith))

  lowest :
      (x y : ℕ)
      → digits rest op (suc x) (suc x) y
        ≡ digits rest op (suc x / 2) (suc x / 2) (y / 2) * 2 + op (suc x % 2) (y % 2)
  lowest x y =
      omega (arith, enough_fuel x (suc x / 2) (suc x / 2) (y / 2) (omega arith) (le_refl _))

pub bit_and_lowest : (x y : ℕ) → bit_and x y ≡ bit_and (x / 2) (y / 2) * 2 + min (x % 2) (y % 2)
bit_and_lowest zero y = simp bit_and-bitwise (omega arith)
bit_and_lowest (suc x) y = simp bit_and-bitwise (lowest (λ b. zero) min x y)

pub bit_or_lowest : (x y : ℕ) → bit_or x y ≡ bit_or (x / 2) (y / 2) * 2 + max (x % 2) (y % 2)
bit_or_lowest zero y = simp bit_or-bitwise (omega arith)
bit_or_lowest (suc x) y = simp bit_or-bitwise (lowest (λ b. b) max x y)

pub bit_xor_lowest : (x y : ℕ) → bit_xor x y ≡ bit_xor (x / 2) (y / 2) * 2 + differ (x % 2) (y % 2)
bit_xor_lowest zero y = simp bit_xor-bitwise (omega arith)
bit_xor_lowest (suc x) y = simp bit_xor-bitwise (lowest (λ b. b) differ x y)
