-- ===== src/Base/Bits.antt =====
-- Laws of `&` at variables, from the digit recursion that the native operation stands for.
use Prim.Native.Nat.{digits, bit_and-bitwise}
use rane_processing_language.Base.{ℕ, zero, suc, ◌/◌, ◌≤◌, ◌≡◌, refl, arith, min, bit_and}

both_digits : ℕ → ℕ → ℕ → ℕ
both_digits fuel a b = digits (λ c. zero) min fuel a b

both_digits_self : (fuel a : ℕ) → a ≤ fuel → both_digits fuel a a ≡ a
unfolding both_digits
both_digits_self zero zero h = refl
both_digits_self zero (suc a) h = absurd (omega arith)
both_digits_self (suc fuel) zero h = refl
both_digits_self (suc fuel) (suc a) h =
    omega (arith, both_digits_self fuel (suc a / 2) (omega arith))

pub bit_and_self : (a : ℕ) → bit_and a a ≡ a
unfolding both_digits
bit_and_self a = omega (arith, bit_and-bitwise a a, both_digits_self a a (omega arith))
