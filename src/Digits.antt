-- ===== src/Digits.antt =====
-- Numbers in a positional system, as package math/big has them in `SetBytes`, `Bytes` and `QuoRem`.
pub mod Canonical
pub mod Recode
pub mod Size
pub mod Print
pub mod Decimal
use aire_go.Base.{◌==◌, if◌then◌else◌, ℕ, zero, suc, ◌+◌, ◌*◌, ◌/◌, ◌%◌, List, [], ◌∷◌}

-- The digits of `n` in base `b`, the least first, and none for 0: a loop that divides by the base
-- while the number is positive. Each round lowers the number, so `n` is fuel enough.
pub le_digits : ℕ → ℕ → ℕ → List ℕ
le_digits zero b n = []
le_digits (suc fuel) b n =
    let rest = le_digits fuel b (n / b) in if n == 0 then [] else n % b ∷ rest

unfoldable pub to_digits : ℕ → ℕ → List ℕ
unfolding le_digits
to_digits b n = le_digits n b n

-- The number whose digits in base `b` are appended to those of `acc`, the greatest first.
unfoldable pub of_digits : ℕ → ℕ → List ℕ → ℕ
of_digits b acc [] = acc
of_digits b acc (d ∷ ds) = of_digits b (acc * b + d) ds

-- The number of zeros at the front.
unfoldable pub leading_zeros : List ℕ → ℕ
leading_zeros [] = 0
leading_zeros (d ∷ ds) = let rest = leading_zeros ds in if d == 0 then suc rest else 0
