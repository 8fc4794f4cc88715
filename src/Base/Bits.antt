-- ===== src/Base/Bits.antt =====
-- `|` and `&` as arithmetic, where the operands share no bit.
use Prim.Native.Nat.{
  ℕ, zero, suc, ◌+◌, ◌*◌, ◌/◌, ◌%◌, ◌^◌, ◌≤◌, ◌<◌, max, bit_and, bit_or, digits, bit_or-bitwise,
}
use mathlib.Core.Path.{◌≡◌, refl, ap, ◌∙◌}
use mathlib.Core.Bool.{Bool, true, false}
use mathlib.Core.Logic.{ite}
use native.Mathlib.Decide.{ℕ_discrete}
use native.Mathlib.Nat.{pow-suc}
use native.Mathlib.Omega.{arith}

module _ (f g : ℕ → ℕ) where
  agree_below : ℕ → Bool
  unfolding ℕ_discrete
  agree_below zero = true
  agree_below (suc n) = ite (ℕ_discrete (f n) (g n)) (agree_below n) false

  agree_below→eq : (n : ℕ) → agree_below n ≡ true → (i : ℕ) → i < n → f i ≡ g i
  unfolding agree_below
  agree_below→eq zero e i h = absurd (omega arith)
  agree_below→eq (suc n) e i h = ground (arith, agree_below→eq n (ground arith) i)

-- The mask `0x3F` on a byte, and the length tags of a varint's first byte.
pub low_six : (b : ℕ) → b < 256 → bit_and b 0x3F ≡ b % 64
unfolding agree_below
low_six = agree_below→eq _ _ 256 refl

pub tag_two : (b : ℕ) → b < 64 → bit_or b 0x40 ≡ b + 64
unfolding agree_below
tag_two = agree_below→eq _ _ 64 refl

pub tag_four : (b : ℕ) → b < 64 → bit_or b 0x80 ≡ b + 128
unfolding agree_below
tag_four = agree_below→eq _ _ 64 refl

pub tag_eight : (b : ℕ) → b < 64 → bit_or b 0xC0 ≡ b + 192
unfolding agree_below
tag_eight = agree_below→eq _ _ 64 refl

-- The law of `|` for the lowest digit.
abbrev or_digits : ℕ → ℕ → ℕ → ℕ
or_digits n a b = digits (λ b. b) max n a b

or_digits_fuel : (n m a b : ℕ) → a ≤ n → a ≤ m → or_digits n a b ≡ or_digits m a b
or_digits_fuel zero zero a b p q = refl
or_digits_fuel zero (suc m) zero b p q = refl
or_digits_fuel zero (suc m) (suc a) b p q = absurd (omega arith)
or_digits_fuel (suc n) zero zero b p q = refl
or_digits_fuel (suc n) zero (suc a) b p q = absurd (omega arith)
or_digits_fuel (suc n) (suc m) zero b p q = refl
or_digits_fuel (suc n) (suc m) (suc a) b p q =
    omega (arith, or_digits_fuel n m (suc a / 2) (b / 2) (omega arith) (omega arith))

zero-bit_or : (b : ℕ) → bit_or 0 b ≡ b
zero-bit_or b = bit_or-bitwise 0 b

bit_or_step : (a b : ℕ) → bit_or a b ≡ bit_or (a / 2) (b / 2) * 2 + max (a % 2) (b % 2)
bit_or_step zero b = omega (arith, zero-bit_or b, zero-bit_or (b / 2))
bit_or_step (suc a) b = omega (
  arith,
  bit_or-bitwise (suc a) b,
  bit_or-bitwise (suc a / 2) (b / 2),
  or_digits_fuel a (suc a / 2) (suc a / 2) (b / 2) (omega arith) (omega arith),
)

bit_or-zero_fuel : (n a : ℕ) → a ≤ n → bit_or a 0 ≡ a
bit_or-zero_fuel n zero h = refl
bit_or-zero_fuel zero (suc a) h = absurd (omega arith)
bit_or-zero_fuel (suc n) (suc a) h =
    omega (arith, bit_or_step (suc a) 0, bit_or-zero_fuel n (suc a / 2) (omega arith))

double-bit_or : (t b : ℕ) → bit_or (t * 2) b ≡ bit_or t (b / 2) * 2 + b % 2
double-bit_or t b =
    let e : t * 2 / 2 ≡ t = omega arith in
    bit_or_step (t * 2) b ∙ omega (arith, ap (λ (u : ℕ). bit_or u (b / 2)) e)

-- A value shifted past all the bits of `b` is joined to it by a sum.
pub bit_or_shifted : (k a b : ℕ) → b < 2 ^ k → bit_or (a * 2 ^ k) b ≡ a * 2 ^ k + b
bit_or_shifted zero a b h =
    let e : b ≡ 0 = omega arith in
    let f : a * 2 ^ 0 ≡ a = omega arith in
    rw (e, f) (omega (arith, bit_or-zero_fuel a a (omega arith)))
bit_or_shifted (suc k) a b h =
    let e : a * 2 ^ suc k ≡ a * 2 ^ k * 2 = omega (arith, ap (λ (t : ℕ). a * t) (pow-suc 2 k)) in
    let ih = bit_or_shifted k a (b / 2) (omega (arith, pow-suc 2 k)) in
    rw e (omega (arith, double-bit_or (a * 2 ^ k) b, ih))

-- The same for two terms of a chain of `|`: `x` is a multiple of `2 ^ k`, and `y` is below it.
pub bit_or_add : (k q x y : ℕ) → x ≡ q * 2 ^ k → y < 2 ^ k → bit_or x y ≡ x + y
bit_or_add k q x y e h = rw e (bit_or_shifted k q y h)
