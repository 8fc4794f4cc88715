-- ===== src/Digits/Print.antt =====
-- Numbers as package fmt prints them.
use aire_go.Base.{ltb, ◌==◌, if◌then◌else◌, length, ℕ, ◌+◌, ◌-◌, [], ◌∷◌, map, reverse}
use aire_go.Varint.{Bytes}
use aire_go.Digits.{to_digits}

abbrev pub hex_digit : ℕ → ℕ
hex_digit d = if ltb d 10 then b'0' + d else b'a' + (d - 10)

-- The digits of a number, with one for 0.
unfoldable pub in_base : ℕ → ℕ → Bytes
in_base base n = if n == 0 then b'0' ∷ [] else reverse (map hex_digit (to_digits base n))

-- `%d`
abbrev pub decimal : ℕ → Bytes
decimal n = in_base 10 n

-- `%02x`
unfoldable pub two_hex : ℕ → Bytes
two_hex n = let s = in_base 16 n in if ltb (length s) 2 then b'0' ∷ s else s
