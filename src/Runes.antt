-- ===== src/Runes.antt =====
-- Go's conversions between a string and its code points: `[]rune(s)` and `string(runes)`.
pub mod RoundTrip
use aire_go.Base.{
  ltb, leb, ◌==◌, if◌then◌else◌, length, get_or, drop, ℕ, zero, suc, ◌+◌, ◌*◌, ◌/◌, ◌%◌, Bool, ◌&&◌,
  ◌||◌, List, [], ◌∷◌, ◌++◌,
}
use aire_go.Varint.{Bytes}

-- U+FFFD, which stands for a byte that begins no code point, and for a number that is none.
abbrev pub rune_error : ℕ
rune_error = 0xFFFD

abbrev is_continuation : ℕ → Bool
is_continuation b = leb 0x80 b && leb b 0xBF

-- What the second byte may be behind the first byte `a` of a form of three or four bytes: no form
-- that is too long, no surrogate, nothing above U+10FFFF.
abbrev second_of_three : ℕ → ℕ → Bool
second_of_three a b =
    leb (if a == 0xE0 then 0xA0 else 0x80) b && leb b (if a == 0xED then 0x9F else 0xBF)

abbrev second_of_four : ℕ → ℕ → Bool
second_of_four a b =
    leb (if a == 0xF0 then 0x90 else 0x80) b && leb b (if a == 0xF4 then 0x8F else 0xBF)

abbrev bad : ℕ × ℕ
bad = (rune_error, 1)

two_bytes : ℕ → ℕ → ℕ × ℕ
two_bytes a b = if is_continuation b then (a % 32 * 64 + b % 64, 2) else bad

three_bytes : ℕ → ℕ → ℕ → ℕ × ℕ
three_bytes a b c =
    if second_of_three a b && is_continuation c
    then (a % 16 * 4096 + (b % 64 * 64 + c % 64), 3)
    else bad

four_bytes : ℕ → ℕ → ℕ → ℕ → ℕ × ℕ
four_bytes a b c d =
    if second_of_four a b && (is_continuation c && is_continuation d)
    then (a % 8 * 262144 + (b % 64 * 4096 + (c % 64 * 64 + d % 64)), 4)
    else bad

-- The code point at the front of four bytes, where a byte that is not there is 0, and its length.
unfoldable pub rune_of : ℕ → ℕ → ℕ → ℕ → ℕ × ℕ
unfolding two_bytes three_bytes four_bytes
rune_of a b c d =
    if ltb a 0x80
    then (a, 1)
    else if ltb a 0xC2
    then bad
    else if ltb a 0xE0
    then two_bytes a b
    else if ltb a 0xF0
    then three_bytes a b c
    else if ltb a 0xF5
    then four_bytes a b c d
    else bad

unfoldable pub first_rune : Bytes → ℕ × ℕ
first_rune s = rune_of (get_or s 0 0) (get_or s 1 0) (get_or s 2 0) (get_or s 3 0)

decode_from : ℕ → Bytes → List ℕ
decode_from zero s = []
decode_from (suc fuel) [] = []
decode_from (suc fuel) (b ∷ s) =
    let (r, width) = first_rune (b ∷ s) in r ∷ decode_from fuel (drop width (b ∷ s))

-- `[]rune(s)`; each code point takes a byte at least, so the length is fuel enough.
unfoldable pub decode_runes : Bytes → List ℕ
unfolding decode_from
decode_runes s = decode_from (length s) s

-- A code point that has a form: no surrogate, and not above U+10FFFF.
abbrev pub is_rune : ℕ → Bool
is_rune r = ltb r 0xD800 || (leb 0xE000 r && ltb r 0x110000)

encode_valid : ℕ → Bytes
encode_valid r =
    if ltb r 0x80
    then r ∷ []
    else if ltb r 0x800
    then (0xC0 + r / 64) ∷ (0x80 + r % 64) ∷ []
    else if ltb r 0x10000
    then (0xE0 + r / 4096) ∷ (0x80 + r / 64 % 64) ∷ (0x80 + r % 64) ∷ []
    else (0xF0 + r / 262144) ∷ (0x80 + r / 4096 % 64) ∷ (0x80 + r / 64 % 64) ∷ (0x80 + r % 64) ∷ []

unfoldable pub encode_rune : ℕ → Bytes
unfolding encode_valid
encode_rune r = encode_valid (if is_rune r then r else rune_error)

-- `string(runes)`
unfoldable pub encode_runes : List ℕ → Bytes
encode_runes [] = []
encode_runes (r ∷ rs) = encode_rune r ++ encode_runes rs
