-- ===== src/Varint/Encode.antt =====
-- What `AppendVarint` writes, in plain arithmetic.
use aire_go.Base.{
  ltb, if◌then◌else◌, length, All, ok, panic, tag_two, tag_four, tag_eight, ℕ, ◌+◌, ◌/◌, ◌%◌, ◌^◌,
  ◌≤◌, ◌<◌, ◌≡◌, [], ◌∷◌, ◌++◌, arith,
}
use aire_go.Varint.{Bytes, IsByte, max_varint, append_varint}

-- The shortest of the four forms: the length tag is added to the top byte.
unfoldable pub encoding : ℕ → Bytes
encoding v =
    if ltb v (2 ^ 6)
    then v ∷ []
    else if ltb v (2 ^ 14)
    then (v / 2 ^ 8 + 64) ∷ v % 256 ∷ []
    else if ltb v (2 ^ 30)
    then (v / 2 ^ 24 + 128) ∷ v / 2 ^ 16 % 256 ∷ v / 2 ^ 8 % 256 ∷ v % 256 ∷ []
    else (v / 2 ^ 56 + 192)
      ∷ v / 2 ^ 48 % 256
      ∷ v / 2 ^ 40 % 256
      ∷ v / 2 ^ 32 % 256
      ∷ v / 2 ^ 24 % 256
      ∷ v / 2 ^ 16 % 256
      ∷ v / 2 ^ 8 % 256
      ∷ v % 256
      ∷ []

pub append_varint-encoding :
    (dst : Bytes) (v : ℕ) → v ≤ max_varint → append_varint dst v ≡ ok (dst ++ encoding v)
unfolding append_varint encoding
append_varint-encoding dst v h = ground (
  arith,
  tag_two (v / 2 ^ 8 % 256),
  tag_four (v % 2 ^ 32 / 2 ^ 24 % 256),
  tag_eight (v / 2 ^ 56 % 256),
)

pub append_varint-panic : (dst : Bytes) (v : ℕ) → max_varint < v → append_varint dst v ≡ panic
unfolding append_varint
append_varint-panic dst v h = ground arith

pub encoding-IsByte : (v : ℕ) → v ≤ max_varint → All IsByte (encoding v)
unfolding encoding
encoding-IsByte v h = ground arith

pub length-encoding : (v : ℕ) → (1 ≤ length (encoding v)) × (length (encoding v) ≤ 8)
unfolding encoding
length-encoding v = ground arith
