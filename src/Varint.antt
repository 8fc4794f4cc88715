-- ===== src/Varint.antt =====
-- `AppendVarint` and `ReadVarint` of frame.go: QUIC's variable-length integers. A byte slice is a
-- list of numbers, each a byte where a lemma needs it.
pub mod Encode
pub mod Values
pub mod Decode
pub mod RoundTrip
use aire_go.Base.{
  ltb, ◌==◌, if◌then◌else◌, length, Result, short_buffer, sentinel, ok, err, panic, ℕ, ◌+◌, ◌-◌,
  ◌*◌, ◌/◌, ◌%◌, ◌^◌, ◌<◌, bit_and, bit_or, List, [], ◌∷◌, ◌++◌,
}

abbrev pub Bytes : Type 0
Bytes = List ℕ

abbrev pub IsByte : ℕ → Type 0
IsByte b = b < 256

-- The conversion `byte(n)`.
abbrev pub byte : ℕ → ℕ
byte n = n % 256

abbrev pub max_varint : ℕ
max_varint = 2 ^ 62 - 1

-- `a << k` on a uint64.
abbrev pub shl64 : ℕ → ℕ → ℕ
shl64 a k = a * 2 ^ k % 2 ^ 64

-- `binary.BigEndian.PutUint32` and `PutUint64`, as the bytes that they write.
abbrev pub put_uint32 : ℕ → Bytes
put_uint32 v = byte (v / 2 ^ 24) ∷ byte (v / 2 ^ 16) ∷ byte (v / 2 ^ 8) ∷ byte v ∷ []

abbrev pub put_uint64 : ℕ → Bytes
put_uint64 v =
    byte (v / 2 ^ 56)
    ∷ byte (v / 2 ^ 48)
    ∷ byte (v / 2 ^ 40)
    ∷ byte (v / 2 ^ 32)
    ∷ put_uint32 (v % 2 ^ 32)

-- `binary.BigEndian.Uint64`, of eight bytes.
abbrev pub be_uint64 : Bytes → ℕ
be_uint64 [] = 0
be_uint64 (b ∷ bs) = b * 256 ^ length bs + be_uint64 bs

-- `b[0] |= tag`
abbrev tag_first : ℕ → Bytes → Bytes
tag_first tag [] = []
tag_first tag (b ∷ bs) = bit_or b tag ∷ bs

unfoldable pub append_varint : Bytes → ℕ → Result Bytes
append_varint dst v =
    if ltb max_varint v
    then panic
    else if ltb v (2 ^ 6)
    then ok (dst ++ byte v ∷ [])
    else if ltb v (2 ^ 14)
    then ok (dst ++ bit_or (byte (v / 2 ^ 8)) 0x40 ∷ byte v ∷ [])
    else if ltb v (2 ^ 30)
    then ok (dst ++ tag_first 0x80 (put_uint32 (v % 2 ^ 32)))
    else ok (dst ++ tag_first 0xC0 (put_uint64 v))

-- The cases of the length tag, over the bytes behind the first.
pub read_two : ℕ → Bytes → Result (ℕ × ℕ)
read_two b0 (b1 ∷ _) = ok (bit_or (shl64 (bit_and b0 0x3F) 8) b1, 2)
read_two b0 _ = err (sentinel short_buffer)

pub read_four : ℕ → Bytes → Result (ℕ × ℕ)
read_four b0 (b1 ∷ b2 ∷ b3 ∷ _) =
    ok (bit_or (bit_or (bit_or (shl64 (bit_and b0 0x3F) 24) (shl64 b1 16)) (shl64 b2 8)) b3, 4)
read_four b0 _ = err (sentinel short_buffer)

-- The eight-byte value: the upper four bytes first.
pub eight_value : ℕ → ℕ → ℕ → ℕ → ℕ → ℕ → ℕ → ℕ → ℕ
eight_value b0 b1 b2 b3 b4 b5 b6 b7 =
    let x1 = bit_or (shl64 (bit_and b0 0x3F) 56) (shl64 b1 48) in
    let x3 = bit_or (bit_or x1 (shl64 b2 40)) (shl64 b3 32) in
    let x5 = bit_or (bit_or x3 (shl64 b4 24)) (shl64 b5 16) in bit_or (bit_or x5 (shl64 b6 8)) b7

pub read_eight : ℕ → Bytes → Result (ℕ × ℕ)
read_eight b0 (b1 ∷ b2 ∷ b3 ∷ b4 ∷ b5 ∷ b6 ∷ b7 ∷ _) = ok (eight_value b0 b1 b2 b3 b4 b5 b6 b7, 8)
read_eight b0 _ = err (sentinel short_buffer)

-- The decoded value and the number of bytes read.
unfoldable pub read_varint : Bytes → Result (ℕ × ℕ)
unfolding read_two read_four read_eight eight_value
read_varint [] = err (sentinel short_buffer)
read_varint (b0 ∷ rest) =
    if b0 / 2 ^ 6 == 0
    then ok (bit_and b0 0x3F, 1)
    else if b0 / 2 ^ 6 == 1
    then read_two b0 rest
    else if b0 / 2 ^ 6 == 2
    then read_four b0 rest
    else read_eight b0 rest
