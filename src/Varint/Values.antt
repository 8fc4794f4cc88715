-- ===== src/Varint/Values.antt =====
-- The values that `ReadVarint` reads from two, four and eight bytes, as sums.
use aire_go.Base.{
  All, ok, low_six, bit_or_add, ℕ, ◌+◌, ◌*◌, ◌%◌, ◌^◌, ◌<◌, bit_and, bit_or, ◌≡◌, [], ◌∷◌, arith,
}
use aire_go.Varint.{
  Bytes, IsByte, shl64, read_two, read_four, read_eight, eight_value, put_uint64, be_uint64,
}

pub read_two-value :
    (b0 b1 : ℕ) (rest : Bytes)
    → IsByte b0
    → IsByte b1
    → read_two b0 (b1 ∷ rest) ≡ ok (b0 % 64 * 2 ^ 8 + b1, 2)
unfolding read_two
read_two-value b0 b1 rest h0 h1 =
    ground (arith, low_six b0, bit_or_add 8 (b0 % 64) (shl64 (bit_and b0 0x3F) 8) b1)

pub read_four-value :
    (b0 b1 b2 b3 : ℕ) (rest : Bytes)
    → IsByte b0
    → IsByte b1
    → IsByte b2
    → IsByte b3
    → read_four b0 (b1 ∷ b2 ∷ b3 ∷ rest) ≡ ok (b0 % 64 * 2 ^ 24 + b1 * 2 ^ 16 + b2 * 2 ^ 8 + b3, 4)
unfolding read_four
read_four-value b0 b1 b2 b3 rest h0 h1 h2 h3 =
    let top = shl64 (bit_and b0 0x3F) 24 in
    let x1 = bit_or top (shl64 b1 16) in
    let x2 = bit_or x1 (shl64 b2 8) in
    ground (
      arith,
      low_six b0,
      bit_or_add 24 (b0 % 64) top (shl64 b1 16),
      bit_or_add 16 (b0 % 64 * 2 ^ 8 + b1) x1 (shl64 b2 8),
      bit_or_add 8 (b0 % 64 * 2 ^ 16 + b1 * 2 ^ 8 + b2) x2 b3,
    )

-- Eight bytes as one number, the first with its tag taken off.
abbrev pub eight_sum : ℕ → ℕ → ℕ → ℕ → ℕ → ℕ → ℕ → ℕ → ℕ
eight_sum b0 b1 b2 b3 b4 b5 b6 b7 =
    b0 % 64 * 2 ^ 56
    + b1 * 2 ^ 48
    + b2 * 2 ^ 40
    + b3 * 2 ^ 32
    + b4 * 2 ^ 24
    + b5 * 2 ^ 16
    + b6 * 2 ^ 8
    + b7

eight_value-sum :
    (b0 b1 b2 b3 b4 b5 b6 b7 : ℕ)
    → All IsByte (b0 ∷ b1 ∷ b2 ∷ b3 ∷ b4 ∷ b5 ∷ b6 ∷ b7 ∷ [])
    → eight_value b0 b1 b2 b3 b4 b5 b6 b7 ≡ eight_sum b0 b1 b2 b3 b4 b5 b6 b7
unfolding eight_value
eight_value-sum b0 b1 b2 b3 b4 b5 b6 b7 (h0, (h1, (h2, (h3, (h4, (h5, (h6, (h7, _)))))))) =
    let top = shl64 (bit_and b0 0x3F) 56 in
    let q1 = b0 % 64 * 2 ^ 8 + b1 in
    let q2 = q1 * 2 ^ 8 + b2 in
    let q3 = q2 * 2 ^ 8 + b3 in
    let q4 = q3 * 2 ^ 8 + b4 in
    let q5 = q4 * 2 ^ 8 + b5 in
    let q6 = q5 * 2 ^ 8 + b6 in
    let x1 = bit_or top (shl64 b1 48) in
    let x2 = bit_or x1 (shl64 b2 40) in
    let x3 = bit_or x2 (shl64 b3 32) in
    let x4 = bit_or x3 (shl64 b4 24) in
    let x5 = bit_or x4 (shl64 b5 16) in
    let x6 = bit_or x5 (shl64 b6 8) in
    let e0 : top ≡ b0 % 64 * 2 ^ 56 = omega (arith, low_six b0 h0) in
    let e1 : x1 ≡ q1 * 2 ^ 48 =
      omega (arith, bit_or_add 56 (b0 % 64) top (shl64 b1 48) e0 (omega arith)) in
    let e2 : x2 ≡ q2 * 2 ^ 40 = omega (arith, bit_or_add 48 q1 x1 (shl64 b2 40) e1 (omega arith)) in
    let e3 : x3 ≡ q3 * 2 ^ 32 = omega (arith, bit_or_add 40 q2 x2 (shl64 b3 32) e2 (omega arith)) in
    let e4 : x4 ≡ q4 * 2 ^ 24 = omega (arith, bit_or_add 32 q3 x3 (shl64 b4 24) e3 (omega arith)) in
    let e5 : x5 ≡ q5 * 2 ^ 16 = omega (arith, bit_or_add 24 q4 x4 (shl64 b5 16) e4 (omega arith)) in
    let e6 : x6 ≡ q6 * 2 ^ 8 = omega (arith, bit_or_add 16 q5 x5 (shl64 b6 8) e5 (omega arith)) in
    omega (arith, bit_or_add 8 q6 x6 b7 e6 (omega arith))

pub read_eight-value :
    (b0 b1 b2 b3 b4 b5 b6 b7 : ℕ) (rest : Bytes)
    → All IsByte (b0 ∷ b1 ∷ b2 ∷ b3 ∷ b4 ∷ b5 ∷ b6 ∷ b7 ∷ [])
    → read_eight b0 (b1 ∷ b2 ∷ b3 ∷ b4 ∷ b5 ∷ b6 ∷ b7 ∷ rest)
      ≡ ok (eight_sum b0 b1 b2 b3 b4 b5 b6 b7, 8)
unfolding read_eight
read_eight-value b0 b1 b2 b3 b4 b5 b6 b7 rest h = rw (eight_value-sum b0 b1 b2 b3 b4 b5 b6 b7 h)

-- `Uint64` and `PutUint64` of package binary.
pub be_uint64-put_uint64 : (v : ℕ) → v < 2 ^ 64 → be_uint64 (put_uint64 v) ≡ v
be_uint64-put_uint64 v h = omega arith
