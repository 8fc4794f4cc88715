-- ===== src/Varint/RoundTrip.antt =====
-- `ReadVarint` on what `AppendVarint` wrote.
use aire_go.Base.{
  All, length, drop, length-append, drop_past, short_buffer, sentinel, ok, err, low_six, ℕ, ◌+◌,
  ◌/◌, ◌%◌, ◌^◌, ◌≤◌, ◌≡◌, inl, inr, [], ◌∷◌, ◌++◌, append-nil, arith,
}
use aire_go.Varint.{Bytes, IsByte, max_varint, append_varint, read_varint}
use aire_go.Varint.Values.{read_two-value, read_four-value, read_eight-value}
use aire_go.Varint.Encode.{encoding, append_varint-encoding, length-encoding, encoding-IsByte}
use aire_go.Varint.Decode.{read_varint-append, read_varint_takes, read_varint-Reads}

pub read_varint-encoding :
    (v : ℕ) (rest : Bytes)
    → v ≤ max_varint
    → read_varint (encoding v ++ rest) ≡ ok (v, length (encoding v))
unfolding read_varint encoding
read_varint-encoding v rest h = ground (
  arith,
  low_six v,
  read_two-value (v / 2 ^ 8 + 64) (v % 256) rest,
  read_four-value (v / 2 ^ 24 + 128) (v / 2 ^ 16 % 256) (v / 2 ^ 8 % 256) (v % 256) rest,
  read_eight-value (v / 2 ^ 56 + 192) (v / 2 ^ 48 % 256) (v / 2 ^ 40 % 256) (v / 2 ^ 32 % 256)
      (v / 2 ^ 24 % 256) (v / 2 ^ 16 % 256) (v / 2 ^ 8 % 256) (v % 256) rest,
)

-- The same at a cursor, which then stands behind the number.
pub read_varint_at :
    (pos : ℕ) (bs : Bytes) (v : ℕ) (rest : Bytes)
    → v ≤ max_varint
    → drop pos bs ≡ encoding v ++ rest
    → (read_varint (drop pos bs) ≡ ok (v, length (encoding v)))
      × (drop (pos + length (encoding v)) bs ≡ rest)
read_varint_at pos bs v rest h e =
    (rw e (read_varint-encoding v rest h), drop_past pos bs (encoding v) rest e)

-- For a value up to `MaxVarint`, `AppendVarint` appends one to eight bytes, all of them byte
-- values, and `ReadVarint` reads the value back from those bytes whatever follows them, and
-- reports how many it took.
pub read_varint-append_varint :
    (dst rest : Bytes) (v : ℕ)
    → v ≤ max_varint
    → (enc : Bytes) × (append_varint dst v ≡ ok (dst ++ enc))
      × (1 ≤ length enc)
      × (length enc ≤ 8)
      × All IsByte enc
      × (read_varint (enc ++ rest) ≡ ok (v, length enc))
read_varint-append_varint dst rest v h = (
  encoding v,
  append_varint-encoding dst v h,
  (length-encoding v).0,
  (length-encoding v).1,
  encoding-IsByte v h,
  read_varint-encoding v rest h,
)

-- `ReadVarint` answers `ErrShortBuffer` on every proper prefix of what `AppendVarint` wrote.
pub read_varint_truncated :
    (v x : ℕ) (front back : Bytes)
    → v ≤ max_varint
    → append_varint [] v ≡ ok (front ++ x ∷ back)
    → read_varint front ≡ err (sentinel short_buffer)
read_varint_truncated v x front back h e = elim (read_varint-Reads front) [
  | inr r ↦ r
  | inl ((u, n), r) ↦ ground (
    arith,
    append_varint-encoding [] v h,
    read_varint-encoding v [] h,
    append-nil (encoding v),
    read_varint-append front (x ∷ back) r,
    read_varint_takes front u n r,
    length-append front (x ∷ back),
  )
]
