-- ===== src/Frame.antt =====
-- `Frame`, `Encode`, `AppendEncode` and `Decode` of frame.go.
pub mod Layout
pub mod Decode
pub mod Bounds
pub mod RoundTrip
use aire_go.Base.{
  ltb, if◌then◌else◌, length, take, drop, Result, ◌>>=◌, short_buffer, frame_too_large, sentinel,
  ok, err, ℕ, ◌+◌, ◌-◌, ◌^◌, [], ◌∷◌, ◌++◌,
}
use aire_go.Varint.{Bytes, append_varint, read_varint}

-- The values of `FrameType`.
abbrev pub frame_hello : ℕ
frame_hello = 0x01

abbrev pub frame_invoke : ℕ
frame_invoke = 0x03

abbrev pub frame_stream : ℕ
frame_stream = 0x04

abbrev pub frame_cancel : ℕ
frame_cancel = 0x05

abbrev pub frame_budget : ℕ
frame_budget = 0x06

abbrev pub max_frame_size : ℕ
max_frame_size = 2 ^ 20

-- A nil `Payload` and an empty one are the same list.
pub record Frame : Type 0 where
  pub type : ℕ
  pub flags : ℕ
  pub op_id : ℕ
  pub payload : Bytes

unfoldable pub append_encode : Frame → Bytes → Result Bytes
append_encode f dst = do
  dst1 ← append_varint (dst ++ f.type ∷ f.flags ∷ []) f.op_id
  dst2 ← append_varint dst1 (length f.payload)
  ok (dst2 ++ f.payload)

unfoldable pub encode : Frame → Result Bytes
unfolding append_encode
encode f = append_encode f []

-- The body of `Decode` behind the test of the length, for a slice that begins with `type` and
-- `flags`. The second part of the result is the number of bytes read.
pub decode_body : ℕ → ℕ → Bytes → Result (Frame × ℕ)
decode_body type flags bytes = do
  (op_id, n) ← read_varint (drop 2 bytes)
  (plen, m) ← read_varint (drop (2 + n) bytes)
  let pos = 2 + n + m
  if ltb max_frame_size plen
      then err (sentinel frame_too_large)
      else if ltb (length bytes - pos) plen
      then err (sentinel short_buffer)
      else ok (
        record { type = type; flags = flags; op_id = op_id; payload = take plen (drop pos bytes) },
        pos + plen,
      )

unfoldable pub decode : Bytes → Result (Frame × ℕ)
unfolding decode_body
decode (type ∷ flags ∷ rest) = decode_body type flags (type ∷ flags ∷ rest)
decode _ = err (sentinel short_buffer)
