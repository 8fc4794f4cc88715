-- ===== src/Frame/Layout.antt =====
-- What `Encode` writes, and `Decode` on it.
use aire_go.Base.{
  lt→ltb, length, drop, length-append, take-append, frame_too_large, sentinel, ok, err, ◌+◌, ◌≤◌,
  ◌<◌, ◌≡◌, [], ◌∷◌, ◌++◌, append_assoc, arith,
}
use aire_go.Varint.{Bytes, max_varint}
use aire_go.Varint.Encode.{encoding, append_varint-encoding}
use aire_go.Varint.RoundTrip.{read_varint_at}
use aire_go.Frame.{Frame, append_encode, decode, decode_body, max_frame_size}

-- The frame of the specification: type, flags, OpID, payload length, payload.
abbrev pub frame_bytes : Frame → Bytes
frame_bytes f = f.type ∷ f.flags ∷ (encoding f.op_id ++ (encoding (length f.payload) ++ f.payload))

pub append_encode-bytes :
    (f : Frame) (dst : Bytes)
    → f.op_id ≤ max_varint
    → length f.payload ≤ max_varint
    → append_encode f dst ≡ ok (dst ++ frame_bytes f)
unfolding append_encode
append_encode-bytes f dst ho hp = ground (
  arith,
  append_varint-encoding (dst ++ f.type ∷ f.flags ∷ []) f.op_id ho,
  append_varint-encoding ((dst ++ f.type ∷ f.flags ∷ []) ++ encoding f.op_id) (length f.payload) hp,
  append_assoc dst (f.type ∷ f.flags ∷ []) (encoding f.op_id),
  append_assoc dst (f.type ∷ f.flags ∷ encoding f.op_id) (encoding (length f.payload)),
  append_assoc dst (f.type ∷ f.flags ∷ (encoding f.op_id ++ encoding (length f.payload))) f.payload,
  append_assoc (encoding f.op_id) (encoding (length f.payload)) f.payload,
)

-- The cursors of `Decode` on a frame's bytes: behind each number stands the rest of the frame.
module _ (f : Frame) (rest : Bytes) where
  abbrev frame_tail : Bytes
  frame_tail = encoding f.op_id ++ (encoding (length f.payload) ++ f.payload)

  abbrev framed : Bytes
  framed = f.type ∷ f.flags ∷ (frame_tail ++ rest)

  at_op_id :
      drop 2 framed ≡ encoding f.op_id ++ (encoding (length f.payload) ++ (f.payload ++ rest))
  at_op_id = unfold drop in simp append_assoc

  length-framed :
      length framed
      ≡ 2
        + length (encoding f.op_id)
        + length (encoding (length f.payload))
        + length f.payload
        + length rest
  length-framed = omega (
    arith,
    length-append frame_tail rest,
    length-append (encoding f.op_id) (encoding (length f.payload) ++ f.payload),
    length-append (encoding (length f.payload)) f.payload,
  )

-- Decoding a frame's bytes, with anything behind them.
pub decode-bytes :
    (f : Frame) (rest : Bytes)
    → f.op_id ≤ max_varint
    → length f.payload ≤ max_frame_size
    → decode (frame_bytes f ++ rest) ≡ ok (f, length (frame_bytes f))
unfolding decode decode_body
decode-bytes f rest ho hp =
    let (r1, d1) = read_varint_at 2 (framed f rest) f.op_id _ ho (at_op_id f rest) in
    let (r2, d2) = read_varint_at _ (framed f rest) (length f.payload) _ (omega arith) d1 in
    rw (r1, r2, d2)
      (ground (
        arith,
        length-framed f rest,
        length-append (frame_tail f rest) rest,
        take-append f.payload rest,
      ))

pub decode-bytes_too_large :
    (f : Frame) (rest : Bytes)
    → f.op_id ≤ max_varint
    → max_frame_size < length f.payload
    → length f.payload ≤ max_varint
    → decode (frame_bytes f ++ rest) ≡ err (sentinel frame_too_large)
unfolding decode decode_body
decode-bytes_too_large f rest ho big hp =
    let (r1, d1) = read_varint_at 2 (framed f rest) f.op_id _ ho (at_op_id f rest) in
    let (r2, d2) = read_varint_at _ (framed f rest) (length f.payload) _ hp d1 in
    rw (r1, r2, lt→ltb _ _ big)
