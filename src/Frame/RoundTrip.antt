-- ===== src/Frame/RoundTrip.antt =====
-- `Decode` on what `Encode` wrote, whole, cut off, or too large.
use aire_go.Base.{
  length, length-append, short_buffer, frame_too_large, sentinel, ok, err, ℕ, ◌≤◌, ◌<◌, ◌≡◌, ap,
  inl, inr, [], ◌∷◌, ◌++◌, append-nil, arith,
}
use aire_go.Varint.{Bytes, max_varint}
use aire_go.Frame.{Frame, encode, decode, max_frame_size}
use aire_go.Frame.Layout.{frame_bytes, append_encode-bytes, decode-bytes, decode-bytes_too_large}
use aire_go.Frame.Decode.{decode-cases}
use aire_go.Frame.Bounds.{decode-Decoded, decode-append, decode-append_too_large}

-- For a frame whose OpID is at most `MaxVarint` and whose payload is at most `MaxFrameSize` long,
-- `Encode` succeeds, and `Decode` on its bytes with anything behind them returns the frame and
-- the number of bytes that `Encode` wrote.
pub decode-encode :
    (f : Frame) (rest : Bytes)
    → f.op_id ≤ max_varint
    → length f.payload ≤ max_frame_size
    → (bytes : Bytes) × (encode f ≡ ok bytes) × (decode (bytes ++ rest) ≡ ok (f, length bytes))
unfolding encode
decode-encode f rest ho hp =
    (frame_bytes f, append_encode-bytes f [] ho (omega arith), decode-bytes f rest ho hp)

-- `Encode` does not enforce `MaxFrameSize`: for a payload that is longer, and not longer than
-- `MaxVarint`, it succeeds, and `Decode` on its bytes answers `ErrFrameTooLarge`.
pub decode-encode_too_large :
    (f : Frame) (rest : Bytes)
    → f.op_id ≤ max_varint
    → max_frame_size < length f.payload
    → length f.payload ≤ max_varint
    → (bytes : Bytes) × (encode f ≡ ok bytes)
      × (decode (bytes ++ rest) ≡ err (sentinel frame_too_large))
unfolding encode
decode-encode_too_large f rest ho big hp =
    (frame_bytes f, append_encode-bytes f [] ho hp, decode-bytes_too_large f rest ho big hp)

-- `Decode` answers `ErrShortBuffer` on every proper prefix of what `Encode` wrote for a frame
-- that fits.
pub decode_truncated :
    (f : Frame) (x : ℕ) (front back : Bytes)
    → f.op_id ≤ max_varint
    → length f.payload ≤ max_frame_size
    → encode f ≡ ok (front ++ x ∷ back)
    → decode front ≡ err (sentinel short_buffer)
unfolding encode
decode_truncated f x front back ho hp e =
    let whole : frame_bytes f ≡ front ++ x ∷ back =
      cc (e, append_encode-bytes f [] ho (omega arith)) in
    let back_again : decode (front ++ x ∷ back) ≡ ok (f, length (frame_bytes f)) =
      rw (append-nil, whole) at (decode-bytes f [] ho hp) in
    elim (decode-cases front) [
      | inl (g, n, r) ↦ ground (
        arith,
        back_again,
        ap length whole,
        decode-append front (x ∷ back) g n r,
        (decode-Decoded front r).within,
        length-append front (x ∷ back),
      )
      | inr (inl r) ↦ r
      | inr (inr r) ↦ cc (back_again, decode-append_too_large front (x ∷ back) r)
    ]
