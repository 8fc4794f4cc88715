-- ===== src/Frame/Bounds.antt =====
-- `Decode` reads no further than the frame, and tells a cut frame from a frame that is too large.
use aire_go.Base.{
  length, take, drop, length-append, length-drop, drop-append_le, take-append_le, All, All-take,
  All-drop, frame_too_large, sentinel, ok, err, ℕ, ◌+◌, ◌-◌, ◌≤◌, ◌<◌, ◌≡◌, sym, ap, ◌∙◌, subst, [],
  ◌∷◌, ◌++◌, arith,
}
use aire_go.Varint.{Bytes, IsByte, max_varint, read_varint}
use aire_go.Varint.Decode.{read_varint-append, read_varint_takes, read_varint_bound}
use aire_go.Frame.{Frame, decode, max_frame_size}
use aire_go.Frame.Decode.{
  Outcome, Decoded, decode-Outcome, decoded, too_large, decode_body-ok, decode_body_too_large,
}

Outcome-ok : {bytes : Bytes} {f : Frame} {n : ℕ} → Outcome bytes (ok (f, n)) → Decoded bytes f n
Outcome-ok (decoded f n d) = d

pub decode-Decoded :
    (bytes : Bytes) {f : Frame} {n : ℕ} → decode bytes ≡ ok (f, n) → Decoded bytes f n
decode-Decoded bytes e = Outcome-ok (subst (Outcome bytes) e (decode-Outcome bytes))

-- When `Decode` succeeds on bytes, it has taken at least four of them and no more than there are,
-- the payload is no longer than `MaxFrameSize`, and every field is in its machine range.
pub decode_takes :
    (bytes : Bytes) (f : Frame) (n : ℕ)
    → All IsByte bytes
    → decode bytes ≡ ok (f, n)
    → (4 ≤ n)
      × (n ≤ length bytes)
      × (length f.payload ≤ max_frame_size)
      × (f.op_id ≤ max_varint)
      × All IsByte (f.type ∷ f.flags ∷ f.payload)
decode_takes bytes f n h e =
    let d = decode-Decoded bytes e in
    let b1 = read_varint_takes _ _ _ d.op_read in
    let b2 = read_varint_takes _ _ _ d.size_read in
    let head = subst (All IsByte) d.header (All-take IsByte 2 bytes h) in
    let tail =
      All-take IsByte (length f.payload) _ (All-drop IsByte (2 + d.op_len + d.size_len) bytes h) in
    (
      omega (arith, d.total),
      d.within,
      d.small,
      read_varint_bound _ _ _ (All-drop IsByte 2 bytes h) d.op_read,
      (head.0, (head.1.0, subst (All IsByte) (sym d.content) tail)),
    )

read-append :
    (k : ℕ) (bytes more : Bytes) {v n : ℕ}
    → read_varint (drop k bytes) ≡ ok (v, n)
    → k ≤ length bytes
    → read_varint (drop k (bytes ++ more)) ≡ ok (v, n)
read-append k bytes more e h = rw (drop-append_le k bytes more h) (read_varint-append _ more e)

-- Bytes behind a frame do not change what `Decode` makes of it.
pub decode-append :
    (bytes more : Bytes) (f : Frame) (n : ℕ)
    → decode bytes ≡ ok (f, n)
    → decode (bytes ++ more) ≡ ok (f, n)
unfolding decode
decode-append [] more f n e = cc
decode-append (t ∷ []) more f n e = cc
decode-append (t ∷ fl ∷ rest) more f n e =
    let bytes = t ∷ fl ∷ rest in
    let d = decode-Decoded bytes e in
    let pos = 2 + d.op_len + d.size_len in
    let size = length f.payload in
    let r1 = read-append 2 bytes more d.op_read (omega arith) in
    let r2 = read-append (2 + d.op_len) bytes more d.size_read (omega (arith, d.total, d.within)) in
    let inside : size ≤ length (drop pos bytes) =
      omega (arith, d.total, d.within, length-drop pos bytes) in
    let room : size ≤ length (bytes ++ more) - pos =
      omega (arith, d.total, d.within, length-append bytes more) in
    let eq =
      decode_body-ok t fl (bytes ++ more) f.op_id d.op_len size d.size_len r1 r2 d.small room in
    let pay : take size (drop pos (bytes ++ more)) ≡ f.payload =
      ap (take size) (drop-append_le pos bytes more (omega (arith, d.total, d.within)))
      ∙ take-append_le size (drop pos bytes) more inside
      ∙ sym d.content in
    let head : t ∷ fl ∷ [] ≡ f.type ∷ f.flags ∷ [] = unfold take in d.header in
    ground (arith, eq, pay, head, d.total)

-- The two numbers of a frame that is refused for its size.
abbrev TooLarge : Bytes → Type 0
TooLarge bytes =
    (op k plen m : ℕ) × (read_varint (drop 2 bytes) ≡ ok (op, k))
    × (read_varint (drop (2 + k) bytes) ≡ ok (plen, m))
    × (max_frame_size < plen)

Outcome-TooLarge : {bytes : Bytes} → Outcome bytes (err (sentinel frame_too_large)) → TooLarge bytes
Outcome-TooLarge (too_large op k plen m r r2 h) = (op, k, plen, m, r, r2, h)

pub decode-append_too_large :
    (bytes more : Bytes)
    → decode bytes ≡ err (sentinel frame_too_large)
    → decode (bytes ++ more) ≡ err (sentinel frame_too_large)
unfolding decode
decode-append_too_large [] more e = cc
decode-append_too_large (t ∷ []) more e = cc
decode-append_too_large (t ∷ fl ∷ rest) more e =
    let bytes = t ∷ fl ∷ rest in
    let (op, k, plen, m, r, r2, h) =
      Outcome-TooLarge (subst (Outcome bytes) e (decode-Outcome bytes)) in
    let b = read_varint_takes _ _ _ r in
    let l = length-drop 2 bytes in
    decode_body_too_large t fl (bytes ++ more) op k plen m
      (read-append 2 bytes more r (omega arith)) (read-append (2 + k) bytes more r2 (omega arith)) h
