-- ===== src/Stream/Sequence.antt =====
-- Frames sent on a stream, and what the peer receives.
use aire_go.Base.{
  length, drop-append, drop-all, All, All-append, Result, ◌>>=◌, eof, sentinel, ok, err, ℕ, zero,
  suc, ◌≤◌, ◌<◌, ◌≡◌, refl, sym, ap, ◌∙◌, subst, ◌≢◌, List, [], ◌∷◌, ◌++◌, append_assoc, append-nil,
  arith,
}
use aire_go.Varint.{Bytes, IsByte, max_varint}
use aire_go.Frame.{Frame, encode, max_frame_size}
use aire_go.Stream.{read_frame, send_frame, read_full, read_varint_from}
use aire_go.Stream.Varints.{Follows}
use aire_go.Stream.Frames.{
  read_frame-Follows, varint_ok, read_payload_eof, read_frame-body, body_payload_err,
}
use aire_go.Frame.Layout.{frame_bytes, append_encode-bytes, decode-bytes}
use aire_go.Varint.Encode.{encoding, encoding-IsByte}
use aire_go.Varint.RoundTrip.{read_varint-encoding}

-- The frames that the receiver accepts, with every field in its machine range.
pub record IsSendable (f : Frame) : Type 0 where
  pub type_byte : IsByte f.type
  pub flags_byte : IsByte f.flags
  pub op_range : f.op_id ≤ max_varint
  pub size_range : length f.payload ≤ max_frame_size
  pub content_bytes : All IsByte f.payload

pub frame_bytes-IsByte : {f : Frame} → IsSendable f → All IsByte (frame_bytes f)
frame_bytes-IsByte {f} s =
    let size = length f.payload in
    let body =
      All-append IsByte (encoding size) f.payload
        (encoding-IsByte size (omega (arith, s.size_range))) s.content_bytes in
    (
      s.type_byte,
      (
        s.flags_byte,
        All-append IsByte (encoding f.op_id) _ (encoding-IsByte f.op_id s.op_range) body,
      ),
    )

-- `SendFrame` for each frame in turn.
pub send_frames : List Frame → Bytes → Result Bytes
send_frames [] stream = ok stream
send_frames (f ∷ fs) stream = do stream' ← send_frame f stream; send_frames fs stream'

-- `RecvFrame`, `n` times.
pub recv_frames : ℕ → Bytes → Result (List Frame × Bytes)
recv_frames zero stream = ok ([], stream)
recv_frames (suc n) stream = do
  (f, stream') ← read_frame stream
  (fs, stream'') ← recv_frames n stream'
  ok (f ∷ fs, stream'')

abbrev pub all_bytes : List Frame → Bytes
all_bytes [] = []
all_bytes (f ∷ fs) = frame_bytes f ++ all_bytes fs

pub all_bytes-IsByte : (fs : List Frame) → All IsSendable fs → All IsByte (all_bytes fs)
all_bytes-IsByte [] h = tt
all_bytes-IsByte (f ∷ fs) (h, hs) =
    All-append IsByte (frame_bytes f) _ (frame_bytes-IsByte h) (all_bytes-IsByte fs hs)

pub send_frame-bytes :
    (f : Frame) (stream : Bytes) → IsSendable f → send_frame f stream ≡ ok (stream ++ frame_bytes f)
unfolding send_frame encode
send_frame-bytes f stream s = rw (append_encode-bytes f [] s.op_range (omega (arith, s.size_range)))

send_frames-bytes :
    (fs : List Frame) (stream : Bytes)
    → All IsSendable fs
    → send_frames fs stream ≡ ok (stream ++ all_bytes fs)
unfolding send_frames
send_frames-bytes [] stream h = rw append-nil
send_frames-bytes (f ∷ fs) stream (h, hs) = rw (send_frame-bytes f stream h) (
    send_frames-bytes fs (stream ++ frame_bytes f) hs
    ∙ ap ok (append_assoc stream (frame_bytes f) (all_bytes fs)))

pub read_frame-bytes :
    (f : Frame) (rest : Bytes)
    → IsSendable f
    → All IsByte rest
    → read_frame (frame_bytes f ++ rest) ≡ ok (f, rest)
read_frame-bytes f rest s h =
    let bytes = frame_bytes f ++ rest in
    let all = All-append IsByte (frame_bytes f) rest (frame_bytes-IsByte s) h in
    subst (λ r. Follows bytes r (read_frame bytes)) (decode-bytes f rest s.op_range s.size_range)
      (read_frame-Follows bytes all)
    ∙ ap (λ (r : Bytes). ok (f, r)) (drop-append (frame_bytes f) rest)

recv_frames-bytes :
    (fs : List Frame) → All IsSendable fs → recv_frames (length fs) (all_bytes fs) ≡ ok (fs, [])
unfolding recv_frames
recv_frames-bytes [] h = refl
recv_frames-bytes (f ∷ fs) (h, hs) =
    rw (read_frame-bytes f (all_bytes fs) h (all_bytes-IsByte fs hs), recv_frames-bytes fs hs)

-- For frames whose fields are in their machine ranges, whose OpIDs are at most `MaxVarint` and
-- whose payloads are at most `MaxFrameSize` long: sending them in turn on a fresh stream succeeds,
-- the peer receives the same frames in the same order with nothing left over, and `RecvFrame`
-- after the last answers `io.EOF`.
pub recv_frames-send_frames :
    (fs : List Frame)
    → All IsSendable fs
    → (stream : Bytes) × (send_frames fs [] ≡ ok stream)
      × (recv_frames (length fs) stream ≡ ok (fs, []))
      × (read_frame [] ≡ err (sentinel eof))
recv_frames-send_frames fs h = (
  all_bytes fs,
  send_frames-bytes fs [] h,
  recv_frames-bytes fs h,
  unfold read_frame read_full in refl,
)

positive : (bs : Bytes) → bs ≢ [] → 0 < length bs
positive [] h = absurd (h refl)
positive (b ∷ bs) h = omega arith

-- A frame with a payload, cut off exactly before the payload, is reported as `io.EOF`: a stream
-- that ends there inside a frame looks as if it had ended between two frames.
pub read_frame_eof_inside :
    (f : Frame)
    → IsSendable f
    → f.payload ≢ []
    → (front : Bytes) × (encode f ≡ ok (front ++ f.payload))
      × (read_frame front ≡ err (sentinel eof))
unfolding encode
read_frame_eof_inside f s ne =
    let e1 = encoding f.op_id in
    let e2 = encoding (length f.payload) in
    let front : Bytes = f.type ∷ f.flags ∷ (e1 ++ e2) in
    let small : length f.payload ≤ max_varint = omega (arith, s.size_range) in
    let h2 = encoding-IsByte (length f.payload) small in
    let h1 = All-append IsByte e1 e2 (encoding-IsByte f.op_id s.op_range) h2 in
    let s1 = varint_ok (e1 ++ e2) h1 (read_varint-encoding f.op_id e2 s.op_range) in
    let s2 =
      varint_ok e2 h2 (rw append-nil at (read_varint-encoding (length f.payload) [] small)) in
    let r2 : read_varint_from e2 ≡ ok (length f.payload, []) = rw drop-all at s2 in
    (
      front,
      append_encode-bytes f [] s.op_range small
          ∙ ap (λ (b : Bytes). ok (f.type ∷ f.flags ∷ b)) (sym (append_assoc e1 e2 f.payload)),
      read_frame-body f.type f.flags (e1 ++ e2)
          ∙ body_payload_err f.type f.flags (e1 ++ e2) f.op_id e2 (rw drop-append at s1)
              (length f.payload) [] r2 s.size_range
              (read_payload_eof (length f.payload) (positive f.payload ne)),
    )
