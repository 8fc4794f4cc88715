-- ===== src/Stream/Frames.antt =====
-- `readFrame` against `Decode`, and frames through a stream.
use aire_go.Base.{
  lt→ltb, ge→ltb, length, take, drop, length-drop, drop-drop, All, All-drop, Error, Result,
  short_buffer, frame_too_large, eof, sentinel, ok, err, ℕ, zero, suc, ◌+◌, ◌-◌, ◌≤◌, ◌<◌, ◌≡◌,
  refl, sym, ap, ◌∙◌, subst, inl, inr, [], ◌∷◌, arith, dec_lt,
}
use aire_go.Varint.{Bytes, read_varint, IsByte}
use aire_go.Frame.{max_frame_size, Frame, decode_body, decode}
use aire_go.Stream.{
  read_payload, read_frame_body, read_header, read_frame, read_varint_from, read_full,
}
use aire_go.Stream.Varints.{
  IsCut, Follows, read_full-ok, read_full-IsCut, IsCut->>=, read_varint_from-Follows,
}
use aire_go.Frame.Decode.{
  decode_body-ok, decode_body_short, decode_body_too_large, decode_body_no_op, decode_body_no_size,
}
use aire_go.Varint.Decode.{read_varint-Reads}

pub varint_ok :
    (bytes : Bytes) {v n : ℕ}
    → All IsByte bytes
    → read_varint bytes ≡ ok (v, n)
    → read_varint_from bytes ≡ ok (v, drop n bytes)
varint_ok bytes h e =
    subst (λ r. Follows bytes r (read_varint_from bytes)) e (read_varint_from-Follows bytes h)

varint-IsCut :
    (bytes : Bytes)
    → All IsByte bytes
    → read_varint bytes ≡ err (sentinel short_buffer)
    → IsCut (read_varint_from bytes)
varint-IsCut bytes h e =
    elim (subst (λ r. Follows bytes r (read_varint_from bytes)) e
      (read_varint_from-Follows bytes h)) [ inl (s, cut) ↦ cut | inr (s, big) ↦ cc ]

read_payload-ok :
    (plen : ℕ) (r : Bytes) → plen ≤ length r → read_payload plen r ≡ ok (take plen r, drop plen r)
unfolding read_payload take drop
read_payload-ok zero r h = refl
read_payload-ok (suc n) r h = rw (lt→ltb 0 (suc n) (omega arith)) (read_full-ok (suc n) r h)

read_payload-IsCut : (plen : ℕ) (r : Bytes) → length r < plen → IsCut (read_payload plen r)
unfolding read_payload
read_payload-IsCut plen r h = rw (lt→ltb 0 plen (omega arith)) (read_full-IsCut plen r h)

-- No byte is left of a payload that has one at least.
pub read_payload_eof : (plen : ℕ) → 0 < plen → read_payload plen [] ≡ err (sentinel eof)
unfolding read_payload read_full
read_payload_eof plen h = rw (lt→ltb 0 plen h)

module _ (t fl : ℕ) (r : Bytes) where
  pub read_frame-body : read_frame (t ∷ fl ∷ r) ≡ read_frame_body t fl r
  unfolding read_frame read_header take drop
  read_frame-body = rw (read_full-ok 2 (t ∷ fl ∷ r) (omega arith))

  body-IsCut_op : IsCut (read_varint_from r) → IsCut (read_frame_body t fl r)
  unfolding read_frame_body
  body-IsCut_op c = IsCut->>= (read_varint_from r) _ c

  module _ (op : ℕ) (r1 : Bytes) (e1 : read_varint_from r ≡ ok (op, r1)) where
    body-IsCut_size : IsCut (read_varint_from r1) → IsCut (read_frame_body t fl r)
    unfolding read_frame_body
    body-IsCut_size c = rw e1 (IsCut->>= (read_varint_from r1) _ c)

    module _ (plen : ℕ) (r2 : Bytes) (e2 : read_varint_from r1 ≡ ok (plen, r2)) where
      body_too_large :
          max_frame_size < plen → read_frame_body t fl r ≡ err (sentinel frame_too_large)
      unfolding read_frame_body
      body_too_large h = rw (e1, e2, lt→ltb _ _ h)

      body-IsCut_payload : plen ≤ max_frame_size → length r2 < plen → IsCut (read_frame_body t fl r)
      unfolding read_frame_body
      body-IsCut_payload h lack =
          rw (e1, e2, ge→ltb _ _ h)
            (IsCut->>= (read_payload plen r2) _ (read_payload-IsCut plen r2 lack))

      pub body_payload_err :
          plen ≤ max_frame_size
          → {e : Error} → read_payload plen r2 ≡ err e
          → read_frame_body t fl r ≡ err e
      unfolding read_frame_body
      body_payload_err h p = rw (e1, e2, ge→ltb _ _ h, p)

      body_ok :
          plen ≤ max_frame_size
          → plen ≤ length r2
          → read_frame_body t fl r
            ≡ ok (record { type = t; flags = fl; op_id = op; payload = take plen r2 }, drop plen r2)
      unfolding read_frame_body
      body_ok h fits = rw (e1, e2, ge→ltb _ _ h, read_payload-ok plen r2 fits)

-- From the errors of the reader and the equation for `Decode`, what `Follows` asks.
follow_cut :
    (bytes : Bytes) {r : Result (Frame × ℕ)} {s : Result (Frame × Bytes)}
    → r ≡ err (sentinel short_buffer)
    → IsCut s
    → Follows bytes r s
follow_cut bytes e c = rw e (inl (refl, c))

module _ (t fl : ℕ) (r : Bytes) (h : All IsByte r) where
  rest-drop : drop 2 (t ∷ fl ∷ r) ≡ r
  unfolding drop
  rest-drop = refl

  payload-Follows :
      (op k plen m : ℕ)
      → read_varint (drop 2 (t ∷ fl ∷ r)) ≡ ok (op, k)
      → read_varint (drop (2 + k) (t ∷ fl ∷ r)) ≡ ok (plen, m)
      → (r1 r2 : Bytes) → read_varint_from r ≡ ok (op, r1)
      → read_varint_from r1 ≡ ok (plen, r2)
      → drop (2 + k + m) (t ∷ fl ∷ r) ≡ r2
      → Follows (t ∷ fl ∷ r) (decode_body t fl (t ∷ fl ∷ r)) (read_frame_body t fl r)
  payload-Follows op k plen m d1 d2 r1 r2 s1 s2 p =
      let bytes = t ∷ fl ∷ r in
      let len : length r2 ≡ length bytes - (2 + k + m) =
        ap length (sym p) ∙ length-drop (2 + k + m) bytes in
      let past : drop (2 + k + m + plen) bytes ≡ drop plen r2 =
        sym (drop-drop plen (2 + k + m) bytes) ∙ ap (drop plen) p in
      elim (dec_lt max_frame_size plen) [
        | yes big ↦
            rw (decode_body_too_large t fl bytes op k plen m d1 d2 big)
              (inr (refl, body_too_large t fl r op r1 s1 plen r2 s2 big))
        | no small ↦ elim (dec_lt (length bytes - (2 + k + m)) plen) [
          | yes lack ↦
              follow_cut bytes (decode_body_short t fl bytes op k plen m d1 d2 (omega arith) lack)
                (body-IsCut_payload t fl r op r1 s1 plen r2 s2 (omega arith) (omega arith))
          | no fits ↦
              rw (decode_body-ok t fl bytes op k plen m d1 d2 (omega arith) (omega arith), p, past)
                (body_ok t fl r op r1 s1 plen r2 s2 (omega arith) (omega arith))
        ]
      ]

  body-Follows : Follows (t ∷ fl ∷ r) (decode_body t fl (t ∷ fl ∷ r)) (read_frame_body t fl r)
  body-Follows =
      let bytes = t ∷ fl ∷ r in
      elim (read_varint-Reads r) [
        | inr e ↦
            follow_cut bytes (decode_body_no_op t fl bytes (rw rest-drop e))
              (body-IsCut_op t fl r (varint-IsCut r h e))
        | inl ((op, k), e) ↦
            let d1 : read_varint (drop 2 bytes) ≡ ok (op, k) = rw rest-drop e in
            let s1 : read_varint_from r ≡ ok (op, drop k r) = varint_ok r h e in
            let r1 = drop k r in
            let h1 : All IsByte r1 = All-drop IsByte k r h in
            let p1 : drop (2 + k) bytes ≡ r1 = sym (drop-drop k 2 bytes) ∙ ap (drop k) rest-drop in
            elim (read_varint-Reads r1) [
              | inr e2 ↦
                  follow_cut bytes (decode_body_no_size t fl bytes op k d1 (rw p1 e2))
                    (body-IsCut_size t fl r op r1 s1 (varint-IsCut r1 h1 e2))
              | inl ((plen, m), e2) ↦
                  let d2 : read_varint (drop (2 + k) bytes) ≡ ok (plen, m) = rw p1 e2 in
                  let r2 = drop m r1 in
                  let s2 : read_varint_from r1 ≡ ok (plen, r2) = varint_ok r1 h1 e2 in
                  let p2 : drop (2 + k + m) bytes ≡ r2 =
                    sym (drop-drop m (2 + k) bytes) ∙ ap (drop m) p1 in
                  payload-Follows op k plen m d1 d2 r1 r2 s1 s2 p2
            ]
      ]

-- `readFrame` on the bytes of a stream agrees with `Decode` on those bytes: it returns the same
-- frame and leaves what stands behind it; it refuses a frame that is too large with the same
-- error; and where `Decode` answers `ErrShortBuffer`, it answers `io.EOF` or
-- `io.ErrUnexpectedEOF`.
pub read_frame-Follows :
    (bytes : Bytes) → All IsByte bytes → Follows bytes (decode bytes) (read_frame bytes)
read_frame-Follows [] h = unfold decode read_frame read_full in inl (refl, inl refl)
read_frame-Follows (t ∷ []) h = unfold decode read_frame read_full in inl (refl, inr refl)
read_frame-Follows (t ∷ fl ∷ r) h =
    rw (read_frame-body t fl r) (unfold decode in body-Follows t fl r h.1.1)
