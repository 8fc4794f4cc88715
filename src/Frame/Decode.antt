-- ===== src/Frame/Decode.antt =====
-- `Decode` on any bytes, and on a frame that is cut off or too large.
use aire_go.Base.{
  length, take, drop, length-drop, length-take, Result, short_buffer, frame_too_large, sentinel, ok,
  err, ℕ, ◌+◌, ◌-◌, ◌≤◌, ◌<◌, ◌≡◌, refl, ◌⊎◌, inl, inr, [], ◌∷◌, arith, dec_lt,
}
use aire_go.Varint.{Bytes, read_varint}
use aire_go.Varint.Decode.{read_varint_takes, read_varint-Reads}
use aire_go.Frame.{Frame, decode_body, max_frame_size, decode}

-- What a successful `Decode` has read, number by number.
pub record Decoded (bytes : Bytes) (f : Frame) (n : ℕ) : Type 0 where
  pub header : take 2 bytes ≡ f.type ∷ f.flags ∷ []
  pub op_len : ℕ
  pub size_len : ℕ
  pub op_read : read_varint (drop 2 bytes) ≡ ok (f.op_id, op_len)
  pub size_read : read_varint (drop (2 + op_len) bytes) ≡ ok (length f.payload, size_len)
  pub small : length f.payload ≤ max_frame_size
  pub total : n ≡ 2 + op_len + size_len + length f.payload
  pub within : n ≤ length bytes
  pub content : f.payload ≡ take (length f.payload) (drop (2 + op_len + size_len) bytes)

pub decode_body-ok :
    (t fl : ℕ) (bytes : Bytes) (op k plen m : ℕ)
    → read_varint (drop 2 bytes) ≡ ok (op, k)
    → read_varint (drop (2 + k) bytes) ≡ ok (plen, m)
    → plen ≤ max_frame_size
    → plen ≤ length bytes - (2 + k + m)
    → decode_body t fl bytes
      ≡ ok (
        record { type = t; flags = fl; op_id = op; payload = take plen (drop (2 + k + m) bytes) },
        2 + k + m + plen,
      )
unfolding decode_body
decode_body-ok t fl bytes op k plen m r r2 h fits = ground (arith, r, r2)

pub decode_body_short :
    (t fl : ℕ) (bytes : Bytes) (op k plen m : ℕ)
    → read_varint (drop 2 bytes) ≡ ok (op, k)
    → read_varint (drop (2 + k) bytes) ≡ ok (plen, m)
    → plen ≤ max_frame_size
    → length bytes - (2 + k + m) < plen
    → decode_body t fl bytes ≡ err (sentinel short_buffer)
unfolding decode_body
decode_body_short t fl bytes op k plen m r r2 h lack = ground (arith, r, r2)

pub decode_body_too_large :
    (t fl : ℕ) (bytes : Bytes) (op k plen m : ℕ)
    → read_varint (drop 2 bytes) ≡ ok (op, k)
    → read_varint (drop (2 + k) bytes) ≡ ok (plen, m)
    → max_frame_size < plen
    → decode_body t fl bytes ≡ err (sentinel frame_too_large)
unfolding decode_body
decode_body_too_large t fl bytes op k plen m r r2 h = ground (arith, r, r2)

pub decode_body_no_op :
    (t fl : ℕ) (bytes : Bytes)
    → read_varint (drop 2 bytes) ≡ err (sentinel short_buffer)
    → decode_body t fl bytes ≡ err (sentinel short_buffer)
unfolding decode_body
decode_body_no_op t fl bytes r = rw r

pub decode_body_no_size :
    (t fl : ℕ) (bytes : Bytes) (op k : ℕ)
    → read_varint (drop 2 bytes) ≡ ok (op, k)
    → read_varint (drop (2 + k) bytes) ≡ err (sentinel short_buffer)
    → decode_body t fl bytes ≡ err (sentinel short_buffer)
unfolding decode_body
decode_body_no_size t fl bytes op k r r2 = rw (r, r2)

-- The three ways in which `Decode` can end.
pub data Outcome (bytes : Bytes) : Result (Frame × ℕ) → Type 0 where
  decoded : (f : Frame) (n : ℕ) → Decoded bytes f n → Outcome bytes (ok (f, n))
  short : Outcome bytes (err (sentinel short_buffer))
  too_large :
      (op k plen m : ℕ)
      → read_varint (drop 2 bytes) ≡ ok (op, k)
      → read_varint (drop (2 + k) bytes) ≡ ok (plen, m)
      → max_frame_size < plen
      → Outcome bytes (err (sentinel frame_too_large))

decode_tests-Decoded :
    (t fl : ℕ) (rest : Bytes) (op k plen m : ℕ)
    → let bytes = t ∷ fl ∷ rest in
      read_varint (drop 2 bytes) ≡ ok (op, k)
      → read_varint (drop (2 + k) bytes) ≡ ok (plen, m)
      → plen ≤ max_frame_size
      → plen ≤ length bytes - (2 + k + m)
      → Decoded bytes
          (record {
            type = t;
            flags = fl;
            op_id = op;
            payload = take plen (drop (2 + k + m) bytes);
          })
          (2 + k + m + plen)
decode_tests-Decoded t fl rest op k plen m r r2 small fits =
    let bytes = t ∷ fl ∷ rest in
    let b1 = read_varint_takes _ op k r in
    let b2 = read_varint_takes _ plen m r2 in
    let l1 = length-drop 2 bytes in
    let l2 = length-drop (2 + k) bytes in
    let l3 = length-drop (2 + k + m) bytes in
    let l4 = length-take plen (drop (2 + k + m) bytes) in
    let size : length (take plen (drop (2 + k + m) bytes)) ≡ plen = omega arith in
    record {
      header = unfold take in refl;
      op_len = k;
      size_len = m;
      op_read = r;
      size_read = rw size r2;
      small = omega arith;
      total = omega arith;
      within = omega arith;
      content = rw size refl;
    }

-- `Decode` on any bytes: a frame that stands in them, or one of two errors.
pub decode-Outcome : (bytes : Bytes) → Outcome bytes (decode bytes)
unfolding decode
decode-Outcome [] = short
decode-Outcome (t ∷ []) = short
decode-Outcome (t ∷ fl ∷ rest) =
    let bytes = t ∷ fl ∷ rest in
    elim (read_varint-Reads (drop 2 bytes)) [
      | inr r ↦ rw (decode_body_no_op t fl bytes r) short
      | inl ((op, k), r) ↦ elim (read_varint-Reads (drop (2 + k) bytes)) [
        | inr r2 ↦ rw (decode_body_no_size t fl bytes op k r r2) short
        | inl ((plen, m), r2) ↦ elim (dec_lt max_frame_size plen) [
          | yes big ↦
              rw (decode_body_too_large t fl bytes op k plen m r r2 big)
                (too_large op k plen m r r2 big)
          | no small ↦ elim (dec_lt (length bytes - (2 + k + m)) plen) [
            | yes lack ↦ rw (decode_body_short t fl bytes op k plen m r r2 (omega arith) lack) short
            | no fits ↦
                rw (decode_body-ok t fl bytes op k plen m r r2 (omega arith) (omega arith)) (
                  decoded _ _
                    (decode_tests-Decoded t fl rest op k plen m r r2 (omega arith) (omega arith)))
          ]
        ]
      ]
    ]

Outcome-cases :
    {bytes : Bytes} {r : Result (Frame × ℕ)}
    → Outcome bytes r
    → ((f : Frame) × (n : ℕ) × (r ≡ ok (f, n)))
      ⊎ ((r ≡ err (sentinel short_buffer)) ⊎ (r ≡ err (sentinel frame_too_large)))
Outcome-cases (decoded f n d) = inl (f, n, refl)
Outcome-cases short = inr (inl refl)
Outcome-cases (too_large op k plen m r r2 h) = inr (inr refl)

pub decode-cases :
    (bytes : Bytes)
    → ((f : Frame) × (n : ℕ) × (decode bytes ≡ ok (f, n)))
      ⊎ ((decode bytes ≡ err (sentinel short_buffer))
          ⊎ (decode bytes ≡ err (sentinel frame_too_large)))
decode-cases bytes = Outcome-cases (decode-Outcome bytes)
