-- ===== src/Signature/RoundTrip.antt =====
-- `DecodeSignatureBlock` on what `Encode` wrote.
use aire_go.Varint.Values.{be_uint64-put_uint64}
use aire_go.Base.{
  ge→ltb, length, take, drop, length-append, length-drop, take-append, drop_past, ok, ℕ, ◌+◌, ◌-◌,
  ◌≤◌, ◌≡◌, refl, ap, subst, [], ◌∷◌, ◌++◌, append_assoc, arith,
}
use aire_go.Base.Int.{IsI64, to_u64, of_u64, of_u64-to_u64, to_u64-lt}
use aire_go.Varint.{Bytes, max_varint, put_uint64, be_uint64}
use aire_go.Varint.Encode.{encoding, append_varint-encoding}
use aire_go.Varint.RoundTrip.{read_varint_at}
use aire_go.Strings.RoundTrip.{string_bytes, append_string-bytes, read_string_at}
use aire_go.Signature.{
  SignatureBlock, meta_bytes, encode_block, decode_signature, decode_fixed, decode_block,
  domain_separator, signed_message_bytes,
}

pub record IsBlock (sb : SignatureBlock) : Type 0 where
  pub vmid_fits : length sb.vmid ≤ max_varint
  pub nonce_length : length sb.nonce ≡ 16
  pub timestamp_fits : IsI64 sb.timestamp_ms
  pub signature_fits : length sb.signature ≤ max_varint

module _ (sb : SignatureBlock) (h : IsBlock sb) where
  abbrev pub stamp : Bytes
  stamp = put_uint64 (to_u64 sb.timestamp_ms)

  abbrev pub covered_bytes : Bytes
  covered_bytes = sb.algorithm ∷ (string_bytes sb.vmid ++ (sb.nonce ++ stamp))

  pub meta_bytes-covered_bytes : meta_bytes sb ≡ ok covered_bytes
  unfolding meta_bytes
  meta_bytes-covered_bytes =
      rw (append_string-bytes (sb.algorithm ∷ []) sb.vmid h.vmid_fits) (ap ok (simp append_assoc))

  pub signed_message_bytes-covered_bytes :
      (ft : ℕ) (inner : Bytes)
      → signed_message_bytes ft inner sb
        ≡ ok (((domain_separator ++ ft ∷ []) ++ inner) ++ covered_bytes)
  unfolding signed_message_bytes
  signed_message_bytes-covered_bytes ft inner = rw meta_bytes-covered_bytes refl

  abbrev pub block_bytes : Bytes
  block_bytes = covered_bytes ++ (encoding (length sb.signature) ++ sb.signature)

  pub encode_block-bytes : encode_block sb ≡ ok block_bytes
  unfolding encode_block
  encode_block-bytes =
      rw (meta_bytes-covered_bytes, append_varint-encoding _ (length sb.signature) h.signature_fits)
        (ap ok (simp append_assoc))

  module _ (payload rest : Bytes) where
    decode_signature-bytes :
        (at : ℕ)
        → drop at payload ≡ encoding (length sb.signature) ++ (sb.signature ++ rest)
        → decode_signature payload at sb.algorithm sb.vmid sb.nonce sb.timestamp_ms
          ≡ ok (sb, at + length (encoding (length sb.signature)) + length sb.signature)
    unfolding decode_signature
    decode_signature-bytes at e =
        let sig = sb.signature in
        let (r, e1) = read_varint_at at payload (length sig) (sig ++ rest) h.signature_fits e in
        let k = at + length (encoding (length sig)) in
        let room : length sig ≤ length payload - k =
          omega (arith, length-drop k payload, ap length e1, length-append sig rest) in
        rw (r, ge→ltb _ _ room, e1, take-append) refl

    stamp-value : of_u64 (be_uint64 stamp) ≡ sb.timestamp_ms
    stamp-value =
        rw (be_uint64-put_uint64 (to_u64 sb.timestamp_ms) (to_u64-lt sb.timestamp_ms))
          (of_u64-to_u64 sb.timestamp_ms h.timestamp_fits)

    decode_fixed-bytes :
        (at : ℕ)
        → drop at payload
          ≡ sb.nonce ++ (stamp ++ (encoding (length sb.signature) ++ (sb.signature ++ rest)))
        → decode_fixed payload at sb.algorithm sb.vmid
          ≡ ok (sb, at + 16 + 8 + length (encoding (length sb.signature)) + length sb.signature)
    unfolding decode_fixed
    decode_fixed-bytes at e =
        let tail = encoding (length sb.signature) ++ (sb.signature ++ rest) in
        let e1 : drop (at + 16) payload ≡ stamp ++ tail =
          subst (λ n. drop (at + n) payload ≡ stamp ++ tail) h.nonce_length
            (drop_past at payload sb.nonce (stamp ++ tail) e) in
        let e2 : drop (at + 16 + 8) payload ≡ tail = drop_past (at + 16) payload stamp tail e1 in
        let t1 : take 16 (drop at payload) ≡ sb.nonce = rw e (
          subst (λ n. take n (sb.nonce ++ (stamp ++ tail)) ≡ sb.nonce) h.nonce_length
            (take-append sb.nonce (stamp ++ tail))) in
        let t2 : take 8 (drop (at + 16) payload) ≡ stamp = rw e1 (take-append stamp tail) in
        let room1 : 16 ≤ length payload - at = omega (
          arith,
          length-drop at payload,
          ap length e,
          length-append sb.nonce (stamp ++ tail),
          h.nonce_length,
        ) in
        let room2 : 8 ≤ length payload - (at + 16) =
          omega (arith, length-drop (at + 16) payload, ap length e1, length-append stamp tail) in
        rw (ge→ltb _ _ room1, ge→ltb _ _ room2, t1, t2, stamp-value)
          (decode_signature-bytes (at + 16 + 8) e2)

  pub decode_block-bytes :
      (rest : Bytes) → decode_block (block_bytes ++ rest) ≡ ok (sb, length block_bytes)
  unfolding decode_block
  decode_block-bytes rest =
      let payload = block_bytes ++ rest in
      let s = string_bytes sb.vmid in
      let len = encoding (length sb.signature) in
      let tail = sb.nonce ++ (stamp ++ (len ++ (sb.signature ++ rest))) in
      let e : drop 1 payload ≡ s ++ tail = unfold drop in simp append_assoc in
      let (r, e1) = read_string_at 1 payload sb.vmid tail h.vmid_fits e in
      let d = decode_fixed-bytes payload rest (1 + length s) e1 in
      rw (r, d)
        (ground (
          arith,
          length-append covered_bytes (len ++ sb.signature),
          length-append len sb.signature,
          length-append s (sb.nonce ++ stamp),
          length-append sb.nonce stamp,
          h.nonce_length,
        ))

-- For a block whose VMID and signature are no longer than a varint can say, whose nonce has 16
-- bytes and whose timestamp is an int64: `Encode` succeeds, its bytes are the covered bytes and
-- behind them the signature with its length, and `DecodeSignatureBlock` on them with anything
-- behind returns the block and the number of bytes that `Encode` wrote.
pub decode_block-encode_block :
    (sb : SignatureBlock) (rest : Bytes)
    → IsBlock sb
    → (meta : Bytes) × (bytes : Bytes) × (meta_bytes sb ≡ ok meta)
      × (encode_block sb ≡ ok bytes)
      × (bytes ≡ meta ++ string_bytes sb.signature)
      × (decode_block (bytes ++ rest) ≡ ok (sb, length bytes))
decode_block-encode_block sb rest h = (
  covered_bytes sb h,
  block_bytes sb h,
  meta_bytes-covered_bytes sb h,
  encode_block-bytes sb h,
  refl,
  decode_block-bytes sb h rest,
)
