-- ===== src/Cancel/RoundTrip.antt =====
-- `DecodeCancel` on what `Encode` wrote, alone and with bytes behind it.
use aire_go.Base.{
  ◌==◌, if◌then◌else◌, length, length-append, drop-append, message, ok, err, ℕ, ◌≤◌, ◌≡◌, ◌∙◌, [],
  ◌∷◌, ◌++◌, append_assoc, append-nil, arith,
}
use aire_go.Cancel.{Cancel, encode_cancel, decode_cancel, decode_cancel_fields}
use aire_go.Varint.{Bytes, max_varint}
use aire_go.Strings.RoundTrip.{string_bytes, append_string-bytes, read_string-bytes}
use aire_go.Varint.RoundTrip.{read_varint-encoding}
use aire_go.Varint.Encode.{encoding, append_varint-encoding, length-encoding}

abbrev cancel_bytes : Cancel → Bytes
cancel_bytes c = encoding c.reason ++ string_bytes c.detail

module _ (c : Cancel) (hr : c.reason ≤ max_varint) (hd : length c.detail ≤ max_varint) where
  encode_cancel-bytes : encode_cancel c ≡ ok (cancel_bytes c)
  unfolding encode_cancel
  encode_cancel-bytes =
      rw (append_varint-encoding [] c.reason hr, append_string-bytes _ c.detail hd)

  decode_cancel-bytes :
      (more : Bytes)
      → decode_cancel_fields (cancel_bytes c ++ more) ≡ (
          if length more == 0
          then ok c
          else err (message "aire: CANCEL: trailing bytes after Detail"))
  unfolding decode_cancel_fields
  decode_cancel-bytes more =
      let bytes = cancel_bytes c ++ more in
      let e0 = append_assoc (encoding c.reason) (string_bytes c.detail) more in
      let r1 = read_varint-encoding c.reason (string_bytes c.detail ++ more) hr in
      let r2 = read_string-bytes c.detail more hd in
      rw (e0, r1, drop-append, r2)
        (ground (
          arith,
          length-append (encoding c.reason) (string_bytes c.detail ++ more),
          length-append (string_bytes c.detail) more,
        ))

  decode_cancel-fields :
      (more : Bytes)
      → decode_cancel (cancel_bytes c ++ more) ≡ decode_cancel_fields (cancel_bytes c ++ more)
  unfolding decode_cancel
  decode_cancel-fields more = ground (
    arith,
    length-append (cancel_bytes c) more,
    length-append (encoding c.reason) (string_bytes c.detail),
    length-encoding c.reason,
  )

-- For a reason up to `MaxVarint` and a detail no longer than that, `Encode` succeeds and
-- `DecodeCancel` returns the same reason and detail; with any further bytes behind the encoding
-- `DecodeCancel` refuses the payload.
pub decode_cancel-encode_cancel :
    (c : Cancel)
    → c.reason ≤ max_varint
    → length c.detail ≤ max_varint
    → (bytes : Bytes) × (encode_cancel c ≡ ok bytes)
      × (decode_cancel bytes ≡ ok c)
      × ((x : ℕ) (more : Bytes)
          → decode_cancel (bytes ++ x ∷ more)
            ≡ err (message "aire: CANCEL: trailing bytes after Detail"))
decode_cancel-encode_cancel c hr hd = (
  cancel_bytes c,
  encode_cancel-bytes c hr hd,
  rw append-nil at (decode_cancel-fields c hr hd [] ∙ decode_cancel-bytes c hr hd []),
  λ x more.
      decode_cancel-fields c hr hd (x ∷ more)
      ∙ decode_cancel-bytes c hr hd (x ∷ more)
      ∙ ground arith,
)
