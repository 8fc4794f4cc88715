-- ===== src/Invoke/RoundTrip.antt =====
-- `decodeInvokePayload` on what `encodeInvokePayload` wrote.
use aire_go.Base.{length, drop, drop-append, ok, ◌≤◌, ◌≡◌, refl, ap, [], ◌++◌, append_assoc}
use aire_go.Varint.{Bytes, max_varint}
use aire_go.Strings.RoundTrip.{string_bytes, read_string-bytes, append_string-bytes, read_string_at}
use aire_go.Invoke.{encode_invoke_payload, decode_invoke_payload}

module _ (agent_id op_name args : Bytes) (ha : length agent_id ≤ max_varint)
    (ho : length op_name ≤ max_varint) where
  abbrev invoke_bytes : Bytes
  invoke_bytes = string_bytes agent_id ++ (string_bytes op_name ++ args)

  encode_invoke_payload-bytes : encode_invoke_payload agent_id op_name args ≡ ok invoke_bytes
  unfolding encode_invoke_payload
  encode_invoke_payload-bytes =
      rw (append_string-bytes [] agent_id ha, append_string-bytes _ op_name ho)
        (ap ok (simp append_assoc))

  decode_invoke_payload-bytes : decode_invoke_payload invoke_bytes ≡ ok (agent_id, op_name, args)
  unfolding decode_invoke_payload
  decode_invoke_payload-bytes =
      let a = string_bytes agent_id in
      let tail = string_bytes op_name ++ args in
      let r1 = read_string-bytes agent_id tail ha in
      let e1 : drop (length a) invoke_bytes ≡ tail = drop-append a tail in
      let (r2, e2) = read_string_at (length a) invoke_bytes op_name args ho e1 in
      rw (r1, r2, e2) refl

-- For an agent's identifier and an operation's name no longer than a varint can say, and any
-- arguments: `encodeInvokePayload` succeeds and `decodeInvokePayload` returns the three parts.
pub decode_invoke_payload-encode_invoke_payload :
    (agent_id op_name args : Bytes)
    → length agent_id ≤ max_varint
    → length op_name ≤ max_varint
    → (payload : Bytes) × (encode_invoke_payload agent_id op_name args ≡ ok payload)
      × (decode_invoke_payload payload ≡ ok (agent_id, op_name, args))
decode_invoke_payload-encode_invoke_payload agent_id op_name args ha ho = (
  invoke_bytes agent_id op_name args ha ho,
  encode_invoke_payload-bytes agent_id op_name args ha ho,
  decode_invoke_payload-bytes agent_id op_name args ha ho,
)
