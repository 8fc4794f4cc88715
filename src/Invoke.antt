-- ===== src/Invoke.antt =====
-- The INVOKE payload of node.go: `encodeInvokePayload` and `decodeInvokePayload`.
pub mod RoundTrip
use aire_go.Base.{drop, Result, ◌>>=◌, map_err, wrapf, ok, ◌+◌, [], ◌++◌}
use aire_go.Varint.{Bytes}
use aire_go.Strings.{append_string, read_string}

unfoldable pub encode_invoke_payload : Bytes → Bytes → Bytes → Result Bytes
encode_invoke_payload agent_id op_name args = do
  buf1 ← append_string [] agent_id
  buf2 ← append_string buf1 op_name
  ok (buf2 ++ args)

unfoldable pub decode_invoke_payload : Bytes → Result (Bytes × Bytes × Bytes)
decode_invoke_payload payload = do
  (agent_id, n) ← map_err (wrapf "aire: INVOKE: agent-id") (read_string payload)
  (op_name, m) ← map_err (wrapf "aire: INVOKE: operation") (read_string (drop n payload))
  ok (agent_id, op_name, drop (n + m) payload)
