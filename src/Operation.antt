-- ===== src/Operation.antt =====
-- operation.go: an operation is one stream, and all its frames carry its OpID. `Conn.Invoke` of node.go
-- begins one.
pub mod Frames
use aire_go.Base.{
  ◌==◌, if◌then◌else◌, Error, Result, ◌>>=◌, map_err, protocol_violation, sentinel, message, wrapf,
  ok, err, ℕ, not, Option, none, some, [],
}
use aire_go.Varint.{Bytes}
use aire_go.Invoke.{encode_invoke_payload}
use aire_go.Conn.{QuicStream, Conn, send_on, recv_on, close_stream}
use aire_go.Frame.{frame_invoke, Frame}

-- `conn` may be nil.
pub record Operation : Type 0 where
  pub op_id : ℕ
  pub stream : QuicStream
  pub conn : Option Conn

-- `PeerNodeID`
unfoldable pub peer_node_id_of : Operation → Bytes
peer_node_id_of op = elim op.conn [
  | none ↦ []
  | some c ↦ elim c.state [ none ↦ [] | some state ↦ state.peer_node_id ]
]

-- `OpenStream` and `AcceptStream`, behind the call of quic-go.
unfoldable pub open_stream : Result QuicStream → Result QuicStream
open_stream opened = map_err (wrapf "aire: OpenStream") opened

unfoldable pub accept_stream : Result QuicStream → Result QuicStream
accept_stream accepted = map_err (wrapf "aire: AcceptStream") accepted

unfoldable pub new_operation : Conn → Result QuicStream → Result Operation
new_operation c opened = elim c.state [
  | none ↦ err (message "aire: NewOperation: handshake not completed")
  | some _ ↦ do
    stream ← open_stream opened
    ok (record { op_id = stream.stream_id; stream = stream; conn = some c })
]

unfoldable pub accept_operation : Conn → Result QuicStream → Result Operation
accept_operation c accepted = elim c.state [
  | none ↦ err (message "aire: AcceptOperation: handshake not completed")
  | some _ ↦ do
    stream ← accept_stream accepted
    ok (record { op_id = stream.stream_id; stream = stream; conn = some c })
]

-- `Send`; `write_error` is the error that `Write` of QUIC ends in, if any.
unfoldable pub send : Option Error → Operation → Frame → Result Operation
send write_error op f = do
  stream ← send_on write_error (record f { op_id = op.op_id }) op.stream
  ok (record op { stream = stream })

-- `Recv`
unfoldable pub recv : Operation → Result (Frame × Operation)
recv op = do
  (f, stream) ← recv_on op.stream
  if not (f.op_id == op.op_id)
      then err (wrapf "frame OpID, operation OpID" (sentinel protocol_violation))
      else ok (f, record op { stream = stream })

unfoldable pub close : Operation → Operation
close op = record op { stream = close_stream op.stream }

-- `Conn.Invoke`; an operation that could not be sent on is closed and dropped.
unfoldable pub invoke :
    Conn → Result QuicStream → Option Error → Bytes → Bytes → Bytes → Result Operation
invoke c opened write_error agent_id op_name args = do
  op ← new_operation c opened
  payload ← encode_invoke_payload agent_id op_name args
  send write_error op (record { type = frame_invoke; flags = 0; op_id = 0; payload = payload })
