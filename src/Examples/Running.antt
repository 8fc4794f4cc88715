-- ===== src/Examples/Running.antt =====
-- operation.go and node.go at concrete inputs.
use aire_go.Base.{
  take, drop, ok, err, panic, ◌≡◌, refl, ◌⊎◌, Bool, true, false, none, some, List, [], ◌∷◌, map,
  arith,
}
use aire_go.Base.Text.{codes, bytes_eq}
use aire_go.Varint.{Bytes, append_varint, read_varint}
use aire_go.Operation.{send, recv, close, invoke, Operation, accept_operation}
use aire_go.Examples.Nodes.{all_byte_sound, value_of}
use aire_go.Invoke.{encode_invoke_payload, decode_invoke_payload}
use aire_go.Conn.{QuicStream, Conn, recv_on}
use aire_go.Node.{Agent, Agents, agent_of, handle_operation, dispatch}
use aire_go.Frame.{frame_stream, Frame, append_encode, encode}
use aire_go.Handshake.{HandshakeState}
use aire_go.Stream.{read_full, read_frame, read_varint_from, send_frame}
use aire_go.Strings.{append_string, read_string}
use aire_go.Operation.Frames.{stamp, with_inbox, send_all, recv_all, recv_all-send_all}
use aire_go.Node.Invocation.{handle_operation-invoke, invoke_frame}
use aire_go.Node.Dispatch.{IsDispatched, IsClosed, handle_operation_sound, invocation}

abbrev pub state_with : Bytes → HandshakeState
state_with peer = record { peer_node_id = peer; negotiated_minor = 2; active_capabilities = [] }

abbrev pub conn_with : Bool → Bytes → Conn
conn_with side peer = record {
  is_client = side;
  ctrl = none;
  state = some (state_with peer);
  closed = false;
}

abbrev pub quiet_stream : QuicStream
quiet_stream = record { stream_id = 4; inbox = []; outbox = []; finished = false }

abbrev pub client_end : Operation
client_end = record {
  op_id = 4;
  stream = quiet_stream;
  conn = some (conn_with true (codes "did:key:zB"));
}

abbrev pub server_end : Operation
server_end = record {
  op_id = 4;
  stream = quiet_stream;
  conn = some (conn_with false (codes "did:key:zA"));
}

abbrev two_frames : List Frame
two_frames =
    record { type = frame_stream; flags = 0; op_id = 0; payload = codes "hi" }
    ∷ record { type = frame_stream; flags = 1; op_id = 9; payload = [] }
    ∷ []

recv_all-send_all_example :
    (p : Operation) × (send_all client_end two_frames ≡ ok p)
    × (recv_all 2 (with_inbox server_end p.stream.outbox)
        ≡ ok (map (stamp client_end) two_frames, with_inbox server_end []))
recv_all-send_all_example = recv_all-send_all client_end server_end two_frames refl refl (
  record {
    type_byte = omega arith;
    flags_byte = omega arith;
    op_range = omega arith;
    size_range = omega arith;
    content_bytes = all_byte_sound (codes "hi") refl;
  },
  (
    record {
      type_byte = omega arith;
      flags_byte = omega arith;
      op_range = omega arith;
      size_range = omega arith;
      content_bytes = tt;
    },
    tt,
  ),
)

-- An agent that sends the arguments back.
abbrev echo : Agent
echo inv =
    elim (send none inv.op
      (record { type = frame_stream; flags = 0; op_id = 0; payload = inv.args })) [
        | ok op ↦ op
        | err _ ↦ inv.op
        | panic ↦ inv.op
      ]

abbrev echo_node : Agents
echo_node = (codes "echo", echo) ∷ []

abbrev echo_payload : Bytes
echo_payload = value_of (encode_invoke_payload (codes "echo") (codes "say") (codes "hi"))

handle_operation-invoke_example :
    (client : Operation) × (server : Operation) × (invoke
        (conn_with true (codes "did:key:zB"))
        (ok quiet_stream)
        none
        (codes "echo")
        (codes "say")
        (codes "hi")
      ≡ ok client)
    × (accept_operation
          (conn_with false (codes "did:key:zA"))
          (ok (record quiet_stream { inbox = client.stream.outbox }))
        ≡ ok server)
    × (handle_operation echo_node server
        ≡ ok (
            close (
              echo (record {
                agent_id = codes "echo";
                operation = codes "say";
                args = codes "hi";
                op = with_inbox server [];
                peer_node_id = codes "did:key:zA";
              }))))
unfolding encode_invoke_payload append_string append_varint agent_of bytes_eq
handle_operation-invoke_example =
    handle_operation-invoke echo_node (conn_with true (codes "did:key:zB"))
      (conn_with false (codes "did:key:zA")) (state_with (codes "did:key:zB"))
      (state_with (codes "did:key:zA")) quiet_stream quiet_stream (codes "echo") (codes "say")
      (codes "hi") echo_payload echo refl refl refl refl (omega arith) (omega arith) refl
      (record {
        type_byte = omega arith;
        flags_byte = omega arith;
        op_range = omega arith;
        size_range = omega arith;
        content_bytes = all_byte_sound echo_payload refl;
      })
      refl

abbrev invoked : Operation
invoked = with_inbox server_end (value_of (send_frame (invoke_frame 4 echo_payload) []))

abbrev answered : Operation
answered = close (echo (invocation server_end (codes "echo", codes "say", codes "hi")))

invoked-answered : handle_operation echo_node invoked ≡ ok answered
unfolding handle_operation recv recv_on read_frame read_full read_varint_from send_frame encode
    append_encode append_varint encode_invoke_payload append_string take drop dispatch
    decode_invoke_payload read_string read_varint agent_of bytes_eq
invoked-answered = refl

handle_operation_sound_example : IsDispatched echo_node invoked answered ⊎ IsClosed invoked answered
handle_operation_sound_example = handle_operation_sound echo_node invoked answered invoked-answered
