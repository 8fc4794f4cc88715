-- ===== src/Node/Invocation.antt =====
-- A client's `Invoke` and the node that answers it.
use aire_go.Base.{length, ok, ℕ, ◌≤◌, ◌≡◌, refl, ap, Option, none, some, [], append-nil}
use aire_go.Operation.{
  recv, send, close, invoke, Operation, peer_node_id_of, open_stream, accept_stream, new_operation,
  accept_operation,
}
use aire_go.Varint.{Bytes, max_varint}
use aire_go.Frame.{Frame, frame_invoke}
use aire_go.Invoke.{encode_invoke_payload, decode_invoke_payload}
use aire_go.Conn.{QuicStream, Conn, send_on}
use aire_go.Node.{Agent, Agents, agent_of, dispatch, handle_operation}
use aire_go.Handshake.{HandshakeState}
use aire_go.Operation.Frames.{with_inbox, recv-ok_iff}
use aire_go.Stream.Sequence.{IsSendable, read_frame-bytes, send_frame-bytes}
use aire_go.Frame.Layout.{frame_bytes}
use aire_go.Invoke.RoundTrip.{decode_invoke_payload-encode_invoke_payload}

abbrev pub invoke_frame : ℕ → Bytes → Frame
invoke_frame op_id payload = record {
  type = frame_invoke;
  flags = 0;
  op_id = op_id;
  payload = payload;
}

held_state :
    {A : Type 0} (state : Option HandshakeState) (held : HandshakeState)
    → state ≡ some held
    → (x y : A) → elim state [ none ↦ x | some _ ↦ y ] ≡ y
held_state state held h x y = rw h refl

module _ (agents : Agents) (c s : Conn) (client_state server_state : HandshakeState)
    (qc qs : QuicStream) (agent_id op_name args payload : Bytes) (agent : Agent)
    (ready : c.state ≡ some client_state) (listening : s.state ≡ some server_state)
    (one_stream : qc.stream_id ≡ qs.stream_id) (fresh : qc.outbox ≡ [])
    (id_fits : length agent_id ≤ max_varint) (name_fits : length op_name ≤ max_varint)
    (encoded : encode_invoke_payload agent_id op_name args ≡ ok payload)
    (fits : IsSendable (invoke_frame qc.stream_id payload))
    (known : agent_of agent_id agents ≡ some agent) where
  abbrev pub client_operation : Operation
  client_operation = record {
    op_id = qc.stream_id;
    stream = record qc { outbox = frame_bytes (invoke_frame qc.stream_id payload) };
    conn = some c;
  }

  abbrev pub server_operation : Operation
  server_operation = record {
    op_id = qs.stream_id;
    stream = record qs { inbox = frame_bytes (invoke_frame qc.stream_id payload) };
    conn = some s;
  }

  pub invoke-bytes : invoke c (ok qc) none agent_id op_name args ≡ ok client_operation
  unfolding invoke new_operation open_stream send send_on
  invoke-bytes =
      let begun : new_operation c (ok qc)
          ≡ ok (record { op_id = qc.stream_id; stream = qc; conn = some c }) =
        held_state c.state client_state ready _ _ in
      rw
        (
          begun,
          encoded,
          invoke,
          send_frame-bytes (invoke_frame qc.stream_id payload) qc.outbox fits,
          fresh,
        )
        refl

  pub accept_operation-bytes :
      accept_operation s (ok (record qs { inbox = client_operation.stream.outbox }))
      ≡ ok server_operation
  unfolding accept_operation accept_stream
  accept_operation-bytes = held_state s.state server_state listening _ _

  recv-invoke :
      recv server_operation ≡ ok (invoke_frame qc.stream_id payload, with_inbox server_operation [])
  recv-invoke =
      (recv-ok_iff server_operation (with_inbox server_operation [])
          (invoke_frame qc.stream_id payload)).1
        (
          [],
          rw append-nil at (read_frame-bytes (invoke_frame qc.stream_id payload) [] fits tt),
          one_stream,
          refl,
        )

  payload_decoded : decode_invoke_payload payload ≡ ok (agent_id, op_name, args)
  payload_decoded =
      let (payload', e, d) =
        decode_invoke_payload-encode_invoke_payload agent_id op_name args id_fits name_fits in
      let same : payload' ≡ payload = cc (e, encoded) in rw same at d

  server_peer : peer_node_id_of (with_inbox server_operation []) ≡ server_state.peer_node_id
  unfolding peer_node_id_of
  server_peer =
      ap (λ (o : Option HandshakeState). elim o [ none ↦ [] | some state ↦ state.peer_node_id ])
        listening

  pub handle_operation-bytes :
      handle_operation agents server_operation
      ≡ ok (
          close (
            agent (record {
              agent_id = agent_id;
              operation = op_name;
              args = args;
              op = with_inbox server_operation [];
              peer_node_id = server_state.peer_node_id;
            })))
  unfolding handle_operation dispatch
  handle_operation-bytes =
      rw (recv-invoke, payload_decoded, known, handle_operation, dispatch, server_peer) refl

  -- An invocation arrives as it was made: `Invoke` on a client's connection and `handleOperation` on the
  -- stream that the node accepts for it run the agent of that ID, once, on exactly the agent ID, the
  -- operation's name and the arguments that the client gave, with the NodeID of the client that the
  -- node's handshake established, and close the operation. Both handshakes are completed, the two
  -- ends of the stream have one ID, nothing was written before and no `Write` fails, the
  -- INVOKE frame fits, and the agent is registered.
  pub handle_operation-invoke :
      (client : Operation) × (server : Operation) × (invoke c (ok qc) none agent_id op_name args
        ≡ ok client)
      × (accept_operation s (ok (record qs { inbox = client.stream.outbox })) ≡ ok server)
      × (handle_operation agents server
          ≡ ok (
              close (
                agent (record {
                  agent_id = agent_id;
                  operation = op_name;
                  args = args;
                  op = with_inbox server [];
                  peer_node_id = server_state.peer_node_id;
                }))))
  handle_operation-invoke = (
    client_operation, server_operation, invoke-bytes, accept_operation-bytes,
    handle_operation-bytes,
  )
