-- ===== src/Demo/Asking.antt =====
-- What the coordinator hears from an agent of the other node.
use aire_go.Base.{
  length, append-nil, Result, ok, ℕ, ◌≤◌, ◌≡◌, refl, sym, ap, ◌∙◌, none, some, [], ◌∷◌, ◌++◌, arith,
}
use aire_go.Base.Text.{codes}
use aire_go.Varint.{Bytes, max_varint}
use aire_go.Frame.{Frame}
use aire_go.Frame.Layout.{frame_bytes}
use aire_go.Invoke.{encode_invoke_payload}
use aire_go.Stream.Sequence.{IsSendable, read_frame-bytes}
use aire_go.Handshake.{HandshakeState}
use aire_go.Conn.{QuicStream, Conn, close_stream}
use aire_go.Operation.{Operation, recv, close, invoke, accept_operation}
use aire_go.Operation.Frames.{with_inbox, with_outbox, send-bytes, recv-ok_iff}
use aire_go.Node.{Invoke, Agents, agent_of, handle_operation}
use aire_go.Node.Invocation.{
  invoke_frame, client_operation, server_operation, invoke-bytes, accept_operation-bytes,
  handle_operation-bytes,
}
use aire_go.Demo.{AgentFunc, as_agent, stream_frame, send_reply, ask}

abbrev pub answer_frame : ℕ → Bytes → Frame
answer_frame op_id payload = record (stream_frame payload) { op_id = op_id }

send_reply-bytes :
    (op : Operation) (answer : Bytes)
    → IsSendable (answer_frame op.op_id answer)
    → (send_reply none op answer).0
      ≡ with_outbox op (op.stream.outbox ++ frame_bytes (answer_frame op.op_id answer))
unfolding send_reply
send_reply-bytes op answer s = rw (send-bytes op (stream_frame answer) s, send_reply) refl

module _ (agents : Agents) (c s : Conn) (client_state server_state : HandshakeState)
    (qc qs : QuicStream) (agent_id args payload answer : Bytes) (f : AgentFunc)
    (ready : c.state ≡ some client_state) (listening : s.state ≡ some server_state)
    (one_stream : qc.stream_id ≡ qs.stream_id) (fresh : qc.outbox ≡ [])
    (unanswered : qs.outbox ≡ []) (id_fits : length agent_id ≤ max_varint)
    (encoded : encode_invoke_payload agent_id (codes "go") args ≡ ok payload)
    (fits : IsSendable (invoke_frame qc.stream_id payload))
    (known : agent_of agent_id agents ≡ some (as_agent f))
    (answer_fits : IsSendable (answer_frame qs.stream_id answer))
    (answers : (inv : Invoke) → inv.args ≡ args → f inv ≡ send_reply none inv.op answer) where
  abbrev reply_bytes : Bytes
  reply_bytes = frame_bytes (answer_frame qs.stream_id answer)

  -- The client's stream once the answer is on its way.
  abbrev answered_stream : QuicStream
  answered_stream = record qc { inbox = reply_bytes }

  abbrev client_end : Operation
  client_end =
      client_operation agents c s client_state server_state answered_stream qs agent_id (codes "go")
        args payload (as_agent f) ready listening one_stream fresh id_fits (omega arith) encoded
        fits known

  abbrev server_end : Operation
  server_end =
      server_operation agents c s client_state server_state answered_stream qs agent_id (codes "go")
        args payload (as_agent f) ready listening one_stream fresh id_fits (omega arith) encoded
        fits known

  recv-answer :
      recv (close client_end)
      ≡ ok (answer_frame qs.stream_id answer, with_inbox (close client_end) [])
  unfolding close close_stream
  recv-answer =
      (recv-ok_iff (close client_end) (with_inbox (close client_end) [])
          (answer_frame qs.stream_id answer)).1
        (
          [],
          rw append-nil at (read_frame-bytes (answer_frame qs.stream_id answer) [] answer_fits tt),
          sym one_stream,
          refl,
        )

  ask-answered : ask c (ok answered_stream) none agent_id args ≡ ok (agent_id ++ b'=' ∷ answer)
  unfolding ask
  ask-answered =
      let begun =
        invoke-bytes agents c s client_state server_state answered_stream qs agent_id (codes "go")
          args payload (as_agent f) ready listening one_stream fresh id_fits (omega arith) encoded
          fits known in
      rw (begun, recv-answer, ask) refl

  abbrev given : Invoke
  given = record {
    agent_id = agent_id;
    operation = codes "go";
    args = args;
    op = with_inbox server_end [];
    peer_node_id = server_state.peer_node_id;
  }

  answer-bytes : (close (as_agent f given)).stream.outbox ≡ reply_bytes
  unfolding close close_stream as_agent
  answer-bytes =
      ap (λ (r : Operation × Result (Unit {0})). r.0.stream.outbox) (answers given refl)
      ∙ ap (λ (o : Operation). o.stream.outbox)
          (send_reply-bytes (with_inbox server_end []) answer answer_fits)
      ∙ ap (λ (l : Bytes). l ++ reply_bytes) unanswered

  -- An agent of the other node is asked and heard: `Invoke` on the link to that node, `handleOperation` there
  -- on the stream that the node accepts for it, with an agent that answers with one `Send`, and `Recv` of its
  -- answer give the coordinator "agent=answer". Both handshakes are completed, the two ends of the
  -- stream have one ID, nothing was written on it before, no `Write` fails, and both frames fit.
  pub ask-answers :
      (client : Operation) × (server : Operation) × (server' : Operation) × (invoke c
          (ok qc)
          none
          agent_id
          (codes "go")
          args
        ≡ ok client)
      × (accept_operation s (ok (record qs { inbox = client.stream.outbox })) ≡ ok server)
      × (handle_operation agents server ≡ ok server')
      × (ask c (ok (record qc { inbox = server'.stream.outbox })) none agent_id args
          ≡ ok (agent_id ++ b'=' ∷ answer))
  ask-answers = (
    _,
    server_end,
    close (as_agent f given),
    invoke-bytes agents c s client_state server_state qc qs agent_id (codes "go") args payload
        (as_agent f) ready listening one_stream fresh id_fits (omega arith) encoded fits known,
    accept_operation-bytes agents c s client_state server_state qc qs agent_id (codes "go") args
        payload (as_agent f) ready listening one_stream fresh id_fits (omega arith) encoded fits
        known,
    handle_operation-bytes agents c s client_state server_state answered_stream qs agent_id
        (codes "go") args payload (as_agent f) ready listening one_stream fresh id_fits
        (omega arith) encoded fits known,
    ap (λ (b : Bytes). ask c (ok (record qc { inbox = b })) none agent_id args) answer-bytes
        ∙ ask-answered,
  )
