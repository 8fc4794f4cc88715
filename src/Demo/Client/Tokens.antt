-- ===== src/Demo/Client/Tokens.antt =====
-- The client of cmd/aire-demo against `streamAgent` on the node that it invokes.
use aire_go.Base.{
  Error, ok, ◌==◌, Bool-cases, Option-cases, ==_iff, ℕ, zero, suc, ◌+◌, ◌≤◌, ◌<◌, ◌≡◌, refl, sym,
  ap, ◌∙◌, subst, inl, inr, Option, none, some, List, [], ◌∷◌, ◌++◌, map, take, arith,
}
use aire_go.Base.Text.{codes}
use aire_go.Varint.{Bytes, max_varint, append_varint}
use aire_go.Digits.{to_digits}
use aire_go.Strings.{append_string}
use aire_go.Invoke.{encode_invoke_payload}
use aire_go.Digits.Print.{decimal, in_base}
use aire_go.Stream.Sequence.{IsSendable}
use aire_go.Handshake.{HandshakeState}
use aire_go.Conn.{QuicStream, Conn, close_stream, close_conn}
use aire_go.Operation.{Operation, close, invoke, accept_operation}
use aire_go.Operation.Frames.{stamp, with_inbox, recv_all}
use aire_go.Node.{Invoke, Agents, agent_of, handle_operation}
use aire_go.Node.Invocation.{
  invoke_frame, client_operation, server_operation, invoke-bytes, accept_operation-bytes,
  handle_operation-bytes,
}
use aire_go.Demo.{as_agent, token, stream_agent}
use aire_go.Demo.Streaming.{tokens, Ends, NoError, Receives, stream_agent-tokens}
use aire_go.Demo.Client.{
  n_tokens, cancel_after, recv_payloads, stream_client, recv_payloads-recv_all,
}

-- The tokens that were written when a write failed for the first time, if one does.
NoError-more :
    (write_errors : ℕ → Option Error) (m : ℕ)
    → NoError write_errors 1 m
    → write_errors (m + 1) ≡ none
    → NoError write_errors 1 (m + 1)
NoError-more write_errors m fine e k l h = elim (Bool-cases (k == m + 1)) [
  | inl t ↦ rw ((==_iff k (m + 1)).0 t) e
  | inr f ↦ let before : k < 1 + m = ground (arith, f, h) in fine k l before
]

module _ (write_errors : ℕ → Option Error) where
  until_failure :
      (m rounds : ℕ)
      → NoError write_errors 1 m
      → (k : ℕ) × (m ≤ k) × NoError write_errors 1 k × Ends k (m + rounds) write_errors
  until_failure m zero fine = (m, omega arith, fine, inl (omega arith))
  until_failure m (suc rounds) fine = elim (Option-cases (write_errors (m + 1))) [
    | inr (x, e) ↦ (m, omega arith, fine, inr (omega arith, (x, e)))
    | inl e ↦
        let (k, le, fine', ends) =
          until_failure (m + 1) rounds (NoError-more write_errors m fine e) in
        let same : m + 1 + rounds ≡ m + suc rounds = omega arith in
        (k, omega (arith, le), fine', subst (λ n. Ends k n write_errors) same ends)
  ]

-- The payload of the client's INVOKE frame.
abbrev request : Bytes
request = 6 ∷ codes "stream" ++ 6 ∷ codes "tokens" ++ codes "5"

request-encoded :
    encode_invoke_payload (codes "stream") (codes "tokens") (decimal n_tokens) ≡ ok request
unfolding encode_invoke_payload append_string append_varint in_base to_digits
request-encoded = refl

request-IsSendable : (id : ℕ) → id ≤ max_varint → IsSendable (invoke_frame id request)
request-IsSendable id h = record {
  type_byte = omega arith;
  flags_byte = omega arith;
  op_range = h;
  size_range = omega arith;
  content_bytes = omega arith;
}

module _ (agents : Agents) (c s : Conn) (client_state server_state : HandshakeState)
    (qc qs : QuicStream) (write_errors : ℕ → Option Error) (ready : c.state ≡ some client_state)
    (listening : s.state ≡ some server_state) (one_stream : qc.stream_id ≡ qs.stream_id)
    (fresh : qc.outbox ≡ []) (unanswered : qs.outbox ≡ []) (id_fits : qc.stream_id ≤ max_varint)
    (known : agent_of (codes "stream") agents ≡ some (as_agent (stream_agent write_errors)))
    (fine : NoError write_errors 1 cancel_after) where
  -- The client's stream with what the other end has written.
  abbrev with_answers : Bytes → QuicStream
  with_answers b = record qc { inbox = b }

  abbrev client_end : Bytes → Operation
  client_end b =
      client_operation agents c s client_state server_state (with_answers b) qs (codes "stream")
        (codes "tokens") (decimal n_tokens) request (as_agent (stream_agent write_errors)) ready
        listening one_stream fresh (omega arith) (omega arith) request-encoded
        (request-IsSendable qc.stream_id id_fits) known

  abbrev server_end : Operation
  server_end =
      server_operation agents c s client_state server_state qc qs (codes "stream") (codes "tokens")
        (decimal n_tokens) request (as_agent (stream_agent write_errors)) ready listening one_stream
        fresh (omega arith) (omega arith) request-encoded (request-IsSendable qc.stream_id id_fits)
        known

  abbrev given : Invoke
  given = record {
    agent_id = codes "stream";
    operation = codes "tokens";
    args = decimal n_tokens;
    op = with_inbox server_end [];
    peer_node_id = server_state.peer_node_id;
  }

  abbrev answered : Operation
  answered = close (as_agent (stream_agent write_errors) given)

  received :
      (m : ℕ)
      → Receives given.op (close (client_end [])) m n_tokens (stream_agent write_errors given)
      → recv_all m (close (client_end answered.stream.outbox))
        ≡ ok (map (stamp given.op) (tokens 1 m), with_inbox (close (client_end [])) [])
  unfolding close close_stream as_agent
  received m h = h.0

  first_three :
      (m : ℕ)
      → cancel_after ≤ m
      → take cancel_after (map (λ f. f.payload) (map (stamp given.op) (tokens 1 m)))
        ≡ token 1 ∷ token 2 ∷ token 3 ∷ []
  unfolding take
  first_three zero le = absurd (omega (arith, le))
  first_three (suc zero) le = absurd (omega (arith, le))
  first_three (suc (suc zero)) le = absurd (omega (arith, le))
  first_three (suc (suc (suc m))) le = refl

  recv_payloads-answered :
      recv_payloads cancel_after (close (client_end answered.stream.outbox))
      ≡ ok (token 1 ∷ token 2 ∷ token 3 ∷ [])
  unfolding close
  recv_payloads-answered =
      let (m, le, fine', ends) = until_failure write_errors cancel_after 2 fine in
      let heard =
        stream_agent-tokens write_errors given (close (client_end [])) n_tokens m refl (omega arith)
          fine' ends (sym one_stream) (omega (arith, one_stream, id_fits)) unanswered in
      recv_payloads-recv_all cancel_after m (close (client_end answered.stream.outbox))
        (with_inbox (close (client_end [])) []) (map (stamp given.op) (tokens 1 m)) le
        (received m heard)
      ∙ ap (λ (l : List Bytes). ok l) (first_three m le)

  stream_client-answered :
      stream_client c (ok (with_answers answered.stream.outbox)) none
      ≡ (close_conn c, ok (token 1 ∷ token 2 ∷ token 3 ∷ []))
  unfolding stream_client
  stream_client-answered =
      let begun =
        invoke-bytes agents c s client_state server_state (with_answers answered.stream.outbox) qs
          (codes "stream") (codes "tokens") (decimal n_tokens) request
          (as_agent (stream_agent write_errors)) ready listening one_stream fresh (omega arith)
          (omega arith) request-encoded (request-IsSendable qc.stream_id id_fits) known in
      rw (begun, recv_payloads-answered, stream_client) refl

  -- The demo of cmd/aire-demo goes as it is printed: the `Invoke` of its client, `handleOperation` on the stream
  -- that the node accepts for it, with `streamAgent` registered as "stream", and the loop of `Recv` give
  -- the client "token-1", "token-2" and "token-3", behind which it closes the connection; whatever becomes of
  -- the agent's writes behind the third. Both handshakes are completed, the two ends of the stream have one
  -- ID, which a varint holds, nothing was written on it before, and the `Write` of the client and
  -- the first three of the agent do not fail.
  pub stream_client-tokens :
      (client server server' : Operation) × (invoke c
          (ok qc)
          none
          (codes "stream")
          (codes "tokens")
          (decimal n_tokens)
        ≡ ok client)
      × (accept_operation s (ok (record qs { inbox = client.stream.outbox })) ≡ ok server)
      × (handle_operation agents server ≡ ok server')
      × (stream_client c (ok (with_answers server'.stream.outbox)) none
          ≡ (close_conn c, ok (token 1 ∷ token 2 ∷ token 3 ∷ [])))
  stream_client-tokens = (
    client_end qc.inbox,
    server_end,
    answered,
    invoke-bytes agents c s client_state server_state qc qs (codes "stream") (codes "tokens")
        (decimal n_tokens) request (as_agent (stream_agent write_errors)) ready listening one_stream
        fresh (omega arith) (omega arith) request-encoded (request-IsSendable qc.stream_id id_fits)
        known,
    accept_operation-bytes agents c s client_state server_state qc qs (codes "stream")
        (codes "tokens") (decimal n_tokens) request (as_agent (stream_agent write_errors)) ready
        listening one_stream fresh (omega arith) (omega arith) request-encoded
        (request-IsSendable qc.stream_id id_fits) known,
    handle_operation-bytes agents c s client_state server_state qc qs (codes "stream")
        (codes "tokens") (decimal n_tokens) request (as_agent (stream_agent write_errors)) ready
        listening one_stream fresh (omega arith) (omega arith) request-encoded
        (request-IsSendable qc.stream_id id_fits) known,
    stream_client-answered,
  )
