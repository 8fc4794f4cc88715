-- ===== src/Demo/Client.antt =====
-- The client of cmd/aire-demo, from its `Invoke` on.
pub mod Tokens
use aire_go.Base.{
  length, append-nil, Error, Result, ◌>>=◌, Result-cases, ok, err, panic, ◌==◌, Bool-cases,
  Option-cases, ==_iff, ne→==, eq→==, ℕ, zero, suc, ◌+◌, ◌≤◌, ◌<◌, ◌≡◌, refl, sym, ap, ◌∙◌, subst,
  inl, inr, Option, none, some, List, [], ◌∷◌, ◌++◌, map, take, arith, ◌⊎◌,
}
use aire_go.Base.Text.{codes}
use aire_go.Varint.{Bytes, max_varint, append_varint}
use aire_go.Frame.{Frame}
use aire_go.Digits.{to_digits}
use aire_go.Strings.{append_string}
use aire_go.Invoke.{encode_invoke_payload}
use aire_go.Digits.Print.{decimal, in_base}
use aire_go.Stream.Sequence.{IsSendable}
use aire_go.Handshake.{HandshakeState}
use aire_go.Conn.{QuicStream, Conn, close_stream, close_conn}
use aire_go.Operation.{Operation, recv, close, invoke, accept_operation}
use aire_go.Operation.Frames.{stamp, with_inbox, recv_all}
use aire_go.Node.{Invoke, Agents, agent_of, handle_operation}
use aire_go.Node.Invocation.{
  invoke_frame, client_operation, server_operation, invoke-bytes, accept_operation-bytes,
  handle_operation-bytes,
}
use aire_go.Demo.{as_agent, stream_frame, token, stream_agent}
use aire_go.Demo.Streaming.{tokens, Ends, NoError, Receives, stream_agent-tokens}

abbrev pub n_tokens : ℕ
n_tokens = 5

abbrev pub cancel_after : ℕ
cancel_after = 3

-- The payloads of the next `n` frames.
unfoldable pub recv_payloads : ℕ → Operation → Result (List Bytes)
recv_payloads zero op = ok []
recv_payloads (suc n) op = do
  (f, op') ← recv op
  payloads ← recv_payloads n op'
  ok (f.payload ∷ payloads)

-- `main` from its `Invoke` on: the connection that it leaves and the tokens that it prints. Where it calls
-- `log.Fatalf`, it ends with the error and closes nothing.
unfoldable pub stream_client : Conn → Result QuicStream → Option Error → Conn × Result (List Bytes)
stream_client c opened write_error =
    let received : Result (List Bytes) = (do
      op ← invoke c opened write_error (codes "stream") (codes "tokens") (decimal n_tokens)
      recv_payloads cancel_after (close op)) in
    elim received [
      | ok payloads ↦ (close_conn c, ok payloads)
      | err x ↦ (c, err x)
      | panic ↦ (c, panic)
    ]

pub recv_payloads-recv_all :
    (k m : ℕ) (op op' : Operation) (fs : List Frame)
    → k ≤ m
    → recv_all m op ≡ ok (fs, op')
    → recv_payloads k op ≡ ok (take k (map (λ f. f.payload) fs))
unfolding recv_payloads recv_all take
recv_payloads-recv_all zero m op op' fs le e = refl
recv_payloads-recv_all (suc k) zero op op' fs le e = absurd (omega (arith, le))
recv_payloads-recv_all (suc k) (suc m) op op' fs le e = elim (Result-cases (recv op)) [
  | inr (inl (x, a)) ↦ ground (arith, a)
  | inr (inr a) ↦ ground (arith, a)
  | inl ((f, op1), a) ↦ elim (Result-cases (recv_all m op1)) [
    | inr (inl (x, b)) ↦ ground (arith, a, b)
    | inr (inr b) ↦ ground (arith, a, b)
    | inl ((others, op2), b) ↦
        let same : f ∷ others ≡ fs = ground (arith, a, b) in
        let rest = recv_payloads-recv_all k m op1 op2 others (omega arith) b in
        rw (sym same) (rw (a, rest) refl)
  ]
]
