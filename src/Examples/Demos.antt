-- ===== src/Examples/Demos.antt =====
-- The demo agents at concrete inputs.
use aire_go.Base.{
  if◌then◌else◌, leb, Error, message, ok, ℕ, ◌≡◌, refl, true, false, Option, none, some, List, [],
  ◌∷◌, ◌++◌, reverse, arith,
}
use aire_go.Base.Text.{codes, bytes_eq}
use aire_go.Varint.{Bytes, append_varint}
use aire_go.Strings.{append_string}
use aire_go.Invoke.{encode_invoke_payload}
use aire_go.Digits.Print.{decimal}
use aire_go.Runes.{encode_rune, encode_runes}
use aire_go.Operation.{Operation, invoke, accept_operation}
use aire_go.Node.{Invoke, Agents, agent_of, handle_operation}
use aire_go.Demo.{as_agent, send_reply, reverse_agent, wordcount_agent, stream_agent, token, ask}
use aire_go.Demo.Reversing.{reverse_agent-encode_runes}
use aire_go.Demo.Counting.{laid_out, wordcount_agent-laid_out}
use aire_go.Demo.Client.{n_tokens, stream_client}
use aire_go.Demo.Client.Tokens.{stream_client-tokens}
use aire_go.Conn.{close_conn}
use aire_go.Demo.Asking.{ask-answers}
use aire_go.Examples.Nodes.{all_byte_sound, value_of}
use aire_go.Examples.Running.{state_with, conn_with, quiet_stream, server_end}

abbrev asked_with : Bytes → Invoke
asked_with args = record {
  agent_id = codes "agent";
  operation = codes "go";
  args = args;
  op = server_end;
  peer_node_id = codes "did:key:zA";
}

-- A letter of one byte, one of two, a sign of three and one of four.
abbrev four_runes : List ℕ
four_runes = 0x68 ∷ 0xE9 ∷ 0x20AC ∷ 0x1F600 ∷ []

reverse_agent-encode_runes_example :
    reverse_agent none (asked_with (encode_runes four_runes))
    ≡ send_reply none server_end (encode_runes (reverse four_runes))
reverse_agent-encode_runes_example =
    reverse_agent-encode_runes none (asked_with (encode_runes four_runes)) four_runes
      (refl, (refl, (refl, (refl, tt)))) refl

-- " the  dog ", with a wide space between the words.
abbrev two_words : List ℕ
two_words =
    0x20 ∷ [] ++ laid_out ((codes "the", 0x20 ∷ 0x3000 ∷ []) ∷ []) (codes "dog" ++ 0x20 ∷ [])

wordcount_agent-laid_out_example :
    wordcount_agent none (asked_with (encode_runes two_words))
    ≡ send_reply none server_end (decimal 2)
wordcount_agent-laid_out_example =
    wordcount_agent-laid_out (codes "dog") (0x20 ∷ []) (λ z. cc, (refl, (refl, (refl, tt))))
      (refl, tt) none (asked_with (encode_runes two_words)) (0x20 ∷ [])
      ((codes "the", 0x20 ∷ 0x3000 ∷ []) ∷ []) (refl, tt)
      (((λ z. cc, (refl, (refl, (refl, tt)))), (refl, (refl, tt)), λ z. cc), tt)
      (refl, (refl, (refl, (refl, (refl, (refl, (refl, (refl, (refl, (refl, tt)))))))))) refl

-- The client is gone behind the third token.
abbrev gone_at_four : ℕ → Option Error
gone_at_four k = if leb 4 k then some (message "connection closed") else none

abbrev stream_agents : Agents
stream_agents = (codes "stream", as_agent (stream_agent gone_at_four)) ∷ []

stream_client-tokens_example :
    (client server server' : Operation) × (invoke
        (conn_with true (codes "did:key:zB"))
        (ok quiet_stream)
        none
        (codes "stream")
        (codes "tokens")
        (decimal n_tokens)
      ≡ ok client)
    × (accept_operation
          (conn_with false (codes "did:key:zA"))
          (ok (record quiet_stream { inbox = client.stream.outbox }))
        ≡ ok server)
    × (handle_operation stream_agents server ≡ ok server')
    × (stream_client
          (conn_with true (codes "did:key:zB"))
          (ok (record quiet_stream { inbox = server'.stream.outbox }))
          none
        ≡ (close_conn (conn_with true (codes "did:key:zB")), ok (token 1 ∷ token 2 ∷ token 3 ∷ [])))
unfolding agent_of bytes_eq
stream_client-tokens_example =
    stream_client-tokens stream_agents (conn_with true (codes "did:key:zB"))
      (conn_with false (codes "did:key:zA")) (state_with (codes "did:key:zB"))
      (state_with (codes "did:key:zA")) quiet_stream quiet_stream gone_at_four refl refl refl refl
      refl (omega arith) refl (λ k a b. ground (arith, a, b))

abbrev peer_agents : Agents
peer_agents = (codes "reverse", as_agent (reverse_agent none)) ∷ []

abbrev go_payload : Bytes
go_payload = value_of (encode_invoke_payload (codes "reverse") (codes "go") (codes "ab"))

reverses_ab :
    (inv : Invoke)
    → inv.args ≡ codes "ab"
    → reverse_agent none inv ≡ send_reply none inv.op (codes "ba")
unfolding encode_runes encode_rune
reverses_ab inv e = reverse_agent-encode_runes none inv (codes "ab") (refl, (refl, tt)) e

ask-answers_example :
    (client : Operation) × (server : Operation) × (server' : Operation) × (invoke
        (conn_with true (codes "did:key:zB"))
        (ok quiet_stream)
        none
        (codes "reverse")
        (codes "go")
        (codes "ab")
      ≡ ok client)
    × (accept_operation
          (conn_with false (codes "did:key:zA"))
          (ok (record quiet_stream { inbox = client.stream.outbox }))
        ≡ ok server)
    × (handle_operation peer_agents server ≡ ok server')
    × (ask
          (conn_with true (codes "did:key:zB"))
          (ok (record quiet_stream { inbox = server'.stream.outbox }))
          none
          (codes "reverse")
          (codes "ab")
        ≡ ok (codes "reverse=ba"))
unfolding encode_invoke_payload append_string append_varint agent_of bytes_eq
ask-answers_example =
    ask-answers peer_agents (conn_with true (codes "did:key:zB"))
      (conn_with false (codes "did:key:zA")) (state_with (codes "did:key:zB"))
      (state_with (codes "did:key:zA")) quiet_stream quiet_stream (codes "reverse") (codes "ab")
      go_payload (codes "ba") (reverse_agent none) refl refl refl refl refl (omega arith) refl
      (record {
        type_byte = omega arith;
        flags_byte = omega arith;
        op_range = omega arith;
        size_range = omega arith;
        content_bytes = all_byte_sound go_payload refl;
      })
      refl
      (record {
        type_byte = omega arith;
        flags_byte = omega arith;
        op_range = omega arith;
        size_range = omega arith;
        content_bytes = all_byte_sound (codes "ba") refl;
      })
      reverses_ab
