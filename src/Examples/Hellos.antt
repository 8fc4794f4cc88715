-- ===== src/Examples/Hellos.antt =====
-- handshake.go at concrete inputs.
use aire_go.Base.{take, drop, Result, ok, ◌≡◌, refl, false, List, [], ◌∷◌, ◌++◌, arith}
use aire_go.Base.Int.{to_u64, of_u64}
use aire_go.Base.Text.{has_prefix, codes, bytes_eq}
use aire_go.Varint.{Bytes, append_varint, read_varint}
use aire_go.Capability.{Capability, lookup, negotiate_capabilities}
use aire_go.Signature.{encode_block, signed_message_bytes, decode_block}
use aire_go.Verifier.{Verifier, before_hash, verify}
use aire_go.Verifier.Time.{is_stale}
use aire_go.Verifier.ReplayCache.{seen, nonces_of, put_nonces, purge}
use aire_go.Hello.{encode_hello_inner, decode_hello_payload}
use aire_go.Handshake.{build_signed_hello, HandshakeState, accept_hello, receive_hello}
use aire_go.Handshake.Honest.{hello_frame}
use aire_go.Strings.{append_string, read_string}
use aire_go.Handshake.Accept.{IsAuthentic, accept_hello-IsAuthentic}
use aire_go.Handshake.Unsigned.{old_version, receive_hello_unsigned}
use aire_go.Stream.Sequence.{IsSendable}
use aire_go.Frame.Layout.{frame_bytes}
use aire_go.Examples.Nodes.{one_key, sum_verify, empty_verifier, alice, bob, payload_of, chatting}

abbrev bob_sees : Verifier × Result HandshakeState
bob_sees = accept_hello one_key sum_verify 100 bob.config bob.now (hello_frame (payload_of alice))

abbrev alice_state : HandshakeState
alice_state = record {
  peer_node_id = codes "did:key:zA";
  negotiated_minor = 2;
  active_capabilities = chatting;
}

alice_accepted : bob_sees ≡ (bob_sees.0, ok alice_state)
unfolding accept_hello decode_hello_payload read_varint read_string take drop has_prefix before_hash
    decode_block verify is_stale nonces_of put_nonces seen purge bytes_eq negotiate_capabilities
    lookup of_u64 to_u64 signed_message_bytes append_varint append_string build_signed_hello
    encode_hello_inner encode_block
alice_accepted = refl

accept_hello-IsAuthentic_example :
    IsAuthentic one_key sum_verify 100 bob.config bob.now
      (hello_frame (payload_of alice))
      bob_sees.0
      alice_state
accept_hello-IsAuthentic_example =
    accept_hello-IsAuthentic one_key sum_verify 100 bob.config bob.now
      (hello_frame (payload_of alice)) bob_sees.0 alice_state alice_accepted refl

-- A HELLO of v0.1 that claims the DID of someone else and has three bytes of anything behind the
-- capabilities.
abbrev claimed_caps : List Capability
claimed_caps = record { name = codes "chat/1"; version = 5; required = false } ∷ []

abbrev claimed : Bytes
claimed = 0 ∷ 1 ∷ 9 ∷ codes "did:key:z" ++ 1 ∷ 6 ∷ codes "chat/1" ++ 5 ∷ 0 ∷ []

abbrev claimed_active : List Capability
claimed_active = record { name = codes "chat/1"; version = 3; required = false } ∷ []

claimed_built : encode_hello_inner (old_version 1) (codes "did:key:z") claimed_caps ≡ ok claimed
unfolding encode_hello_inner append_varint append_string
claimed_built = refl

claimed-IsSendable : IsSendable (hello_frame (claimed ++ 7 ∷ 7 ∷ 7 ∷ []))
claimed-IsSendable = record {
  type_byte = omega arith;
  flags_byte = omega arith;
  op_range = omega arith;
  size_range = omega arith;
  content_bytes = omega arith;
}

receive_hello_unsigned_example :
    receive_hello one_key sum_verify 100 alice.config alice.now
      (frame_bytes (hello_frame (claimed ++ 7 ∷ 7 ∷ 7 ∷ [])))
    ≡ (
      empty_verifier,
      ok (record {
        peer_node_id = codes "did:key:z";
        negotiated_minor = 1;
        active_capabilities = claimed_active;
      }),
    )
unfolding negotiate_capabilities lookup bytes_eq
receive_hello_unsigned_example =
    receive_hello_unsigned one_key sum_verify 100 alice.config alice.now 1 (codes "did:key:z")
      claimed_caps claimed_active (7 ∷ 7 ∷ 7 ∷ []) claimed (omega arith) (omega arith) (omega arith)
      (omega arith) ((omega arith, omega arith), tt) claimed_built claimed-IsSendable refl
