-- ===== src/Examples/Connections.antt =====
-- Conn.Handshake at concrete inputs: a server that one HELLO reaches on two connections.
use aire_go.Base.{
  take, drop, replicate, Result, message, ok, err, ◌≡◌, refl, false, none, some, [], arith,
}
use aire_go.Base.Int.{pos, to_u64, of_u64}
use aire_go.Varint.{Bytes, append_varint, read_varint}
use aire_go.Examples.Nodes.{some_nonce, empty_verifier, value_of}
use aire_go.Examples.Resolving.{toy_platform}
use aire_go.Examples.Keyed.{toy_ed25519, carol_key, dave_key}
use aire_go.Conn.{
  QuicStream, ConnConfig, Conn, Draws, handshake, verifier_of, keep_verifier, finish_handshake,
  ephemeral_signer, signer_of, run_with_defaults,
}
use aire_go.Keys.{
  make_did_key, did_key_vmid, encode_multibase_ed25519, decode_multibase_ed25519, parse_did_key,
  verify_ed25519, new_ed25519_did_key_signer,
}
use aire_go.Handshake.{
  Signer, HandshakeState, build_signed_hello, send_hello, accept_hello, receive_hello,
  run_handshake, unread, NodeConfig,
}
use aire_go.Stream.{read_varint_from, send_frame, read_full, read_frame}
use aire_go.Conn.Replayed.{handshake_replay_refused}
use aire_go.Conn.NoVerifier.{CanGreet, handshake_nil_verifier}
use aire_go.Handshake.Honest.{hello_frame}
use aire_go.Digits.{to_digits, of_digits}
use aire_go.Hello.{encode_hello_inner, decode_hello_payload}
use aire_go.Verifier.{before_hash, verify, Verifier}
use aire_go.Frame.{append_encode, encode}
use aire_go.Base58.{base58btc_encode, base58btc_decode}
use aire_go.Capability.{lookup, negotiate_capabilities}
use aire_go.Strings.{append_string, read_string}
use aire_go.Signature.{meta_bytes, encode_block, decode_block, signed_message_bytes}
use aire_go.Verifier.ReplayCache.{purge, seen, nonces_of, put_nonces}
use aire_go.Verifier.Time.{is_stale}
use aire_go.Base.Text.{bytes_eq, has_prefix, index_byte, cut_at}
use aire_go.Keys.ResolveKey.{cut_hash, resolve_key}
use aire_go.Keys.Authentic.{HoldsKey, accept_hello-HoldsKey}

abbrev carol_signer : Signer
carol_signer = record {
  did = make_did_key carol_key;
  vmid = value_of (did_key_vmid (make_did_key carol_key));
  sign = toy_ed25519.sign carol_key;
}

abbrev hello_payload : Bytes
hello_payload = value_of (build_signed_hello carol_signer [] (some_nonce 3) (pos 5000000000))

abbrev hello_stream : QuicStream
hello_stream = record {
  stream_id = 0;
  inbox = value_of (send_frame (hello_frame hello_payload) []);
  outbox = [];
  finished = false;
}

abbrev pub some_draws : Draws
some_draws = record {
  opened = err (message "not a client");
  accepted = ok hello_stream;
  generated = ok carol_key;
  nonce = ok (some_nonce 4);
  write_error = none;
  signed_at = pos 6000000000;
  now = pos 6000000000;
}

abbrev pub fresh_conn : Conn
fresh_conn = record { is_client = false; ctrl = none; state = none; closed = false }

abbrev pub with_verifier : ConnConfig
with_verifier = record {
  signer = some carol_signer;
  key_verifier = some (record { verifier = empty_verifier; resolver = none });
  capabilities = [];
}

abbrev without_verifier : ConnConfig
without_verifier = record { signer = none; key_verifier = none; capabilities = [] }

abbrev pub carol_state : HandshakeState
carol_state = record {
  peer_node_id = make_did_key carol_key;
  negotiated_minor = 2;
  active_capabilities = [];
}

abbrev pub once : Conn × ConnConfig × Result HandshakeState
once = handshake toy_platform toy_ed25519 100 fresh_conn with_verifier some_draws

abbrev bare : Conn × ConnConfig × Result HandshakeState
bare = handshake toy_platform toy_ed25519 100 fresh_conn without_verifier some_draws

pub once_accepted : once ≡ (once.0, once.1, ok carol_state)
unfolding handshake finish_handshake run_with_defaults signer_of ephemeral_signer
    new_ed25519_did_key_signer did_key_vmid make_did_key encode_multibase_ed25519 base58btc_encode
    to_digits of_digits replicate run_handshake unread send_hello build_signed_hello
    encode_hello_inner append_varint append_string signed_message_bytes to_u64 of_u64 drop take
    bytes_eq cut_at has_prefix index_byte base58btc_decode keep_verifier verifier_of append_encode
    encode accept_hello receive_hello decode_hello_payload cut_hash resolve_key
    decode_multibase_ed25519 parse_did_key verify_ed25519 encode_block meta_bytes read_frame
    read_full send_frame read_string read_varint decode_block verify is_stale before_hash seen
    nonces_of put_nonces purge read_varint_from negotiate_capabilities lookup
once_accepted = refl

bare_accepted : bare ≡ (bare.0, bare.1, ok carol_state)
unfolding handshake finish_handshake run_with_defaults signer_of ephemeral_signer
    new_ed25519_did_key_signer did_key_vmid make_did_key encode_multibase_ed25519 base58btc_encode
    to_digits of_digits replicate run_handshake unread send_hello build_signed_hello
    encode_hello_inner append_varint append_string signed_message_bytes to_u64 of_u64 drop take
    bytes_eq cut_at has_prefix index_byte base58btc_decode keep_verifier verifier_of append_encode
    encode accept_hello receive_hello decode_hello_payload cut_hash resolve_key
    decode_multibase_ed25519 parse_did_key verify_ed25519 encode_block meta_bytes read_frame
    read_full send_frame read_string read_varint decode_block verify is_stale before_hash seen
    nonces_of put_nonces purge read_varint_from negotiate_capabilities lookup
bare_accepted = refl

handshake_replay_refused_example : ¬ (
    (s2 : HandshakeState) × ((handshake toy_platform toy_ed25519 100 fresh_conn once.1 some_draws).2
      ≡ ok s2))
handshake_replay_refused_example =
    handshake_replay_refused toy_platform toy_ed25519 100 fresh_conn fresh_conn once.0 with_verifier
      once.1 some_draws some_draws hello_stream hello_stream carol_state
      (record { verifier = empty_verifier; resolver = none }) refl (omega arith) refl refl refl
      once_accepted refl

-- The same bytes on a second connection, which has a key and a nonce of its own.
abbrev other_draws : Draws
other_draws = record some_draws { generated = ok dave_key; nonce = ok (some_nonce 5) }

abbrev dave_signer : Signer
dave_signer = record {
  did = make_did_key dave_key;
  vmid = value_of (did_key_vmid (make_did_key dave_key));
  sign = toy_ed25519.sign dave_key;
}

abbrev dave_hello : Bytes
dave_hello = value_of (build_signed_hello dave_signer [] (some_nonce 5) (pos 6000000000))

abbrev dave_wire : Bytes
dave_wire = value_of (send_frame (hello_frame dave_hello) [])

abbrev dave_config : NodeConfig
dave_config = record { signer = dave_signer; verifier = empty_verifier; capabilities = [] }

bare-signs : signer_of toy_platform toy_ed25519 100 without_verifier other_draws ≡ ok dave_signer
unfolding signer_of ephemeral_signer new_ed25519_did_key_signer did_key_vmid make_did_key
    encode_multibase_ed25519 base58btc_encode to_digits of_digits replicate
bare-signs = refl

bare-greets : send_hello dave_config (ok (some_nonce 5)) (pos 6000000000) none [] ≡ ok dave_wire
unfolding did_key_vmid make_did_key encode_multibase_ed25519 base58btc_encode to_digits of_digits
    replicate send_hello build_signed_hello encode_hello_inner append_varint append_string
    signed_message_bytes to_u64 drop encode_block send_frame append_encode encode
bare-greets = refl

abbrev bare_greeting : CanGreet toy_platform toy_ed25519 100 fresh_conn without_verifier other_draws
bare_greeting = record {
  fresh = refl;
  stream = hello_stream;
  control = refl;
  signer = dave_signer;
  signs = bare-signs;
  outbox = dave_wire;
  greets = unfold verifier_of in bare-greets;
}

handshake_nil_verifier_example :
    (bare.1 ≡ without_verifier)
    × ((c : Conn) × (handshake toy_platform toy_ed25519 100 fresh_conn bare.1 other_draws
          ≡ (c, bare.1, ok carol_state)))
handshake_nil_verifier_example =
    handshake_nil_verifier toy_platform toy_ed25519 100 fresh_conn bare.0 fresh_conn
      without_verifier bare.1 some_draws other_draws hello_stream carol_state bare_greeting refl
      bare_accepted refl refl refl

abbrev carol_checker : NodeConfig
carol_checker = record { signer = carol_signer; verifier = empty_verifier; capabilities = [] }

abbrev carol_seen : Verifier × Result HandshakeState
carol_seen =
    accept_hello (resolve_key toy_platform none) (verify_ed25519 toy_ed25519) 100 carol_checker
      (pos 6000000000) (hello_frame hello_payload)

carol_accepted : carol_seen ≡ (carol_seen.0, ok carol_state)
unfolding make_did_key did_key_vmid encode_multibase_ed25519 base58btc_encode to_digits of_digits
    replicate build_signed_hello encode_hello_inner append_varint append_string signed_message_bytes
    to_u64 of_u64 drop take bytes_eq cut_at has_prefix index_byte base58btc_decode accept_hello
    decode_hello_payload cut_hash resolve_key decode_multibase_ed25519 parse_did_key verify_ed25519
    encode_block meta_bytes read_string read_varint decode_block verify is_stale before_hash seen
    nonces_of put_nonces purge negotiate_capabilities lookup
carol_accepted = refl

accept_hello-HoldsKey_example :
    HoldsKey toy_platform none toy_ed25519 100 carol_checker
      (pos 6000000000)
      (hello_frame hello_payload)
      carol_seen.0
      carol_state
accept_hello-HoldsKey_example =
    accept_hello-HoldsKey toy_platform none toy_ed25519 100 carol_checker (pos 6000000000)
      (hello_frame hello_payload) carol_seen.0 carol_state carol_accepted refl
