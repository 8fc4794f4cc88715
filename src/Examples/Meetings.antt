-- ===== src/Examples/Meetings.antt =====
-- Conn.Handshake on both ends: a client that makes a did:key for the connection, and carol's node.
use aire_go.Base.{
  drop, replicate, ok, err, message, ◌≡◌, refl, false, true, none, some, List, [], ◌∷◌, arith,
}
use aire_go.Base.Int.{pos, to_u64}
use aire_go.Base.Text.{codes, bytes_eq}
use aire_go.Varint.{Bytes, append_varint}
use aire_go.Capability.{Capability, lookup, negotiate_capabilities}
use aire_go.Verifier.{Verifier}
use aire_go.Verifier.Time.{is_stale}
use aire_go.Verifier.ReplayCache.{seen, nonces_of}
use aire_go.Signature.{encode_block, signed_message_bytes}
use aire_go.Strings.{append_string}
use aire_go.Hello.{encode_hello_inner}
use aire_go.Handshake.{build_signed_hello}
use aire_go.Keys.{make_did_key, did_key_vmid, encode_multibase_ed25519, new_ed25519_did_key_signer}
use aire_go.Keys.Signing.{vmid_of}
use aire_go.Digits.{to_digits, of_digits}
use aire_go.Base58.{base58btc_encode}
use aire_go.Conn.{ConnConfig, Conn, keep_verifier, verifier_of, ephemeral_signer, signer_of}
use aire_go.Conn.Meeting.{
  Side, IsReady, Accepts, handshake_on, joined_conn, joined_with, handshake_agrees,
}
use aire_go.Examples.Nodes.{some_nonce, empty_verifier, value_of, all_byte_sound}
use aire_go.Examples.Resolving.{toy_platform}
use aire_go.Examples.Keyed.{toy_ed25519, carol_key, carol-IsKeyPair, dave_key, dave-IsKeyPair}

abbrev streaming : List Capability
streaming = record { name = codes "stream/1"; version = 1; required = false } ∷ []

abbrev key_side : Bytes → Bytes → Conn → ConnConfig → Side
key_side key nonce c cfg = record {
  conn = c;
  config = cfg;
  draws = record {
    opened = err (message "not asked");
    accepted = err (message "not asked");
    generated = ok key;
    nonce = ok nonce;
    write_error = none;
    signed_at = pos 5000000000;
    now = pos 6000000000;
  };
  stream = record { stream_id = 0; inbox = []; outbox = []; finished = false };
  priv = key;
  signer = record { did = make_did_key key; vmid = vmid_of key; sign = toy_ed25519.sign key };
  nonce = nonce;
}

-- Without a signer and without a verifier.
abbrev dave : Side
dave =
    key_side dave_key (some_nonce 1)
      (record { is_client = true; ctrl = none; state = none; closed = false })
      (record { signer = none; key_verifier = none; capabilities = streaming })

abbrev carol : Side
carol =
    key_side carol_key (some_nonce 2)
      (record { is_client = false; ctrl = none; state = none; closed = false })
      (record {
        signer = some (record {
          did = make_did_key carol_key;
          vmid = vmid_of carol_key;
          sign = toy_ed25519.sign carol_key;
        });
        key_verifier = some (record { verifier = empty_verifier; resolver = none });
        capabilities = streaming;
      })

abbrev hello_of : Side → Bytes
hello_of p = value_of (build_signed_hello p.signer p.config.capabilities p.nonce p.draws.signed_at)

dave-IsReady : IsReady toy_platform toy_ed25519 100 dave (hello_of dave)
unfolding signer_of ephemeral_signer new_ed25519_did_key_signer did_key_vmid make_did_key
    encode_multibase_ed25519 base58btc_encode to_digits of_digits replicate build_signed_hello
    encode_hello_inner append_varint append_string signed_message_bytes to_u64 drop encode_block
dave-IsReady = record {
  fresh = refl;
  unwritten = refl;
  pair = dave-IsKeyPair;
  made = refl;
  chosen = refl;
  drawn = refl;
  written = refl;
  nonce_length = refl;
  time_fits = omega arith;
  caps_fit = omega arith;
  caps_room = omega arith;
  advertisable = ((omega arith, omega arith), tt);
  built = refl;
  sendable = record {
    type_byte = omega arith;
    flags_byte = omega arith;
    op_range = omega arith;
    size_range = omega arith;
    content_bytes = all_byte_sound (hello_of dave) refl;
  };
}

carol-IsReady : IsReady toy_platform toy_ed25519 100 carol (hello_of carol)
unfolding signer_of ephemeral_signer new_ed25519_did_key_signer did_key_vmid make_did_key
    encode_multibase_ed25519 base58btc_encode to_digits of_digits replicate build_signed_hello
    encode_hello_inner append_varint append_string signed_message_bytes to_u64 drop encode_block
carol-IsReady = record {
  fresh = refl;
  unwritten = refl;
  pair = carol-IsKeyPair;
  made = refl;
  chosen = refl;
  drawn = refl;
  written = refl;
  nonce_length = refl;
  time_fits = omega arith;
  caps_fit = omega arith;
  caps_room = omega arith;
  advertisable = ((omega arith, omega arith), tt);
  built = refl;
  sendable = record {
    type_byte = omega arith;
    flags_byte = omega arith;
    op_range = omega arith;
    size_range = omega arith;
    content_bytes = all_byte_sound (hello_of carol) refl;
  };
}

dave-Accepts : Accepts toy_platform toy_ed25519 100 dave carol
unfolding is_stale seen nonces_of verifier_of
dave-Accepts = record { in_window = refl; new = refl }

carol-Accepts : Accepts toy_platform toy_ed25519 100 carol dave
unfolding is_stale seen nonces_of verifier_of
carol-Accepts = record { in_window = refl; new = refl }

both_stream : negotiate_capabilities streaming streaming ≡ ok streaming
unfolding negotiate_capabilities lookup bytes_eq
both_stream = refl

handshake_agrees_example :
    (sent_p : Bytes) × (sent_q : Bytes) × (vp : Verifier) × (vq : Verifier) × (theirs : List
      Capability)
    × (handshake_on toy_platform toy_ed25519 100 dave sent_q ≡ (
      joined_conn toy_platform toy_ed25519 100 dave sent_p
          (joined_with toy_platform toy_ed25519 100 carol streaming),
      keep_verifier dave.config vp,
      ok (joined_with toy_platform toy_ed25519 100 carol streaming),
    ))
    × (handshake_on toy_platform toy_ed25519 100 carol sent_p ≡ (
      joined_conn toy_platform toy_ed25519 100 carol sent_q
          (joined_with toy_platform toy_ed25519 100 dave theirs),
      keep_verifier carol.config vq,
      ok (joined_with toy_platform toy_ed25519 100 dave theirs),
    ))
    × ((name : Bytes) → lookup name streaming ≡ lookup name theirs)
handshake_agrees_example =
    handshake_agrees toy_platform toy_ed25519 100 dave carol (hello_of dave) (hello_of carol)
      streaming dave-IsReady carol-IsReady dave-Accepts carol-Accepts both_stream
