-- ===== src/Handshake/Unsigned.antt =====
-- What a peer of an old minor version can claim.
use aire_go.Base.{
  length, All, Result, ok, ℕ, Bool, ◌≤◌, ◌<◌, ◌≡◌, ◌∙◌, refl, append-nil, [], List, ◌++◌, arith,
}
use aire_go.Base.Int.{ℤ}
use aire_go.Varint.{Bytes, max_varint}
use aire_go.Frame.Layout.{frame_bytes}
use aire_go.Stream.Sequence.{IsSendable, read_frame-bytes}
use aire_go.Capability.{Capability, negotiate_capabilities}
use aire_go.Hello.{Version, encode_hello_inner}
use aire_go.Hello.RoundTrip.{IsAdvertisable, decode_hello_payload-encode_hello_inner}
use aire_go.Handshake.{NodeConfig, receive_hello}
use aire_go.Handshake.Accept.{accept_hello-old}
use aire_go.Handshake.Honest.{hello_frame}

abbrev pub old_version : ℕ → Version
old_version minor = record { major = 0; minor = minor }

module _ (resolve_key : Bytes → Result Bytes) (ed25519_verify : Bytes → Bytes → Bytes → Bool)
    (alloc_limit : ℕ) where
  -- A peer that says it speaks minor version 0 or 1 can claim any NodeID, a DID of someone else's too: the
  -- bytes that `encodeHelloInner` writes for that version and that NodeID, with no signature behind
  -- them or with anything else that fits in the frame, are accepted by a node at every clock, with
  -- every resolver, every Ed25519 check and every verifier, which is left as it is, if the
  -- capabilities can be negotiated, a varint holds their number and all lengths, and `make` has room for
  -- them. The state then names the NodeID that was claimed.
  pub receive_hello_unsigned :
      (local : NodeConfig) (now : ℤ) (minor : ℕ) (node_id : Bytes) (caps active : List Capability)
      (trailing inner : Bytes)
      → minor < 2
      → length node_id ≤ max_varint
      → length caps ≤ max_varint
      → length caps ≤ alloc_limit
      → All IsAdvertisable caps
      → encode_hello_inner (old_version minor) node_id caps ≡ ok inner
      → IsSendable (hello_frame (inner ++ trailing))
      → negotiate_capabilities local.capabilities caps ≡ ok active
      → receive_hello resolve_key ed25519_verify alloc_limit local now
          (frame_bytes (hello_frame (inner ++ trailing)))
        ≡ (
          local.verifier,
          ok (record {
            peer_node_id = node_id;
            negotiated_minor = minor;
            active_capabilities = active;
          }),
        )
  unfolding receive_hello
  receive_hello_unsigned local now minor node_id caps active trailing inner old id_fits caps_fit
        room advertised built fits agreed =
      let f = hello_frame (inner ++ trailing) in
      let read = rw append-nil at (read_frame-bytes f [] fits tt) in
      let (inner', same, decoded) =
        decode_hello_payload-encode_hello_inner alloc_limit (old_version minor) node_id caps
          trailing (omega arith) (omega (arith, old)) id_fits caps_fit room advertised in
      let one : inner' ≡ inner = cc (same, built) in
      let accepted =
        accept_hello-old resolve_key ed25519_verify alloc_limit local now f minor node_id caps
          trailing refl refl old (rw one at decoded) in
      rw (read, receive_hello) (accepted ∙ rw agreed refl)
