-- ===== src/Handshake/Accept.antt =====
-- What it means that `runHandshake` accepted the peer's HELLO.
use aire_go.Base.{
  leb, ◌==◌, if◌then◌else◌, lt→ltb, eq→==, ==_iff, Bool-cases, length, take, Result, ◌>>=◌,
  Result-cases, ok, err, panic, ℕ, ◌-◌, ◌<◌, min, ◌≡◌, refl, sym, subst, inl, inr, Bool, true,
  false, List, arith,
}
use aire_go.Base.Int.{ℤ}
use aire_go.Base.Text.{has_prefix, codes, bytes_eq, bytes_eq_sound}
use aire_go.Varint.{Bytes}
use aire_go.Frame.{frame_hello, Frame}
use aire_go.Capability.{Capability, negotiate_capabilities}
use aire_go.Signature.{SignatureBlock, decode_block, signed_message_bytes}
use aire_go.Verifier.{Verifier, before_hash, verify, remember}
use aire_go.Hello.{Version, decode_hello_payload}
use aire_go.Handshake.{
  NodeConfig, HandshakeState, check_block, check_signer, conclude, accept_fields, accept_hello,
}
use aire_go.Verifier.Steps.{Accepted, verify-Accepted}

module _ (resolve_key : Bytes → Result Bytes) (ed25519_verify : Bytes → Bytes → Bytes → Bool)
    (alloc_limit : ℕ) where
  check_block-ok :
      (v v' : Verifier) (now : ℤ) (inner node_id : Bytes) (block : SignatureBlock)
      → check_block resolve_key ed25519_verify alloc_limit v now inner node_id block ≡ (v', ok tt)
      → (m : Bytes) × (before_hash block.vmid ≡ node_id)
        × (signed_message_bytes frame_hello inner block ≡ ok m)
        × (verify resolve_key ed25519_verify v now block m ≡ (v', ok tt))
  unfolding check_block
  check_block-ok v v' now inner node_id block e =
      elim (Bool-cases (bytes_eq (before_hash block.vmid) node_id)) [
        | inr a ↦ ground (arith, a)
        | inl a ↦ elim (Result-cases (signed_message_bytes frame_hello inner block)) [
          | inl (m, b) ↦ (m, bytes_eq_sound _ _ a, b, rw (a, b) at e)
          | inr (inl (x, b)) ↦ ground (arith, a, b)
          | inr (inr b) ↦ ground (arith, a, b)
        ]
      ]

  check_signer-ok :
      (v v' : Verifier) (now : ℤ) (payload node_id trailing : Bytes)
      → check_signer resolve_key ed25519_verify alloc_limit v now payload node_id trailing
        ≡ (v', ok tt)
      → (block : SignatureBlock) × (n : ℕ) × (has_prefix (codes "did:") node_id ≡ true)
        × (decode_block trailing ≡ ok (block, n))
        × (check_block resolve_key ed25519_verify alloc_limit v now
              (take (length payload - length trailing) payload)
              node_id
              block
            ≡ (v', ok tt))
  unfolding check_signer
  check_signer-ok v v' now payload node_id trailing e =
      elim (Bool-cases (has_prefix (codes "did:") node_id)) [
        | inr a ↦ ground (arith, a)
        | inl a ↦ elim (Bool-cases (length trailing == 0)) [
          | inl b ↦ ground (arith, a, b)
          | inr b ↦ elim (Result-cases (decode_block trailing)) [
            | inl ((block, n), c) ↦ (block, n, a, c, rw (a, b, c) at e)
            | inr (inl (x, c)) ↦ ground (arith, a, b, c)
            | inr (inr c) ↦ ground (arith, a, b, c)
          ]
        ]
      ]

  conclude-ok :
      (local : NodeConfig) (ver : Version) (node_id : Bytes) (caps : List Capability)
      (checked : Verifier × Result (Unit {0})) (v' : Verifier) (state : HandshakeState)
      → conclude resolve_key ed25519_verify alloc_limit local ver node_id caps checked
        ≡ (v', ok state)
      → (checked ≡ (v', ok tt))
        × (negotiate_capabilities local.capabilities caps ≡ ok state.active_capabilities)
        × (state.peer_node_id ≡ node_id)
        × (state.negotiated_minor ≡ min ver.minor 2)
  unfolding conclude
  conclude-ok local ver node_id caps (v, err x) v' state e = ground arith
  conclude-ok local ver node_id caps (v, panic) v' state e = ground arith
  conclude-ok local ver node_id caps (v, ok tt) v' state e =
      elim (Result-cases (negotiate_capabilities local.capabilities caps)) [
        | inl (active, a) ↦ ground (arith, a)
        | inr (inl (x, a)) ↦ ground (arith, a)
        | inr (inr a) ↦ ground (arith, a)
      ]

  -- The part behind the decoding, by the peer's minor version.
  abbrev checked_fields :
      NodeConfig → ℤ → Bytes → Version → Bytes → Bytes → Verifier × Result (Unit {0})
  checked_fields local now payload ver node_id trailing =
      if leb 2 ver.minor
      then check_signer resolve_key ed25519_verify alloc_limit local.verifier now payload node_id
          trailing
      else (local.verifier, ok tt)

  -- What the payload of an accepted HELLO says, and what was concluded from it.
  pub record IsAccepted (local : NodeConfig) (now : ℤ) (f : Frame) (v' : Verifier)
      (state : HandshakeState) : Type 0 where
    pub is_hello : f.type ≡ frame_hello
    pub no_op_id : f.op_id ≡ 0
    pub version : Version
    pub caps : List Capability
    pub trailing : Bytes
    pub payload_read :
        decode_hello_payload alloc_limit f.payload
        ≡ ok (version, state.peer_node_id, caps, trailing)
    pub same_major : version.major ≡ 0
    pub minor : state.negotiated_minor ≡ min version.minor 2
    pub negotiated : negotiate_capabilities local.capabilities caps ≡ ok state.active_capabilities
    pub checked :
        checked_fields local now f.payload version state.peer_node_id trailing ≡ (v', ok tt)

  pub accept_hello-IsAccepted :
      (local : NodeConfig) (now : ℤ) (f : Frame) (v' : Verifier) (state : HandshakeState)
      → accept_hello resolve_key ed25519_verify alloc_limit local now f ≡ (v', ok state)
      → IsAccepted local now f v' state
  unfolding accept_hello accept_fields
  accept_hello-IsAccepted local now f v' state e = elim (Bool-cases (f.type == frame_hello)) [
    | inr a ↦ ground (arith, a)
    | inl a ↦ elim (Bool-cases (f.op_id == 0)) [
      | inr b ↦ ground (arith, a, b)
      | inl b ↦ elim (Result-cases (decode_hello_payload alloc_limit f.payload)) [
        | inr (inl (x, c)) ↦ ground (arith, a, b, c)
        | inr (inr c) ↦ ground (arith, a, b, c)
        | inl ((ver, node_id, caps, trailing), c) ↦ elim (Bool-cases (ver.major == 0)) [
          | inr d ↦ ground (arith, a, b, c, d)
          | inl d ↦
              let (r, n, p, m) =
                conclude-ok local ver node_id caps
                  (checked_fields local now f.payload ver node_id trailing) v' state
                  (rw (a, b, c, d) at e) in
              record {
                is_hello = (==_iff _ _).0 a;
                no_op_id = (==_iff _ _).0 b;
                version = ver;
                caps = caps;
                trailing = trailing;
                payload_read = rw p c;
                same_major = (==_iff _ _).0 d;
                minor = m;
                negotiated = n;
                checked =
                    subst (λ id. checked_fields local now f.payload ver id trailing ≡ (v', ok tt))
                      (sym p) r;
              }
        ]
      ]
    ]
  ]

  -- What a node knows of a peer with which it negotiated minor version 2.
  pub record IsAuthentic (local : NodeConfig) (now : ℤ) (f : Frame) (v' : Verifier)
      (state : HandshakeState) : Type 0 where
    pub hello : IsAccepted local now f v' state
    pub is_did : has_prefix (codes "did:") state.peer_node_id ≡ true
    pub block : SignatureBlock
    pub block_length : ℕ
    pub block_read : decode_block hello.trailing ≡ ok (block, block_length)
    pub same_did : before_hash block.vmid ≡ state.peer_node_id
    pub signed_message : Bytes
    pub covers :
        signed_message_bytes frame_hello
          (take (length f.payload - length hello.trailing) f.payload)
          block
        ≡ ok signed_message
    pub verified : Accepted resolve_key ed25519_verify local.verifier now block signed_message
    pub recorded : v' ≡ remember local.verifier now state.peer_node_id block

  -- The peer's identity is proved: when a HELLO is accepted with negotiated minor version 2, then
  -- its NodeID is a DID, what stands behind its capabilities begins with a signature block whose
  -- VMID belongs to that DID, the block passed all the checks of `Verify` against the first bytes
  -- of the payload, as many as there are without that trailer, and its nonce is recorded for that
  -- DID.
  pub accept_hello-IsAuthentic :
      (local : NodeConfig) (now : ℤ) (f : Frame) (v' : Verifier) (state : HandshakeState)
      → accept_hello resolve_key ed25519_verify alloc_limit local now f ≡ (v', ok state)
      → state.negotiated_minor ≡ 2
      → IsAuthentic local now f v' state
  accept_hello-IsAuthentic local now f v' state e two =
      let h = accept_hello-IsAccepted local now f v' state e in
      let new : leb 2 h.version.minor ≡ true = ground (arith, two, h.minor) in
      let c = h.checked in
      let (block, n, did, r, cb) =
        check_signer-ok local.verifier v' now f.payload state.peer_node_id h.trailing
          (rw new at c) in
      let (m, same, covers, good) = check_block-ok local.verifier v' now _ _ block cb in
      let (accepted, recorded) =
        verify-Accepted resolve_key ed25519_verify local.verifier v' now block m good in
      record {
        hello = h;
        is_did = did;
        block = block;
        block_length = n;
        block_read = r;
        same_did = same;
        signed_message = m;
        covers = covers;
        verified = accepted;
        recorded = rw same at recorded;
      }

  pub accept_hello-old :
      (local : NodeConfig) (now : ℤ) (f : Frame) (minor : ℕ) (node_id : Bytes)
      (caps : List Capability) (trailing : Bytes)
      → f.type ≡ frame_hello
      → f.op_id ≡ 0
      → minor < 2
      → decode_hello_payload alloc_limit f.payload
        ≡ ok (record { major = 0; minor = minor }, node_id, caps, trailing)
      → accept_hello resolve_key ed25519_verify alloc_limit local now f ≡ (
        local.verifier,
        do
          active ← negotiate_capabilities local.capabilities caps
          ok (record {
            peer_node_id = node_id;
            negotiated_minor = minor;
            active_capabilities = active;
          }),
      )
  unfolding accept_hello accept_fields conclude
  accept_hello-old local now f minor node_id caps trailing ht ho hm e =
      let old : leb 2 minor ≡ false = ground arith in
      rw (eq→== _ _ ht, eq→== _ _ ho, e, old, lt→ltb _ _ hm) refl
