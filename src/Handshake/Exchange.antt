-- ===== src/Handshake/Exchange.antt =====
-- Two nodes that run `runHandshake` against each other.
use aire_go.Base.{Result, ok, ℕ, ◌≡◌, refl, none, ap, ◌∙◌, Bool, false, List, [], append-nil}
use aire_go.Base.Int.{ℤ}
use aire_go.Varint.{Bytes}
use aire_go.Frame.Layout.{frame_bytes}
use aire_go.Stream.Sequence.{IsSendable, send_frame-bytes, read_frame-bytes}
use aire_go.Capability.{Capability, lookup, negotiate_capabilities}
use aire_go.Verifier.{Verifier, remember}
use aire_go.Verifier.Time.{to_milli, is_stale}
use aire_go.Verifier.ReplayCache.{seen, nonces_of}
use aire_go.Handshake.{
  NodeConfig, HandshakeState, build_signed_hello, send_hello, receive_hello, run_handshake, unread,
}
use aire_go.Handshake.Honest.{IsHonest, hello_frame, accept_hello-build_signed_hello, signed_block}
use aire_go.Capability.Agreement.{negotiate_capabilities_symmetric}

module _ (resolve_key : Bytes → Result Bytes) (ed25519_verify : Bytes → Bytes → Bytes → Bool)
    (alloc_limit : ℕ) where
  -- One node's part: its configuration, its nonce, and its two readings of the clock.
  pub record Part : Type 0 where
    pub config : NodeConfig
    pub nonce : Bytes
    pub signed_at : ℤ
    pub now : ℤ

  abbrev pub IsHonestPart : Part → Type 0
  IsHonestPart p =
      IsHonest resolve_key ed25519_verify alloc_limit p.config.signer p.config.capabilities p.nonce
        p.signed_at

  -- `p` has a HELLO that fits in a frame, and `q` accepts its timestamp and its nonce.
  pub record CanReach (p q : Part) (payload : Bytes) : Type 0 where
    pub honest : IsHonestPart p
    pub built :
        build_signed_hello p.config.signer p.config.capabilities p.nonce p.signed_at ≡ ok payload
    pub sendable : IsSendable (hello_frame payload)
    pub fresh : is_stale q.config.verifier.window q.now (to_milli p.signed_at) ≡ false
    pub new : seen p.nonce (nonces_of p.config.signer.did q.config.verifier.cache) ≡ false

  abbrev pub run_part : Part → Bytes → Bytes × Bytes × Verifier × Result HandshakeState
  run_part p inbox =
      run_handshake resolve_key ed25519_verify alloc_limit p.config (ok p.nonce) p.signed_at p.now
        none inbox []

  run_part-steps :
      (p : Part) (inbox outbox : Bytes) (received : Verifier × Result HandshakeState)
      → send_hello p.config (ok p.nonce) p.signed_at none [] ≡ ok outbox
      → receive_hello resolve_key ed25519_verify alloc_limit p.config p.now inbox ≡ received
      → run_part p inbox ≡ (unread inbox, outbox, received.0, received.1)
  unfolding run_handshake
  run_part-steps p inbox outbox received s r = rw (s, r, run_handshake)

  -- The state that names the peer `p`.
  abbrev pub joined : Part → List Capability → HandshakeState
  joined p active = record {
    peer_node_id = p.config.signer.did;
    negotiated_minor = 2;
    active_capabilities = active;
  }

  module _ (p q : Part) (payload : Bytes) (r : CanReach p q payload) where
    -- The verifier of `q` behind the exchange.
    abbrev pub after : Verifier
    after = remember q.config.verifier q.now p.config.signer.did (
        signed_block resolve_key ed25519_verify alloc_limit p.config.signer p.config.capabilities
          p.nonce p.signed_at r.honest)

    pub send_hello-bytes :
        send_hello p.config (ok p.nonce) p.signed_at none []
        ≡ ok (frame_bytes (hello_frame payload))
    unfolding send_hello
    send_hello-bytes = rw (r.built, send_frame-bytes (hello_frame payload) [] r.sendable) refl

    -- Nothing is left behind the HELLO.
    pub unread-hello : unread (frame_bytes (hello_frame payload)) ≡ []
    unfolding unread
    unread-hello =
        let read = rw append-nil at (read_frame-bytes (hello_frame payload) [] r.sendable tt) in
        rw (read, unread) refl

    pub receive_hello-bytes :
        (active : List Capability)
        → negotiate_capabilities q.config.capabilities p.config.capabilities ≡ ok active
        → receive_hello resolve_key ed25519_verify alloc_limit q.config q.now
            (frame_bytes (hello_frame payload))
          ≡ (after, ok (joined p active))
    unfolding receive_hello
    receive_hello-bytes active e =
        let (payload', built, accepted) =
          accept_hello-build_signed_hello resolve_key ed25519_verify alloc_limit p.config.signer
            p.config.capabilities p.nonce p.signed_at r.honest q.config q.now active r.fresh r.new
            e in
        let same : payload' ≡ payload = cc (built, r.built) in
        let f = hello_frame payload in
        let read = rw append-nil at (read_frame-bytes f [] r.sendable tt) in
        rw (read, receive_hello) (rw same at accepted)

  -- Two nodes, each with a VMID that belongs to its DID and resolves to a key that verifies what
  -- it signs, both complete the handshake on what the other has sent, if their HELLOs fit in a
  -- frame, each accepts the other's timestamp and has not seen its nonce, and the negotiation
  -- succeeds. Each learns the other's DID, both have minor version 2, and their active
  -- capabilities are the same for every name.
  pub run_handshake_agrees :
      (p q : Part) (from_p from_q : Bytes) (active : List Capability)
      → CanReach p q from_p
      → CanReach q p from_q
      → negotiate_capabilities p.config.capabilities q.config.capabilities ≡ ok active
      → (sent_p : Bytes) × (sent_q : Bytes) × (vp : Verifier) × (vq : Verifier) × (theirs : List
          Capability)
        × (run_part p sent_q ≡ ([], sent_p, vp, ok (joined q active)))
        × (run_part q sent_p ≡ ([], sent_q, vq, ok (joined p theirs)))
        × ((name : Bytes) → lookup name active ≡ lookup name theirs)
  run_handshake_agrees p q from_p from_q active rp rq e =
      let (theirs, e', agree) =
        negotiate_capabilities_symmetric p.config.capabilities q.config.capabilities active e in
      (
        frame_bytes (hello_frame from_p),
        frame_bytes (hello_frame from_q),
        after q p from_q rq,
        after p q from_p rp,
        theirs,
        run_part-steps p _ _ _ (send_hello-bytes p q from_p rp)
              (receive_hello-bytes q p from_q rq active e)
            ∙ ap
                (λ (b : Bytes).
                  (b, frame_bytes (hello_frame from_p), after q p from_q rq, ok (joined q active)))
                (unread-hello q p from_q rq),
        run_part-steps q _ _ _ (send_hello-bytes q p from_q rq)
              (receive_hello-bytes p q from_p rp theirs e')
            ∙ ap
                (λ (b : Bytes).
                  (b, frame_bytes (hello_frame from_q), after p q from_p rp, ok (joined p theirs)))
                (unread-hello p q from_p rp),
        agree,
      )
