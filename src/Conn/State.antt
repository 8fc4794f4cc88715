-- ===== src/Conn/State.antt =====
-- What a completed `Handshake` has done.
use aire_go.Base.{
  if◌then◌else◌, Option-cases, Error, Option, Result, Result-cases, ok, err, panic, ℕ, ◌≡◌, ap, inl,
  inr, none, some, arith,
}
use aire_go.Base.Int.{ℤ}
use aire_go.Varint.{Bytes}
use aire_go.Frame.{Frame}
use aire_go.Verifier.{Verifier}
use aire_go.Conn.{
  QuicStream, ConnConfig, Conn, Draws, verifier_of, keep_verifier, signer_of, finish_handshake,
  run_with_defaults, handshake,
}
use aire_go.Keys.{Ed25519, verify_ed25519}
use aire_go.Addressing.{Platform}
use aire_go.Handshake.{
  Signer, NodeConfig, HandshakeState, accept_hello, receive_hello, send_hello, run_handshake,
}
use aire_go.Stream.{read_frame}
use aire_go.Keys.ResolveKey.{resolve_key}

-- The control stream: the client opens it, the server accepts it.
abbrev pub control_stream : Conn → Draws → Result QuicStream
control_stream c d = if c.is_client then d.opened else d.accepted

module _ (platform : Platform) (e : Ed25519) (alloc_limit : ℕ) where
  abbrev pub local_config : ConnConfig → Signer → NodeConfig
  local_config cfg signer = record {
    signer = signer;
    verifier = (verifier_of cfg).verifier;
    capabilities = cfg.capabilities;
  }

  abbrev pub keys_of : ConnConfig → Bytes → Result Bytes
  keys_of cfg = resolve_key platform (verifier_of cfg).resolver

  -- The peer's first frame on the control stream, accepted.
  pub record Completed (c : Conn) (cfg : ConnConfig) (d : Draws) (cfg' : ConnConfig)
      (state : HandshakeState) : Type 0 where
    pub fresh : c.state ≡ none
    pub stream : QuicStream
    pub control : control_stream c d ≡ ok stream
    pub signer : Signer
    pub signs : signer_of platform e alloc_limit cfg d ≡ ok signer
    pub first : Frame
    pub rest : Bytes
    pub received : read_frame stream.inbox ≡ ok (first, rest)
    pub verifier : Verifier
    pub accepted :
        accept_hello
          (keys_of cfg)
          (verify_ed25519 e)
          alloc_limit
          (local_config cfg signer)
          d.now
          first
        ≡ (verifier, ok state)
    pub kept : cfg' ≡ keep_verifier cfg verifier

  receive_hello-ok :
      (keys : Bytes → Result Bytes) (local : NodeConfig) (now : ℤ) (inbox : Bytes) (v' : Verifier)
      (state : HandshakeState)
      → receive_hello keys (verify_ed25519 e) alloc_limit local now inbox ≡ (v', ok state)
      → (f : Frame) × (rest : Bytes) × (read_frame inbox ≡ ok (f, rest))
        × (accept_hello keys (verify_ed25519 e) alloc_limit local now f ≡ (v', ok state))
  unfolding receive_hello
  receive_hello-ok keys local now inbox v' state h = elim (Result-cases (read_frame inbox)) [
    | inr (inl (x, a)) ↦ ground (arith, a)
    | inr (inr a) ↦ ground (arith, a)
    | inl ((f, rest), a) ↦ (f, rest, a, rw (a, receive_hello) at h)
  ]

  run_handshake-ok :
      (keys : Bytes → Result Bytes) (local : NodeConfig) (nonce : Result Bytes) (signed_at now : ℤ)
      (write_error : Option Error) (inbox outbox inn out : Bytes) (v' : Verifier)
      (state : HandshakeState)
      → run_handshake keys
          (verify_ed25519 e)
          alloc_limit
          local
          nonce
          signed_at
          now
          write_error
          inbox
          outbox
        ≡ (inn, out, v', ok state)
      → receive_hello keys (verify_ed25519 e) alloc_limit local now inbox ≡ (v', ok state)
  unfolding run_handshake
  run_handshake-ok keys local nonce signed_at now write_error inbox outbox inn out v' state h =
      elim (Result-cases (send_hello local nonce signed_at write_error outbox)) [
        | inr (inl (x, a)) ↦ ground (arith, a)
        | inr (inr a) ↦ ground (arith, a)
        | inl (out', a) ↦ ground (arith, a)
      ]

  -- The whole of `runHandshake`, with its result taken apart.
  abbrev ran :
      ConnConfig → Draws → QuicStream → Signer → Bytes × Bytes × Verifier × Result HandshakeState
  ran cfg d q signer =
      run_handshake (keys_of cfg) (verify_ed25519 e) alloc_limit (local_config cfg signer) d.nonce
        d.signed_at d.now d.write_error q.inbox q.outbox

  pub finish_handshake-ok :
      (c c' : Conn) (q : QuicStream) (cfg cfg' : ConnConfig) (r : Result HandshakeState)
      (state : HandshakeState)
      → finish_handshake c (q, cfg, r) ≡ (c', cfg', ok state)
      → (r ≡ ok state) × (cfg' ≡ cfg) × (c' ≡ record c { ctrl = some q; state = some state })
  unfolding finish_handshake
  finish_handshake-ok c c' q cfg cfg' (ok st) state h = ground arith
  finish_handshake-ok c c' q cfg cfg' (err x) state h = ground arith
  finish_handshake-ok c c' q cfg cfg' panic state h = ground arith

  pub handshake-Completed :
      (c c' : Conn) (cfg cfg' : ConnConfig) (d : Draws) (state : HandshakeState)
      → handshake platform e alloc_limit c cfg d ≡ (c', cfg', ok state)
      → Completed c cfg d cfg' state
  unfolding handshake run_with_defaults
  handshake-Completed c c' cfg cfg' d state h = elim (Option-cases c.state) [
    | inr (old, a) ↦ ground (arith, a)
    | inl a ↦ elim (Result-cases (control_stream c d)) [
      | inr (inl (x, b)) ↦ ground (arith, a, b)
      | inr (inr b) ↦ ground (arith, a, b)
      | inl (q, b) ↦ elim (Result-cases (signer_of platform e alloc_limit cfg d)) [
        | inr (inl (x, k)) ↦ ground (
          arith,
          (finish_handshake-ok c c' q cfg cfg' (err x) state
              (rw (a, b, k, handshake, run_with_defaults) at h)).0,
        )
        | inr (inr k) ↦ ground (
          arith,
          (finish_handshake-ok c c' q cfg cfg' panic state
              (rw (a, b, k, handshake, run_with_defaults) at h)).0,
        )
        | inl (signer, k) ↦
            let all = ran cfg d q signer in
            let (result, kept, _) =
              finish_handshake-ok c c' (record q { inbox = all.0; outbox = all.1 })
                (keep_verifier cfg all.2) cfg' all.3 state
                (rw (a, b, k, handshake, run_with_defaults) at h) in
            let whole : all ≡ (all.0, all.1, all.2, ok state) =
              ap (λ (r : Result HandshakeState). (all.0, all.1, all.2, r)) result in
            let heard =
              run_handshake-ok (keys_of cfg) (local_config cfg signer) d.nonce d.signed_at d.now
                d.write_error q.inbox q.outbox all.0 all.1 all.2 state whole in
            let (first, rest, received, accepted) =
              receive_hello-ok (keys_of cfg) (local_config cfg signer) d.now q.inbox all.2 state
                heard in
            record {
              fresh = a;
              stream = q;
              control = b;
              signer = signer;
              signs = k;
              first = first;
              rest = rest;
              received = received;
              verifier = all.2;
              accepted = accepted;
              kept = kept;
            }
      ]
    ]
  ]
