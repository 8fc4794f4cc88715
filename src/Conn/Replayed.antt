-- ===== src/Conn/Replayed.antt =====
-- One HELLO on two connections.
use aire_go.Base.{
  Result, ok, ℕ, ◌-◌, ◌^◌, ◌<◌, min, ◌≡◌, refl, sym, ap, ◌∙◌, subst, Bool, some, arith,
}
use aire_go.Base.Int.{ℤ}
use aire_go.Conn.{
  QuicStream, KeyVerifier, ConnConfig, Conn, Draws, handshake, verifier_of, keep_verifier,
}
use aire_go.Keys.{Ed25519, verify_ed25519}
use aire_go.Addressing.{Platform}
use aire_go.Handshake.{HandshakeState, NodeConfig, accept_hello}
use aire_go.Conn.State.{control_stream, handshake-Completed, local_config, keys_of}
use aire_go.Hello.{Version}
use aire_go.Verifier.{Verifier, verify}
use aire_go.Frame.{Frame}
use aire_go.Varint.{Bytes}
use aire_go.Verifier.Replay.{verify_replay_next}
use aire_go.Verifier.Steps.{Accepted-verify}
use aire_go.Handshake.Accept.{IsAccepted, accept_hello-IsAccepted, accept_hello-IsAuthentic}
use aire_go.Keys.ResolveKey.{resolve_key}

verifier_of-some :
    (cfg : ConnConfig) (kv : KeyVerifier) → cfg.key_verifier ≡ some kv → verifier_of cfg ≡ kv
unfolding verifier_of
verifier_of-some cfg kv h = rw h refl

keep_verifier-some :
    (cfg : ConnConfig) (kv : KeyVerifier) (v : Verifier)
    → cfg.key_verifier ≡ some kv
    → keep_verifier cfg v ≡ record cfg { key_verifier = some (record kv { verifier = v }) }
unfolding keep_verifier
keep_verifier-some cfg kv v h = rw h refl

module _ (keys : Bytes → Result Bytes) (ed25519_verify : Bytes → Bytes → Bytes → Bool)
    (alloc_limit : ℕ) where
  -- What one frame says is the same whoever reads it.
  same_fields :
      (l1 l2 : NodeConfig) (t1 t2 : ℤ) (f : Frame) (v1 v2 : Verifier) (s1 s2 : HandshakeState)
      (a : IsAccepted keys ed25519_verify alloc_limit l1 t1 f v1 s1)
      (b : IsAccepted keys ed25519_verify alloc_limit l2 t2 f v2 s2)
      → (a.version ≡ b.version) × (a.trailing ≡ b.trailing)
  same_fields l1 l2 t1 t2 f v1 v2 s1 s2 a b =
      let same : ok (a.version, s1.peer_node_id, a.caps, a.trailing)
          ≡ ok (b.version, s2.peer_node_id, b.caps, b.trailing) =
        sym a.payload_read ∙ b.payload_read in
      ground (arith, same)

  -- The frame is accepted once only, where the second reader has the verifier of the first.
  accept_hello_once :
      (l1 l2 : NodeConfig) (t1 t2 : ℤ) (f : Frame) (v2 : Verifier) (s1 s2 : HandshakeState)
      → l1.verifier.window < 2 ^ 63 - 1
      → accept_hello keys ed25519_verify alloc_limit l1 t1 f ≡ (l2.verifier, ok s1)
      → s1.negotiated_minor ≡ 2
      → accept_hello keys ed25519_verify alloc_limit l2 t2 f ≡ (v2, ok s2)
      → ⊥
  accept_hello_once l1 l2 t1 t2 f v2 s1 s2 window h1 two h2 =
      let a =
        accept_hello-IsAuthentic keys ed25519_verify alloc_limit l1 t1 f l2.verifier s1 h1 two in
      let c = accept_hello-IsAccepted keys ed25519_verify alloc_limit l2 t2 f v2 s2 h2 in
      let (ver, _) = same_fields l1 l2 t1 t2 f l2.verifier v2 s1 s2 a.hello c in
      let again : s2.negotiated_minor ≡ 2 =
        c.minor ∙ sym (ap (λ (v : Version). min v.minor 2) ver) ∙ sym a.hello.minor ∙ two in
      let b = accept_hello-IsAuthentic keys ed25519_verify alloc_limit l2 t2 f v2 s2 h2 again in
      let (_, trail) = same_fields l1 l2 t1 t2 f l2.verifier v2 s1 s2 a.hello b.hello in
      let blocks : a.block ≡ b.block = cc (a.block_read, b.block_read, trail) in
      let first : verify keys ed25519_verify l1.verifier t1 a.block a.signed_message
          ≡ (l2.verifier, ok tt) =
        Accepted-verify keys ed25519_verify l1.verifier t1 a.block a.signed_message a.verified
        ∙ ap (λ (v : Verifier). (v, ok tt)) (rw a.same_did (sym a.recorded)) in
      let second : (verify keys ed25519_verify l2.verifier t2 a.block b.signed_message).1 ≡ ok tt =
        rw blocks (
          ap (λ r. r.1)
            (Accepted-verify keys ed25519_verify l2.verifier t2 b.block b.signed_message
              b.verified)) in
      verify_replay_next keys ed25519_verify l1.verifier l2.verifier t1 t2 a.block a.signed_message
        b.signed_message window first second

module _ (platform : Platform) (e : Ed25519) (alloc_limit : ℕ) where
  -- A signed HELLO that a connection has accepted is refused on the next one of the same caller:
  -- for a caller that has a verifier, with a window below the greatest int64, once a handshake has
  -- succeeded with minor version 2, the next handshake with the configuration that it leaves
  -- behind, on any connection and at any clock, does not succeed on a control stream with the same
  -- bytes.
  pub handshake_replay_refused :
      (c1 c2 c1' : Conn) (cfg cfg1 : ConnConfig) (d1 d2 : Draws) (q1 q2 : QuicStream)
      (s1 : HandshakeState) (kv : KeyVerifier)
      → cfg.key_verifier ≡ some kv
      → kv.verifier.window < 2 ^ 63 - 1
      → control_stream c1 d1 ≡ ok q1
      → control_stream c2 d2 ≡ ok q2
      → q1.inbox ≡ q2.inbox
      → handshake platform e alloc_limit c1 cfg d1 ≡ (c1', cfg1, ok s1)
      → s1.negotiated_minor ≡ 2
      → ¬ ((s2 : HandshakeState) × ((handshake platform e alloc_limit c2 cfg1 d2).2 ≡ ok s2))
  unfolding verifier_of
  handshake_replay_refused c1 c2 c1' cfg cfg1 d1 d2 q1 q2 s1 kv has window o1 o2 same h1 two
        (s2, good) =
      let r2 = handshake platform e alloc_limit c2 cfg1 d2 in
      let h2 : r2 ≡ (r2.0, r2.1, ok s2) =
        ap (λ (r : Result HandshakeState). (r2.0, r2.1, r)) good in
      let k1 = handshake-Completed platform e alloc_limit c1 c1' cfg cfg1 d1 s1 h1 in
      let k2 = handshake-Completed platform e alloc_limit c2 r2.0 cfg1 r2.1 d2 s2 h2 in
      let after : ConnConfig = record cfg {
        key_verifier = some (record kv { verifier = k1.verifier });
      } in
      let left : cfg1 ≡ after = k1.kept ∙ keep_verifier-some cfg kv k1.verifier has in
      let streams : k1.stream.inbox ≡ k2.stream.inbox = cc (k1.control, k2.control, o1, o2, same) in
      let one_frame : k1.first ≡ k2.first = cc (k1.received, k2.received, streams) in
      let first =
        subst
          (λ c.
            accept_hello (resolve_key platform c.resolver) (verify_ed25519 e) alloc_limit
              (record {
                signer = k1.signer;
                verifier = c.verifier;
                capabilities = cfg.capabilities;
              })
              d1.now k1.first
            ≡ (k1.verifier, ok s1))
          (verifier_of-some cfg kv has) k1.accepted in
      let second =
        subst
          (λ c.
            accept_hello (keys_of platform e alloc_limit c) (verify_ed25519 e) alloc_limit
              (local_config platform e alloc_limit c k2.signer) d2.now k2.first
            ≡ (k2.verifier, ok s2))
          left k2.accepted in
      accept_hello_once (resolve_key platform kv.resolver) (verify_ed25519 e) alloc_limit
        (record { signer = k1.signer; verifier = kv.verifier; capabilities = cfg.capabilities })
        (local_config platform e alloc_limit after k2.signer) d1.now d2.now k1.first k2.verifier s1
        s2 window first two (rw (sym one_frame) at second)
