-- ===== src/Conn/NoVerifier.antt =====
-- `Handshake` with a configuration that has no verifier.
use aire_go.Base.{
  err, panic, Error, Option, Result, ok, ℕ, ◌≡◌, refl, sym, ap, ◌∙◌, subst, none, some,
}
use aire_go.Base.Int.{ℤ}
use aire_go.Conn.{
  QuicStream, ConnConfig, Conn, Draws, handshake, keep_verifier, finish_handshake, signer_of,
  run_with_defaults,
}
use aire_go.Keys.{Ed25519, verify_ed25519}
use aire_go.Addressing.{Platform}
use aire_go.Handshake.{
  Signer, HandshakeState, accept_hello, receive_hello, send_hello, run_handshake, unread,
}
use aire_go.Conn.State.{control_stream, handshake-Completed, local_config, keys_of}
use aire_go.Verifier.{Verifier}
use aire_go.Frame.{Frame}
use aire_go.Stream.{read_frame}
use aire_go.Varint.{Bytes}

fresh_state :
    {A : Type 0} (state : Option HandshakeState)
    → state ≡ none
    → (x y : A) → elim state [ some _ ↦ x | none ↦ y ] ≡ y
fresh_state state h x y = rw h refl

chosen_stream :
    {A : Type 0} (r : Result QuicStream) (q : QuicStream)
    → r ≡ ok q
    → (f : Error → A) (p : A) (g : QuicStream → A)
    → elim r [ err x ↦ f x | panic ↦ p | ok qs ↦ g qs ] ≡ g q
chosen_stream r q h f p g = rw h refl

keep_verifier-none :
    (cfg : ConnConfig) (v : Verifier) → cfg.key_verifier ≡ none → keep_verifier cfg v ≡ cfg
unfolding keep_verifier
keep_verifier-none cfg v h = rw h refl

module _ (platform : Platform) (e : Ed25519) (alloc_limit : ℕ) where
  -- Whether a HELLO is accepted does not depend on the signer of the one who accepts it.
  accept_hello-signer :
      (cfg : ConnConfig) (s1 s2 : Signer) (now : ℤ) (f : Frame)
      → accept_hello
          (keys_of platform e alloc_limit cfg)
          (verify_ed25519 e)
          alloc_limit
          (local_config platform e alloc_limit cfg s1)
          now
          f
        ≡ accept_hello
            (keys_of platform e alloc_limit cfg)
            (verify_ed25519 e)
            alloc_limit
            (local_config platform e alloc_limit cfg s2)
            now
            f
  unfolding accept_hello
  accept_hello-signer cfg s1 s2 now f = refl

  -- What this side needs for a handshake, whatever the peer sends: a connection that is new, the control
  -- stream, a signer, and a HELLO that it builds and writes.
  pub record CanGreet (c : Conn) (cfg : ConnConfig) (d : Draws) : Type 0 where
    pub fresh : c.state ≡ none
    pub stream : QuicStream
    pub control : control_stream c d ≡ ok stream
    pub signer : Signer
    pub signs : signer_of platform e alloc_limit cfg d ≡ ok signer
    pub outbox : Bytes
    pub greets :
        send_hello
          (local_config platform e alloc_limit cfg signer)
          d.nonce
          d.signed_at
          d.write_error
          stream.outbox
        ≡ ok outbox

  handshake-stream :
      (c : Conn) (cfg : ConnConfig) (d : Draws) (q : QuicStream)
      → c.state ≡ none
      → control_stream c d ≡ ok q
      → handshake platform e alloc_limit c cfg d
        ≡ finish_handshake c (run_with_defaults platform e alloc_limit cfg d q)
  unfolding handshake
  handshake-stream c cfg d q fresh control =
      fresh_state c.state fresh _ _ ∙ chosen_stream (control_stream c d) q control _ _ _

  receive_hello-frame :
      (cfg : ConnConfig) (signer other : Signer) (now : ℤ) (inbox rest : Bytes) (f : Frame)
      (r : Verifier × Result HandshakeState)
      → read_frame inbox ≡ ok (f, rest)
      → accept_hello
          (keys_of platform e alloc_limit cfg)
          (verify_ed25519 e)
          alloc_limit
          (local_config platform e alloc_limit cfg other)
          now
          f
        ≡ r
      → receive_hello
          (keys_of platform e alloc_limit cfg)
          (verify_ed25519 e)
          alloc_limit
          (local_config platform e alloc_limit cfg signer)
          now
          inbox
        ≡ r
  unfolding receive_hello
  receive_hello-frame cfg signer other now inbox rest f r read accepted =
      rw (read, receive_hello) (accept_hello-signer cfg signer other now f ∙ accepted)

  -- A handshake whose own HELLO is out takes over what the peer's gives.
  handshake-heard :
      (c : Conn) (cfg : ConnConfig) (d : Draws) (g : CanGreet c cfg d) (v : Verifier)
      (s : HandshakeState)
      → receive_hello
          (keys_of platform e alloc_limit cfg)
          (verify_ed25519 e)
          alloc_limit
          (local_config platform e alloc_limit cfg g.signer)
          d.now
          g.stream.inbox
        ≡ (v, ok s)
      → (c' : Conn) × (handshake platform e alloc_limit c cfg d ≡ (c', keep_verifier cfg v, ok s))
  unfolding run_with_defaults run_handshake finish_handshake
  handshake-heard c cfg d g v s heard =
      let q' = record g.stream { inbox = unread g.stream.inbox; outbox = g.outbox } in
      let ran : run_with_defaults platform e alloc_limit cfg d g.stream
          ≡ (q', keep_verifier cfg v, ok s) =
        rw (g.signs, run_with_defaults, g.greets, heard, run_handshake) refl in
      (
        record c { ctrl = some q'; state = some s },
        handshake-stream c cfg d g.stream g.fresh g.control ∙ ap (finish_handshake c) ran,
      )

  -- Without a verifier nothing is remembered: a handshake that succeeds leaves the configuration as it
  -- was, and the same bytes of the peer, on another connection that is new, whatever key, nonce, clock of
  -- signing and stream this side has there, if only its own HELLO is built and written, are
  -- accepted again at the same clock, with the same state, signed or not.
  pub handshake_nil_verifier :
      (c1 c1' c2 : Conn) (cfg cfg' : ConnConfig) (d1 d2 : Draws) (q1 : QuicStream)
      (s : HandshakeState) (g : CanGreet c2 cfg d2)
      → cfg.key_verifier ≡ none
      → handshake platform e alloc_limit c1 cfg d1 ≡ (c1', cfg', ok s)
      → control_stream c1 d1 ≡ ok q1
      → g.stream.inbox ≡ q1.inbox
      → d2.now ≡ d1.now
      → (cfg' ≡ cfg)
        × ((c2' : Conn) × (handshake platform e alloc_limit c2 cfg' d2 ≡ (c2', cfg', ok s)))
  handshake_nil_verifier c1 c1' c2 cfg cfg' d1 d2 q1 s g none_set h control same_bytes same_clock =
      let k = handshake-Completed platform e alloc_limit c1 c1' cfg cfg' d1 s h in
      let left : cfg' ≡ cfg = k.kept ∙ keep_verifier-none cfg k.verifier none_set in
      let bytes : k.stream.inbox ≡ g.stream.inbox = cc (k.control, control, same_bytes) in
      let heard =
        receive_hello-frame cfg g.signer k.signer d2.now g.stream.inbox k.rest k.first
          (k.verifier, ok s) (rw bytes at k.received) (rw same_clock k.accepted) in
      let (c2', again) = handshake-heard c2 cfg d2 g k.verifier s heard in
      let whole : handshake platform e alloc_limit c2 cfg d2 ≡ (c2', cfg, ok s) =
        again
        ∙ ap (λ (z : ConnConfig). (c2', z, ok s)) (keep_verifier-none cfg k.verifier none_set) in
      (
        left,
        subst (λ z. (c : Conn) × (handshake platform e alloc_limit c2 z d2 ≡ (c, z, ok s)))
            (sym left) (c2', whole),
      )
