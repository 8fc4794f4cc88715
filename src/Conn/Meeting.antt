-- ===== src/Conn/Meeting.antt =====
-- `Handshake` on the two ends of one connection.
use aire_go.Base.{
  length, All, Bool-cases, Result, ok, ℕ, ◌≤◌, ◌≡◌, refl, ap, ◌∙◌, inl, inr, false, none, some,
  List, [],
}
use aire_go.Base.Int.{IsI64}
use aire_go.Varint.{Bytes, max_varint}
use aire_go.Frame.Layout.{frame_bytes}
use aire_go.Stream.Sequence.{IsSendable}
use aire_go.Capability.{Capability, lookup, negotiate_capabilities}
use aire_go.Capability.Agreement.{negotiate_capabilities_symmetric}
use aire_go.Hello.RoundTrip.{IsAdvertisable}
use aire_go.Verifier.{Verifier}
use aire_go.Verifier.Time.{to_milli, is_stale}
use aire_go.Verifier.ReplayCache.{seen, nonces_of}
use aire_go.Addressing.{Platform}
use aire_go.Keys.{Ed25519, verify_ed25519, make_did_key, new_ed25519_did_key_signer}
use aire_go.Keys.ResolveKey.{resolve_key}
use aire_go.Keys.Signing.{IsKeyPair, new_ed25519_did_key_signer-IsHonest}
use aire_go.Handshake.{
  Signer, HandshakeState, NodeConfig, build_signed_hello, send_hello, receive_hello, run_handshake,
  unread,
}
use aire_go.Handshake.Honest.{IsHonest, hello_frame}
use aire_go.Handshake.Exchange
use aire_go.Conn.State.{control_stream}
use aire_go.Conn.{
  QuicStream, ConnConfig, Conn, Draws, verifier_of, keep_verifier, signer_of, finish_handshake,
  ephemeral_signer, run_with_defaults, handshake,
}

-- One end: what its `Handshake` is called on, the stream that it opens or accepts, what it draws, and
-- the private key behind its signer.
pub record Side : Type 0 where
  pub conn : Conn
  pub config : ConnConfig
  pub draws : Draws
  pub stream : QuicStream
  pub priv : Bytes
  pub signer : Signer
  pub nonce : Bytes

abbrev pub on_stream : Draws → QuicStream → Draws
on_stream d q = record d { opened = ok q; accepted = ok q }

module _ (platform : Platform) (e : Ed25519) (alloc_limit : ℕ) where
  -- `Handshake` on an end to which the peer sends `inbox`.
  abbrev pub handshake_on : Side → Bytes → Conn × ConnConfig × Result HandshakeState
  handshake_on p inbox =
      handshake platform e alloc_limit p.conn p.config
        (on_stream p.draws (record p.stream { inbox = inbox }))

  -- An end with a did:key, its own or one for the connection, whose HELLO fits in a frame.
  pub record IsReady (p : Side) (payload : Bytes) : Type 0 where
    pub fresh : p.conn.state ≡ none
    pub unwritten : p.stream.outbox ≡ []
    pub pair : IsKeyPair e p.priv
    pub made : new_ed25519_did_key_signer e p.priv ≡ ok p.signer
    pub chosen : signer_of platform e alloc_limit p.config p.draws ≡ ok p.signer
    pub drawn : p.draws.nonce ≡ ok p.nonce
    pub written : p.draws.write_error ≡ none
    pub nonce_length : length p.nonce ≡ 16
    pub time_fits : IsI64 (to_milli p.draws.signed_at)
    pub caps_fit : length p.config.capabilities ≤ max_varint
    pub caps_room : length p.config.capabilities ≤ alloc_limit
    pub advertisable : All IsAdvertisable p.config.capabilities
    pub built :
        build_signed_hello p.signer p.config.capabilities p.nonce p.draws.signed_at ≡ ok payload
    pub sendable : IsSendable (hello_frame payload)

  -- `q` accepts the timestamp and the nonce of `p`.
  pub record Accepts (q p : Side) : Type 0 where
    pub in_window :
        is_stale (verifier_of q.config).verifier.window q.draws.now (to_milli p.draws.signed_at)
        ≡ false
    pub new :
        seen p.nonce
          (nonces_of (make_did_key (e.public_key p.priv)) (verifier_of q.config).verifier.cache)
        ≡ false

  abbrev pub keys_for : Side → Bytes → Result Bytes
  keys_for q = resolve_key platform (verifier_of q.config).resolver

  abbrev pub local : Side → NodeConfig
  local p = record {
    signer = p.signer;
    verifier = (verifier_of p.config).verifier;
    capabilities = p.config.capabilities;
  }

  -- The state of an end whose peer is `p`.
  abbrev pub joined_with : Side → List Capability → HandshakeState
  joined_with p active = record {
    peer_node_id = make_did_key (e.public_key p.priv);
    negotiated_minor = 2;
    active_capabilities = active;
  }

  -- The connection of an end whose handshake has succeeded: it has read all that the peer sent.
  abbrev pub joined_conn : Side → Bytes → HandshakeState → Conn
  joined_conn p outbox state = record p.conn {
    ctrl = some (record p.stream { inbox = []; outbox = outbox });
    state = some state;
  }

  -- What `p` sends is right for `q`, whose resolver finds the key of a did:key without a lookup.
  module _ (p q : Side) (payload : Bytes) (r : IsReady p payload) (a : Accepts q p) where
    honest :
        (signer : Signer) × (signer ≡ p.signer)
        × (signer.did ≡ make_did_key (e.public_key p.priv))
        × IsHonest
            (keys_for q)
            (verify_ed25519 e)
            alloc_limit
            signer
            p.config.capabilities
            p.nonce
            p.draws.signed_at
    honest =
        let (signer, made, did, h) =
          new_ed25519_did_key_signer-IsHonest platform (verifier_of q.config).resolver e p.priv
            r.pair alloc_limit p.config.capabilities p.nonce p.draws.signed_at r.caps_fit
            r.caps_room r.advertisable r.nonce_length r.time_fits in
        (signer, cc (made, r.made), did, h)

    did_of : p.signer.did ≡ make_did_key (e.public_key p.priv)
    did_of = let (signer, same, did, h) = honest in rw same at did

    abbrev part_of : Side → Exchange.Part (keys_for q) (verify_ed25519 e) alloc_limit
    part_of s = record {
      config = local s;
      nonce = s.nonce;
      signed_at = s.draws.signed_at;
      now = s.draws.now;
    }

    reaches :
        Exchange.CanReach
          (keys_for q)
          (verify_ed25519 e)
          alloc_limit
          (part_of p)
          (part_of q)
          payload
    reaches =
        let (signer, same, did, h) = honest in
        record {
          honest = rw same at h;
          built = r.built;
          sendable = r.sendable;
          fresh = a.in_window;
          new = rw did_of a.new;
        }

    sends :
        send_hello (local p) (ok p.nonce) p.draws.signed_at none []
        ≡ ok (frame_bytes (hello_frame payload))
    sends =
        Exchange.send_hello-bytes (keys_for q) (verify_ed25519 e) alloc_limit (part_of p)
          (part_of q) payload reaches

    empties : unread (frame_bytes (hello_frame payload)) ≡ []
    empties =
        Exchange.unread-hello (keys_for q) (verify_ed25519 e) alloc_limit (part_of p) (part_of q)
          payload reaches

    hears :
        (active : List Capability)
        → negotiate_capabilities q.config.capabilities p.config.capabilities ≡ ok active
        → (v : Verifier) × (receive_hello
              (keys_for q)
              (verify_ed25519 e)
              alloc_limit
              (local q)
              q.draws.now
              (frame_bytes (hello_frame payload))
            ≡ (v, ok (joined_with p active)))
    hears active agreed =
        let got =
          Exchange.receive_hello-bytes (keys_for q) (verify_ed25519 e) alloc_limit (part_of p)
            (part_of q) payload reaches active agreed in
        (_, rw did_of at got)

  signer_of-on_stream :
      (cfg : ConnConfig) (d : Draws) (q : QuicStream)
      → signer_of platform e alloc_limit cfg (on_stream d q)
        ≡ signer_of platform e alloc_limit cfg d
  unfolding signer_of ephemeral_signer
  signer_of-on_stream cfg d q = refl

  control-on_stream :
      (c : Conn) (d : Draws) (q : QuicStream) → control_stream c (on_stream d q) ≡ ok q
  control-on_stream c d q = elim (Bool-cases c.is_client) [ inl t ↦ rw t refl | inr f ↦ rw f refl ]

  -- `runHandshake` on `p`, where what it sends and what it hears are known.
  run_with_defaults-steps :
      (p : Side) (payload inbox outbox : Bytes) (v : Verifier) (state : HandshakeState)
      → IsReady p payload
      → send_hello (local p) (ok p.nonce) p.draws.signed_at none [] ≡ ok outbox
      → receive_hello (keys_for p) (verify_ed25519 e) alloc_limit (local p) p.draws.now inbox
        ≡ (v, ok state)
      → unread inbox ≡ []
      → run_with_defaults platform e alloc_limit p.config
          (on_stream p.draws (record p.stream { inbox = inbox }))
          (record p.stream { inbox = inbox })
        ≡ (record p.stream { inbox = []; outbox = outbox }, keep_verifier p.config v, ok state)
  unfolding run_with_defaults run_handshake
  run_with_defaults-steps p payload inbox outbox v state r sent heard empty =
      let q = record p.stream { inbox = inbox } in
      let chosen = signer_of-on_stream p.config p.draws q ∙ r.chosen in
      rw
        (
          chosen, run_with_defaults, r.drawn, r.written, r.unwritten, sent, heard, empty,
          run_handshake,
        )
        refl

  handshake_on-steps :
      (p : Side) (payload inbox outbox : Bytes) (v : Verifier) (state : HandshakeState)
      → IsReady p payload
      → send_hello (local p) (ok p.nonce) p.draws.signed_at none [] ≡ ok outbox
      → receive_hello (keys_for p) (verify_ed25519 e) alloc_limit (local p) p.draws.now inbox
        ≡ (v, ok state)
      → unread inbox ≡ []
      → handshake_on p inbox ≡ (joined_conn p outbox state, keep_verifier p.config v, ok state)
  unfolding handshake finish_handshake
  handshake_on-steps p payload inbox outbox v state r sent heard empty =
      let q = record p.stream { inbox = inbox } in
      let opened = control-on_stream p.conn p.draws q in
      let ran = run_with_defaults-steps p payload inbox outbox v state r sent heard empty in
      rw (r.fresh, handshake) (rw (opened, handshake) (ap (finish_handshake p.conn) ran))

  -- Two connections meet: where each end has a did:key of its own, in its configuration or made for the
  -- connection, and its HELLO fits in a frame, no `Write` of the HELLO fails, each accepts the other's timestamp and has not seen
  -- its nonce, and the negotiation succeeds, `Handshake` succeeds on both ends on what the other has
  -- sent, whatever resolver their verifiers have, and reads all of it. Each connection then names the other's did:key,
  -- that of the public key, with minor version 2, and the active capabilities of the two are
  -- the same for every name.
  pub handshake_agrees :
      (p q : Side) (from_p from_q : Bytes) (active : List Capability)
      → IsReady p from_p
      → IsReady q from_q
      → Accepts p q
      → Accepts q p
      → negotiate_capabilities p.config.capabilities q.config.capabilities ≡ ok active
      → (sent_p : Bytes) × (sent_q : Bytes) × (vp : Verifier) × (vq : Verifier) × (theirs : List
          Capability)
        × (handshake_on p sent_q ≡ (
          joined_conn p sent_p (joined_with q active),
          keep_verifier p.config vp,
          ok (joined_with q active),
        ))
        × (handshake_on q sent_p ≡ (
          joined_conn q sent_q (joined_with p theirs),
          keep_verifier q.config vq,
          ok (joined_with p theirs),
        ))
        × ((name : Bytes) → lookup name active ≡ lookup name theirs)
  handshake_agrees p q from_p from_q active rp rq pq qp agreed =
      let (theirs, agreed', same) =
        negotiate_capabilities_symmetric p.config.capabilities q.config.capabilities active
          agreed in
      let (vp, p_hears) = hears q p from_q rq pq active agreed in
      let (vq, q_hears) = hears p q from_p rp qp theirs agreed' in
      (
        frame_bytes (hello_frame from_p),
        frame_bytes (hello_frame from_q),
        vp,
        vq,
        theirs,
        handshake_on-steps p from_p _ _ vp (joined_with q active) rp (sends p q from_p rp qp)
            p_hears (empties q p from_q rq pq),
        handshake_on-steps q from_q _ _ vq (joined_with p theirs) rq (sends q p from_q rq pq)
            q_hears (empties p q from_p rp qp),
        same,
      )
