-- ===== src/Conn.antt =====
-- `Conn` of conn.go and handshake.go: a connection, its control stream, and `Handshake`. What QUIC,
-- the random generator and the clock give is an argument.
pub mod Meeting
pub mod Replayed
pub mod NoVerifier
pub mod State
use aire_go.Base.{
  if◌then◌else◌, Error, Result, ◌>>=◌, map_err, message, wrapf, ok, err, panic, ℕ, Bool, true,
  false, Option, none, some, List, [],
}
use aire_go.Base.Int.{ℤ}
use aire_go.Varint.{Bytes}
use aire_go.Verifier.{Verifier}
use aire_go.Frame.{Frame}
use aire_go.Keys.{Ed25519, verify_ed25519, new_ed25519_did_key_signer}
use aire_go.Capability.{Capability}
use aire_go.Addressing.{Platform, Resolver}
use aire_go.Handshake.{Signer, NodeConfig, HandshakeState, run_handshake}
use aire_go.Stream.{read_frame, send_frame}
use aire_go.Verifier.Time.{replay_window}
use aire_go.Keys.ResolveKey.{resolve_key}

-- A QUIC stream: its ID, what the peer still sends on it, what was written to it, and whether the
-- side that is written to is closed.
pub record QuicStream : Type 0 where
  pub stream_id : ℕ
  pub inbox : Bytes
  pub outbox : Bytes
  pub finished : Bool

-- `Verifier` with its field `Resolver`.
pub record KeyVerifier : Type 0 where
  pub verifier : Verifier
  pub resolver : Option Resolver

-- `NodeConfig`, whose signer and verifier may be nil.
pub record ConnConfig : Type 0 where
  pub signer : Option Signer
  pub key_verifier : Option KeyVerifier
  pub capabilities : List Capability

-- `closed` says that the QUIC connection was closed from this side.
pub record Conn : Type 0 where
  pub is_client : Bool
  pub ctrl : Option QuicStream
  pub state : Option HandshakeState
  pub closed : Bool

-- What one handshake draws from outside: the outcome of `OpenStreamSync` and of `AcceptStream`, of
-- `ed25519.GenerateKey` and of `rand.Read`, the error that `Write` of the control stream ends in, if any, and
-- the two readings of the clock.
pub record Draws : Type 0 where
  pub opened : Result QuicStream
  pub accepted : Result QuicStream
  pub generated : Result Bytes
  pub nonce : Result Bytes
  pub write_error : Option Error
  pub signed_at : ℤ
  pub now : ℤ

abbrev pub new_verifier : KeyVerifier
new_verifier = record { verifier = record { window = replay_window; cache = [] }; resolver = none }

-- `Dial` and `Listener.Accept`, behind the call of quic-go.
unfoldable pub dial : Result (Unit {0}) → Result Conn
dial dialled = do
  _ ← map_err (wrapf "aire: Dial") dialled
  ok (record { is_client = true; ctrl = none; state = none; closed = false })

unfoldable pub accept_connection : Result (Unit {0}) → Result Conn
accept_connection accepted = do
  _ ← map_err (wrapf "aire: Accept") accepted
  ok (record { is_client = false; ctrl = none; state = none; closed = false })

-- `SendFrame`; `write_error` is the error that `Write` of QUIC ends in, if any.
unfoldable pub send_on : Option Error → Frame → QuicStream → Result QuicStream
send_on write_error f s = do
  outbox ← send_frame f s.outbox
  elim write_error [
    | some e ↦ err (wrapf "aire: SendFrame" e)
    | none ↦ ok (record s { outbox = outbox })
  ]

-- `RecvFrame`
unfoldable pub recv_on : QuicStream → Result (Frame × QuicStream)
recv_on s = do (f, rest) ← read_frame s.inbox; ok (f, record s { inbox = rest })

unfoldable pub close_stream : QuicStream → QuicStream
close_stream s = record s { finished = true }

unfoldable pub close_conn : Conn → Conn
close_conn c = record c { closed = true }

unfoldable pub verifier_of : ConnConfig → KeyVerifier
verifier_of cfg = elim cfg.key_verifier [ some kv ↦ kv | none ↦ new_verifier ]

-- The caller's verifier behind the handshake; one that the handshake made is gone.
unfoldable pub keep_verifier : ConnConfig → Verifier → ConnConfig
keep_verifier cfg v = elim cfg.key_verifier [
  | none ↦ cfg
  | some kv ↦ record cfg { key_verifier = some (record kv { verifier = v }) }
]

-- What `Handshake` does behind the control stream.
unfoldable pub finish_handshake :
    Conn
    → QuicStream × ConnConfig × Result HandshakeState
    → Conn × ConnConfig × Result HandshakeState
finish_handshake c (ctrl, cfg, ok state) =
    (record c { ctrl = some ctrl; state = some state }, cfg, ok state)
finish_handshake c (ctrl, cfg, err x) = (record c { ctrl = some ctrl; closed = true }, cfg, err x)
finish_handshake c (ctrl, cfg, panic) = (record c { ctrl = some ctrl }, cfg, panic)

module _ (platform : Platform) (e : Ed25519) (alloc_limit : ℕ) where
  unfoldable pub ephemeral_signer : Draws → Result Signer
  ephemeral_signer d = do
    priv ← map_err (wrapf "aire: ephemeral signer") d.generated
    new_ed25519_did_key_signer e priv

  unfoldable pub signer_of : ConnConfig → Draws → Result Signer
  signer_of cfg d = elim cfg.signer [ some signer ↦ ok signer | none ↦ ephemeral_signer d ]

  -- `runHandshake` from its first line on.
  unfoldable pub run_with_defaults :
      ConnConfig → Draws → QuicStream → QuicStream × ConnConfig × Result HandshakeState
  run_with_defaults cfg d ctrl = elim (signer_of cfg d) [
    | err x ↦ (ctrl, cfg, err x)
    | panic ↦ (ctrl, cfg, panic)
    | ok signer ↦
        let kv = verifier_of cfg in
        let local : NodeConfig = record {
          signer = signer;
          verifier = kv.verifier;
          capabilities = cfg.capabilities;
        } in
        let ran =
          run_handshake (resolve_key platform kv.resolver) (verify_ed25519 e) alloc_limit local
            d.nonce d.signed_at d.now d.write_error ctrl.inbox ctrl.outbox in
        (record ctrl { inbox = ran.0; outbox = ran.1 }, keep_verifier cfg ran.2, ran.3)
  ]

  -- The connection, the caller's configuration and the result.
  unfoldable pub handshake : Conn → ConnConfig → Draws → Conn × ConnConfig × Result HandshakeState
  handshake c cfg d = elim c.state [
    | some _ ↦ (c, cfg, err (message "aire: handshake already completed"))
    | none ↦ elim (if c.is_client then d.opened else d.accepted) [
      | err x ↦ (close_conn c, cfg, err (wrapf "aire: handshake: control stream" x))
      | panic ↦ (c, cfg, panic)
      | ok qs ↦ finish_handshake c (run_with_defaults cfg d qs)
    ]
  ]
