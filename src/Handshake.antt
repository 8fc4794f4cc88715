-- ===== src/Handshake.antt =====
-- `buildSignedHello` and `runHandshake` of handshake.go, for a node whose signer and verifier are
-- given. The clock, the random nonce, the resolution of keys, the Ed25519 check and the room that
-- `make` has are arguments.
pub mod Accept
pub mod Honest
pub mod Exchange
pub mod Unsigned
use aire_go.Base.{
  ltb, leb, ◌==◌, if◌then◌else◌, length, take, Result, ◌>>=◌, map_err, bad_signature, key_mismatch,
  incompatible_version, malformed_hello, protocol_violation, sentinel, wrapf, ok, err, panic, ℕ,
  ◌-◌, Bool, not, Error, Option, none, some, List, [], ◌++◌,
}
use aire_go.Base.Int.{ℤ}
use aire_go.Base.Text.{has_prefix, codes, bytes_eq}
use aire_go.Varint.{Bytes}
use aire_go.Frame.{Frame, frame_hello}
use aire_go.Stream.{send_frame, read_frame}
use aire_go.Capability.{Capability, negotiate_capabilities}
use aire_go.Signature.{
  SignatureBlock, sig_alg_ed25519, encode_block, decode_block, signed_message_bytes,
}
use aire_go.Verifier.{Verifier, verify, before_hash}
use aire_go.Verifier.Time.{to_milli}
use aire_go.Hello.{Version, encode_hello_inner, malformed, decode_hello_payload}

abbrev pub current_version : Version
current_version = record { major = 0; minor = 2 }

pub record Signer : Type 0 where
  pub did : Bytes
  pub vmid : Bytes
  pub sign : Bytes → Bytes

pub record NodeConfig : Type 0 where
  pub signer : Signer
  pub verifier : Verifier
  pub capabilities : List Capability

pub record HandshakeState : Type 0 where
  pub peer_node_id : Bytes
  pub negotiated_minor : ℕ
  pub active_capabilities : List Capability

-- The block before it is signed.
abbrev pub unsigned_block : Signer → Bytes → ℤ → SignatureBlock
unsigned_block signer nonce signed_at = record {
  algorithm = sig_alg_ed25519;
  vmid = signer.vmid;
  nonce = nonce;
  timestamp_ms = to_milli signed_at;
  signature = [];
}

unfoldable pub build_signed_hello : Signer → List Capability → Bytes → ℤ → Result Bytes
build_signed_hello signer caps nonce signed_at = do
  inner ← encode_hello_inner current_version signer.did caps
  let block = unsigned_block signer nonce signed_at
  signed_message ← signed_message_bytes frame_hello inner block
  trailer ← encode_block (record block { signature = signer.sign signed_message })
  ok (inner ++ trailer)

-- `local.Signer` and the first frame that is sent: the control stream with the HELLO behind it.
-- `write_error` is the error that `Write` of the control stream ends in, if any.
unfoldable pub send_hello : NodeConfig → Result Bytes → ℤ → Option Error → Bytes → Result Bytes
send_hello local nonce signed_at write_error outbox = do
  n ← map_err (wrapf "aire: handshake: nonce") nonce
  payload ← build_signed_hello local.signer local.capabilities n signed_at
  outbox' ←
      send_frame (record { type = frame_hello; flags = 0; op_id = 0; payload = payload }) outbox
  elim write_error [
    | none ↦ ok outbox'
    | some e ↦ err (wrapf "aire: handshake: send HELLO" (wrapf "aire: SendFrame" e))
  ]

-- What the control stream still holds behind the frame that was read from it.
unfoldable pub unread : Bytes → Bytes
unread inbox = elim (read_frame inbox) [ ok (_, rest) ↦ rest | err _ ↦ inbox | panic ↦ inbox ]

module _ (resolve_key : Bytes → Result Bytes) (ed25519_verify : Bytes → Bytes → Bytes → Bool)
    (alloc_limit : ℕ) where
  -- The block and the message that it covers, up to the call of `Verify`.
  pub check_block : Verifier → ℤ → Bytes → Bytes → SignatureBlock → Verifier × Result (Unit {0})
  check_block v now inner node_id block =
      if not (bytes_eq (before_hash block.vmid) node_id)
      then (v, err (wrapf "VMID DID != NodeID" (sentinel key_mismatch)))
      else elim (signed_message_bytes frame_hello inner block) [
        | err e ↦ (v, err e)
        | panic ↦ (v, panic)
        | ok signed_message ↦ verify resolve_key ed25519_verify v now block signed_message
      ]

  -- What a peer of minor version 2 or more must show.
  pub check_signer : Verifier → ℤ → Bytes → Bytes → Bytes → Verifier × Result (Unit {0})
  unfolding check_block
  check_signer v now payload node_id trailing =
      if not (has_prefix (codes "did:") node_id)
      then (v, err (wrapf "NodeID is not a DID" (sentinel malformed_hello)))
      else if length trailing == 0
      then (v, err (wrapf "v0.2 HELLO missing signature block" (sentinel bad_signature)))
      else elim (map_err (malformed "signature block") (decode_block trailing)) [
        | err e ↦ (v, err e)
        | panic ↦ (v, panic)
        | ok (block, _) ↦
            check_block v now (take (length payload - length trailing) payload) node_id block
      ]

  -- The capabilities, behind the check of the signature.
  pub conclude :
      NodeConfig
      → Version
      → Bytes
      → List Capability
      → Verifier × Result (Unit {0})
      → Verifier × Result HandshakeState
  conclude local ver node_id caps checked = (
    checked.0,
    do
      _ ← checked.1
      active ← negotiate_capabilities local.capabilities caps
      ok (record {
        peer_node_id = node_id;
        negotiated_minor =
            if ltb ver.minor current_version.minor then ver.minor else current_version.minor;
        active_capabilities = active;
      }),
  )

  -- What follows the decoding of the payload.
  pub accept_fields :
      NodeConfig
      → ℤ
      → Bytes
      → Result (Version × Bytes × List Capability × Bytes)
      → Verifier × Result HandshakeState
  unfolding conclude check_signer
  accept_fields local now payload (err e) = (local.verifier, err e)
  accept_fields local now payload panic = (local.verifier, panic)
  accept_fields local now payload (ok (ver, node_id, caps, trailing)) =
      if not (ver.major == current_version.major)
      then (local.verifier, err (wrapf "peer major" (sentinel incompatible_version)))
      else conclude local ver node_id caps (
          if leb 2 ver.minor
          then check_signer local.verifier now payload node_id trailing
          else (local.verifier, ok tt))

  -- The first frame of the peer.
  unfoldable pub accept_hello : NodeConfig → ℤ → Frame → Verifier × Result HandshakeState
  unfolding accept_fields
  accept_hello local now f =
      if not (f.type == frame_hello)
      then (local.verifier, err (wrapf "expected HELLO" (sentinel protocol_violation)))
      else if not (f.op_id == 0)
      then (local.verifier, err (wrapf "HELLO had non-zero OpID" (sentinel protocol_violation)))
      else accept_fields local now f.payload (decode_hello_payload alloc_limit f.payload)

  unfoldable pub receive_hello : NodeConfig → ℤ → Bytes → Verifier × Result HandshakeState
  receive_hello local now inbox =
      elim (map_err (wrapf "aire: handshake: recv first frame") (read_frame inbox)) [
        | err e ↦ (local.verifier, err e)
        | panic ↦ (local.verifier, panic)
        | ok (f, _) ↦ accept_hello local now f
      ]

  -- The two directions of the control stream, what is left to read and what was written, the state of the
  -- verifier, and the result. `inbox` is what the peer sends on the control stream, `signed_at` and
  -- `now` are the two readings of the clock.
  unfoldable pub run_handshake :
      NodeConfig
      → Result Bytes
      → ℤ
      → ℤ
      → Option Error
      → Bytes
      → Bytes
      → Bytes × Bytes × Verifier × Result HandshakeState
  run_handshake local nonce signed_at now write_error inbox outbox =
      elim (send_hello local nonce signed_at write_error outbox) [
        | err e ↦ (inbox, outbox, local.verifier, err e)
        | panic ↦ (inbox, outbox, local.verifier, panic)
        | ok outbox' ↦
            let received = receive_hello local now inbox in
            (unread inbox, outbox', received.0, received.1)
      ]
