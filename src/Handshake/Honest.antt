-- ===== src/Handshake/Honest.antt =====
-- A HELLO that `buildSignedHello` built is accepted by the peer.
use aire_go.Base.{
  ◌==◌, ne→==, length, take, length-append, take-append, All, Result, ok, ℕ, ◌-◌, ◌≤◌, ◌≡◌, refl,
  sym, ◌∙◌, subst, ◌≢◌, Bool, true, false, List, [], ◌∷◌, ◌++◌, append-nil, arith,
}
use aire_go.Base.Int.{ℤ, IsI64}
use aire_go.Base.Text.{has_prefix, codes, bytes_eq, bytes_eq_self}
use aire_go.Varint.{Bytes, max_varint}
use aire_go.Frame.{Frame, frame_hello}
use aire_go.Capability.{Capability, negotiate_capabilities}
use aire_go.Signature.{SignatureBlock, domain_separator, decode_block}
use aire_go.Signature.RoundTrip.{
  IsBlock, covered_bytes, signed_message_bytes-covered_bytes, block_bytes, encode_block-bytes,
  decode_block-bytes,
}
use aire_go.Verifier.{before_hash, remember, verify}
use aire_go.Verifier.Time.{to_milli, is_stale}
use aire_go.Hello.{decode_hello_payload}
use aire_go.Handshake.{
  current_version, Signer, unsigned_block, build_signed_hello, NodeConfig, check_block,
  check_signer, conclude, accept_fields, accept_hello,
}
use aire_go.Hello.RoundTrip.{
  IsAdvertisable, hello_bytes, encode_hello_inner-bytes, decode_hello_payload-hello_bytes,
}
use aire_go.Verifier.ReplayCache.{seen, nonces_of}
use aire_go.Verifier.Steps.{verify_new, check_signature-signed}

abbrev pub hello_frame : Bytes → Frame
hello_frame payload = record { type = frame_hello; flags = 0; op_id = 0; payload = payload }

did-ne-nil : (did : Bytes) → has_prefix (codes "did:") did ≡ true → did ≢ []
unfolding has_prefix
did-ne-nil [] h = cc
did-ne-nil (c ∷ did) h = λ e. cc

module _ (resolve_key : Bytes → Result Bytes) (ed25519_verify : Bytes → Bytes → Bytes → Bool)
    (alloc_limit : ℕ) where
  -- A node whose VMID belongs to its DID and resolves to a key that verifies its signatures, and
  -- whose advertisement fits.
  pub record IsHonest (signer : Signer) (caps : List Capability) (nonce : Bytes) (signed_at : ℤ)
      : Type 0 where
    pub did_fits : length signer.did ≤ max_varint
    pub vmid_fits : length signer.vmid ≤ max_varint
    pub caps_fit : length caps ≤ max_varint
    pub caps_room : length caps ≤ alloc_limit
    pub advertisable : All IsAdvertisable caps
    pub nonce_length : length nonce ≡ 16
    pub time_fits : IsI64 (to_milli signed_at)
    pub is_did : has_prefix (codes "did:") signer.did ≡ true
    pub own_vmid : before_hash signer.vmid ≡ signer.did
    pub key : Bytes
    pub key_found : resolve_key signer.vmid ≡ ok key
    pub signs : (m : Bytes) → ed25519_verify key m (signer.sign m) ≡ true
    pub signature_fits : (m : Bytes) → length (signer.sign m) ≤ max_varint

  module _ (signer : Signer) (caps : List Capability) (nonce : Bytes) (signed_at : ℤ)
      (h : IsHonest signer caps nonce signed_at) where
    abbrev pub inner_bytes : Bytes
    inner_bytes = hello_bytes current_version signer.did caps

    pub unsigned-IsBlock : IsBlock (unsigned_block signer nonce signed_at)
    unsigned-IsBlock = record {
      vmid_fits = h.vmid_fits;
      nonce_length = h.nonce_length;
      timestamp_fits = h.time_fits;
      signature_fits = omega arith;
    }

    abbrev pub hello_message : Bytes
    hello_message =
        ((domain_separator ++ frame_hello ∷ []) ++ inner_bytes)
        ++ covered_bytes (unsigned_block signer nonce signed_at) unsigned-IsBlock

    abbrev pub signed_block : SignatureBlock
    signed_block = record (unsigned_block signer nonce signed_at) {
      signature = signer.sign hello_message;
    }

    signed-IsBlock : IsBlock signed_block
    signed-IsBlock = record {
      vmid_fits = h.vmid_fits;
      nonce_length = h.nonce_length;
      timestamp_fits = h.time_fits;
      signature_fits = h.signature_fits hello_message;
    }

    abbrev trailer_bytes : Bytes
    trailer_bytes = block_bytes signed_block signed-IsBlock

    build_signed_hello-bytes :
        build_signed_hello signer caps nonce signed_at ≡ ok (inner_bytes ++ trailer_bytes)
    unfolding build_signed_hello
    build_signed_hello-bytes =
        rw
          (
            encode_hello_inner-bytes current_version signer.did (omega arith) (omega arith)
                h.did_fits caps h.caps_fit h.advertisable,
            signed_message_bytes-covered_bytes (unsigned_block signer nonce signed_at)
                unsigned-IsBlock frame_hello inner_bytes,
            encode_block-bytes signed_block signed-IsBlock,
          )
          refl

    decode-built :
        decode_hello_payload alloc_limit (inner_bytes ++ trailer_bytes)
        ≡ ok (current_version, signer.did, caps, trailer_bytes)
    decode-built =
        decode_hello_payload-hello_bytes current_version signer.did (omega arith) (omega arith)
          h.did_fits alloc_limit caps trailer_bytes h.caps_fit h.caps_room h.advertisable

    take-inner :
        take
          (length (inner_bytes ++ trailer_bytes) - length trailer_bytes)
          (inner_bytes ++ trailer_bytes)
        ≡ inner_bytes
    take-inner =
        let e : length (inner_bytes ++ trailer_bytes) - length trailer_bytes ≡ length inner_bytes =
          omega (arith, length-append inner_bytes trailer_bytes) in
        rw e (take-append inner_bytes trailer_bytes)

    decode-trailer : decode_block trailer_bytes ≡ ok (signed_block, length trailer_bytes)
    decode-trailer =
        subst (λ bs. decode_block bs ≡ ok (signed_block, length trailer_bytes))
          (append-nil trailer_bytes) (decode_block-bytes signed_block signed-IsBlock [])

    module _ (local : NodeConfig) (now : ℤ)
        (fresh : is_stale local.verifier.window now (to_milli signed_at) ≡ false)
        (new : seen nonce (nonces_of signer.did local.verifier.cache) ≡ false) where
      verify-signed :
          verify resolve_key ed25519_verify local.verifier now signed_block hello_message
          ≡ (remember local.verifier now signer.did signed_block, ok tt)
      verify-signed =
          let own = h.own_vmid in
          let named : before_hash signer.vmid ≢ [] =
            λ e. did-ne-nil signer.did h.is_did (sym own ∙ e) in
          verify_new resolve_key ed25519_verify local.verifier now signed_block hello_message refl
            fresh named (rw own new)
          ∙ rw
              (
                own,
                check_signature-signed resolve_key ed25519_verify signed_block hello_message h.key
                    h.key_found (h.signs hello_message),
              )
              refl

      check_signer-built :
          check_signer resolve_key ed25519_verify alloc_limit local.verifier now
            (inner_bytes ++ trailer_bytes)
            signer.did
            trailer_bytes
          ≡ (remember local.verifier now signer.did signed_block, ok tt)
      unfolding check_signer check_block
      check_signer-built =
          let some_trailer : (length trailer_bytes == 0) ≡ false =
            ne→== _ _ (λ e. omega (arith, e)) in
          let same : bytes_eq (before_hash signer.vmid) signer.did ≡ true =
            rw h.own_vmid (bytes_eq_self signer.did) in
          rw
            (
              h.is_did,
              some_trailer,
              decode-trailer,
              same,
              take-inner,
              signed_message_bytes-covered_bytes signed_block signed-IsBlock frame_hello
                  inner_bytes,
            )
            verify-signed

    -- An honest HELLO is accepted: for a signer whose VMID belongs to its DID and resolves to a
    -- key that verifies what it signs, and lengths that fit, `buildSignedHello` succeeds, and a
    -- peer whose window holds the timestamp, which has not seen the nonce under that DID and whose
    -- capabilities agree, accepts it with the signer's DID, minor version 2 and the negotiated
    -- capabilities, and records the nonce.
    pub accept_hello-build_signed_hello :
        (local : NodeConfig) (now : ℤ) (active : List Capability)
        → is_stale local.verifier.window now (to_milli signed_at) ≡ false
        → seen nonce (nonces_of signer.did local.verifier.cache) ≡ false
        → negotiate_capabilities local.capabilities caps ≡ ok active
        → (payload : Bytes) × (build_signed_hello signer caps nonce signed_at ≡ ok payload)
          × (accept_hello resolve_key ed25519_verify alloc_limit local now (hello_frame payload) ≡ (
            remember local.verifier now signer.did signed_block,
            ok (record {
              peer_node_id = signer.did;
              negotiated_minor = 2;
              active_capabilities = active;
            }),
          ))
    unfolding accept_hello accept_fields conclude
    accept_hello-build_signed_hello local now active fresh new e = (
      inner_bytes ++ trailer_bytes,
      build_signed_hello-bytes,
      rw (decode-built, check_signer-built local now fresh new, e) refl,
    )
