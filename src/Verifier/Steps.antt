-- ===== src/Verifier/Steps.antt =====
-- One call of `Verify`: what acceptance implies, and what it leaves in the cache.
use aire_go.Base.{
  ◌==◌, eq→==, ne→==, ==_iff, Bool-cases, length, Result, Result-cases, stale_timestamp,
  replayed_nonce, sentinel, wrapf, ok, err, ◌≡◌, refl, sym, ap, ◌∙◌, ◌≢◌, ◌⊎◌, inl, inr, Bool, true,
  false, [], ◌∷◌, arith,
}
use aire_go.Base.Int.{ℤ}
use aire_go.Varint.{Bytes}
use aire_go.Signature.{SignatureBlock, sig_alg_ed25519}
use aire_go.Verifier.{Verifier, before_hash, check_signature, remember, verify}
use aire_go.Verifier.Time.{is_stale}
use aire_go.Verifier.ReplayCache.{nonces_of, seen}

no_bytes : (bs : Bytes) → length bs ≡ 0 → bs ≡ []
no_bytes [] e = refl
no_bytes (b ∷ bs) e = absurd (omega arith)

some_bytes : (bs : Bytes) → (length bs == 0) ≡ false → bs ≢ []
some_bytes [] e = λ x. cc
some_bytes (b ∷ bs) e = λ x. cc

module _ (resolve_key : Bytes → Result Bytes) (ed25519_verify : Bytes → Bytes → Bytes → Bool) where
  -- What holds when `Verify` accepts a block.
  pub record Accepted (v : Verifier) (now : ℤ) (block : SignatureBlock) (signed_message : Bytes)
      : Type 0 where
    pub known_algorithm : block.algorithm ≡ sig_alg_ed25519
    pub fresh : is_stale v.window now block.timestamp_ms ≡ false
    pub named : before_hash block.vmid ≢ []
    pub new : seen block.nonce (nonces_of (before_hash block.vmid) v.cache) ≡ false
    pub key : Bytes
    pub key_found : resolve_key block.vmid ≡ ok key
    pub signed : ed25519_verify key signed_message block.signature ≡ true

  check_signature-ok :
      (block : SignatureBlock) (signed_message : Bytes)
      → check_signature resolve_key ed25519_verify block signed_message ≡ ok tt
      → (key : Bytes) × (resolve_key block.vmid ≡ ok key)
        × (ed25519_verify key signed_message block.signature ≡ true)
  unfolding check_signature
  check_signature-ok block signed_message e = elim (Result-cases (resolve_key block.vmid)) [
    | inr (inl (x, r)) ↦ ground (arith, r)
    | inr (inr r) ↦ ground (arith, r)
    | inl (key, r) ↦ (key, r, ground (arith, r))
  ]

  pub check_signature-signed :
      (block : SignatureBlock) (signed_message key : Bytes)
      → resolve_key block.vmid ≡ ok key
      → ed25519_verify key signed_message block.signature ≡ true
      → check_signature resolve_key ed25519_verify block signed_message ≡ ok tt
  unfolding check_signature
  check_signature-signed block signed_message key found good = rw (found, good, check_signature)

  -- `Verify` accepts a block only if its algorithm is Ed25519, its timestamp is in the window, its
  -- VMID names a DID, its nonce is not in the cache of that DID, the VMID's key is resolved, and
  -- the signature verifies under that key.
  pub verify-Accepted :
      (v v' : Verifier) (now : ℤ) (block : SignatureBlock) (signed_message : Bytes)
      → verify resolve_key ed25519_verify v now block signed_message ≡ (v', ok tt)
      → Accepted v now block signed_message × (v' ≡ remember v now (before_hash block.vmid) block)
  unfolding verify
  verify-Accepted v v' now block signed_message e =
      let did = before_hash block.vmid in
      elim (Bool-cases (block.algorithm == sig_alg_ed25519)) [
        | inr a ↦ ground (arith, a)
        | inl a ↦ elim (Bool-cases (is_stale v.window now block.timestamp_ms)) [
          | inl b ↦ ground (arith, a, b)
          | inr b ↦ elim (Bool-cases (length did == 0)) [
            | inl c ↦ ground (arith, a, b, c)
            | inr c ↦ elim (Bool-cases (seen block.nonce (nonces_of did v.cache))) [
              | inl d ↦ ground (arith, a, b, c, d)
              | inr d ↦
                  let both : (
                    remember v now did block,
                    check_signature resolve_key ed25519_verify block signed_message,
                  )
                      ≡ (v', ok tt) =
                    rw (a, b, c, d) at e in
                  let (key, found, good) =
                    check_signature-ok block signed_message (ap (λ p. p.1) both) in
                  (
                    record {
                      known_algorithm = (==_iff _ _).0 a;
                      fresh = b;
                      named = some_bytes did c;
                      new = d;
                      key = key;
                      key_found = found;
                      signed = good;
                    },
                    sym (ap (λ p. p.0) both),
                  )
            ]
          ]
        ]
      ]

  -- `Verify` leaves the state alone, or records the nonce.
  pub verify-state :
      (v : Verifier) (now : ℤ) (block : SignatureBlock) (signed_message : Bytes)
      → let v' = (verify resolve_key ed25519_verify v now block signed_message).0 in
        (v' ≡ v) ⊎ (v' ≡ remember v now (before_hash block.vmid) block)
  unfolding verify
  verify-state v now block signed_message =
      let did = before_hash block.vmid in
      elim (Bool-cases (block.algorithm == sig_alg_ed25519)) [
        | inr a ↦ rw a (inl refl)
        | inl a ↦ elim (Bool-cases (is_stale v.window now block.timestamp_ms)) [
          | inl b ↦ rw (a, b) (inl refl)
          | inr b ↦ elim (Bool-cases (length did == 0)) [
            | inl c ↦ rw (a, b, c) (inl refl)
            | inr c ↦ elim (Bool-cases (seen block.nonce (nonces_of did v.cache))) [
              | inl d ↦ rw (a, b, c, d) (inl refl)
              | inr d ↦ rw (a, b, c, d) (inr refl)
            ]
          ]
        ]
      ]

  module _ (v : Verifier) (now : ℤ) (block : SignatureBlock) (signed_message : Bytes)
      (alg : block.algorithm ≡ sig_alg_ed25519) where
    pub verify_stale :
        is_stale v.window now block.timestamp_ms ≡ true
        → (verify resolve_key ed25519_verify v now block signed_message).1
          ≡ err (wrapf "skew" (sentinel stale_timestamp))
    unfolding verify
    verify_stale b = rw (eq→== _ _ alg, b)

    pub verify_replayed :
        is_stale v.window now block.timestamp_ms ≡ false
        → before_hash block.vmid ≢ []
        → seen block.nonce (nonces_of (before_hash block.vmid) v.cache) ≡ true
        → (verify resolve_key ed25519_verify v now block signed_message).1
          ≡ err (wrapf "did" (sentinel replayed_nonce))
    unfolding verify
    verify_replayed b named d =
        let some_did : (length (before_hash block.vmid) == 0) ≡ false =
          ne→== _ _ (λ e. named (no_bytes (before_hash block.vmid) e)) in
        rw (eq→== _ _ alg, b, some_did, d)

    pub verify_new :
        is_stale v.window now block.timestamp_ms ≡ false
        → before_hash block.vmid ≢ []
        → seen block.nonce (nonces_of (before_hash block.vmid) v.cache) ≡ false
        → verify resolve_key ed25519_verify v now block signed_message ≡ (
          remember v now (before_hash block.vmid) block,
          check_signature resolve_key ed25519_verify block signed_message,
        )
    unfolding verify
    verify_new b named d =
        let some_did : (length (before_hash block.vmid) == 0) ≡ false =
          ne→== _ _ (λ e. named (no_bytes (before_hash block.vmid) e)) in
        rw (eq→== _ _ alg, b, some_did, d)

  -- What meets all the conditions is accepted.
  pub Accepted-verify :
      (v : Verifier) (now : ℤ) (block : SignatureBlock) (signed_message : Bytes)
      → Accepted v now block signed_message
      → verify resolve_key ed25519_verify v now block signed_message
        ≡ (remember v now (before_hash block.vmid) block, ok tt)
  Accepted-verify v now block signed_message a =
      verify_new v now block signed_message a.known_algorithm a.fresh a.named a.new
      ∙ rw (check_signature-signed block signed_message a.key a.key_found a.signed) refl
