-- ===== src/Verifier/Window.antt =====
-- What the timestamp window lets through.
use aire_go.Base.{Result, ok, ◌-◌, ◌^◌, ◌≡◌, ap, ◌∙◌, ◌≢◌, Bool, true, false, []}
use aire_go.Base.Int.{ℤ, ◌+ℤ◌, ◌≤ℤ◌, pos}
use aire_go.Varint.{Bytes}
use aire_go.Signature.{SignatureBlock, sig_alg_ed25519}
use aire_go.Verifier.{Verifier, verify, before_hash, check_signature}
use aire_go.Verifier.ReplayCache.{nonces_of}
use aire_go.Verifier.ReplayCache.{seen}
use aire_go.Verifier.Time.{unix_milli, is_stale-distance, is_stale_far_future}
use aire_go.Verifier.Steps.{verify-Accepted, verify_new}

module _ (resolve_key : Bytes → Result Bytes) (ed25519_verify : Bytes → Bytes → Bytes → Bool) where
  -- `Verify` accepts a block whose timestamp lies 2 ^ 63 nanoseconds or more ahead of the clock,
  -- whatever the window is, if all else is in order: the algorithm, the DID, a new nonce, a key
  -- that is resolved and a signature that verifies.
  pub verify_far_future :
      (v : Verifier) (now : ℤ) (block : SignatureBlock) (signed_message key : Bytes)
      → now +ℤ pos (2 ^ 63) ≤ℤ unix_milli block.timestamp_ms
      → block.algorithm ≡ sig_alg_ed25519
      → before_hash block.vmid ≢ []
      → seen block.nonce (nonces_of (before_hash block.vmid) v.cache) ≡ false
      → resolve_key block.vmid ≡ ok key
      → ed25519_verify key signed_message block.signature ≡ true
      → (verify resolve_key ed25519_verify v now block signed_message).1 ≡ ok tt
  unfolding check_signature
  verify_far_future v now block signed_message key far alg named new found good =
      ap (λ p. p.1)
        (verify_new resolve_key ed25519_verify v now block signed_message alg
          (is_stale_far_future v.window now block.timestamp_ms far) named new)
      ∙ rw (found, good, check_signature)

  -- For a clock and a timestamp less than 2 ^ 63 nanoseconds apart, a block that `Verify` accepts
  -- has its timestamp no further than the window before or behind the clock.
  pub verify_in_window :
      (v v' : Verifier) (now : ℤ) (block : SignatureBlock) (signed_message : Bytes)
      → now ≤ℤ unix_milli block.timestamp_ms +ℤ pos (2 ^ 63 - 1)
      → unix_milli block.timestamp_ms ≤ℤ now +ℤ pos (2 ^ 63 - 1)
      → verify resolve_key ed25519_verify v now block signed_message ≡ (v', ok tt)
      → (now ≤ℤ unix_milli block.timestamp_ms +ℤ pos v.window)
        × (unix_milli block.timestamp_ms ≤ℤ now +ℤ pos v.window)
  verify_in_window v v' now block signed_message h1 h2 e =
      let (acc, _) = verify-Accepted resolve_key ed25519_verify v v' now block signed_message e in
      (is_stale-distance v.window now block.timestamp_ms h1 h2).0 acc.fresh
