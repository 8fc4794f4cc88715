-- ===== src/Verifier.antt =====
-- `Verifier.Verify` of identity.go: the timestamp window and the replay cache. The clock is an
-- argument, and so are the resolution of keys and the Ed25519 check.
pub mod Time
pub mod ReplayCache
pub mod Steps
pub mod Replay
pub mod Window
use aire_go.Base.{
  ◌==◌, if◌then◌else◌, length, Result, bad_signature, stale_timestamp, replayed_nonce,
  unresolvable_did, sentinel, wrapf, ok, err, panic, ℕ, Bool, not, [], ◌∷◌,
}
use aire_go.Base.Int.{ℤ}
use aire_go.Varint.{Bytes}
use aire_go.Signature.{SignatureBlock, sig_alg_ed25519}
use aire_go.Verifier.Time.{is_stale, cutoff_ms}
use aire_go.Verifier.ReplayCache.{Cache, nonces_of, put_nonces, seen, purge}

-- `window` is the acceptance window in nanoseconds.
pub record Verifier : Type 0 where
  pub window : ℕ
  pub cache : Cache

-- `strings.Cut(vmid, "#")`: what stands before the first `#`.
unfoldable pub before_hash : Bytes → Bytes
before_hash [] = []
before_hash (c ∷ cs) = if c == b'#' then [] else c ∷ before_hash cs

-- The part between `Lock` and `Unlock` where the nonce is new: purge, then record.
abbrev pub remember : Verifier → ℤ → Bytes → SignatureBlock → Verifier
remember v now did block = record v {
  cache =
      put_nonces did
        ((block.nonce, block.timestamp_ms) ∷ purge (cutoff_ms v.window now) (nonces_of did v.cache))
        v.cache;
}

module _ (resolve_key : Bytes → Result Bytes) (ed25519_verify : Bytes → Bytes → Bytes → Bool) where
  -- The part behind `Unlock`.
  pub check_signature : SignatureBlock → Bytes → Result (Unit {0})
  check_signature block signed_message = elim (resolve_key block.vmid) [
    | err e ↦ err (wrapf "" (sentinel unresolvable_did))
    | panic ↦ panic
    | ok key ↦
        if ed25519_verify key signed_message block.signature
        then ok tt
        else err (wrapf "did" (sentinel bad_signature))
  ]

  -- The new state stands beside the result, since the cache changes on error paths too.
  unfoldable pub verify : Verifier → ℤ → SignatureBlock → Bytes → Verifier × Result (Unit {0})
  unfolding check_signature
  verify v now block signed_message =
      let did = before_hash block.vmid in
      if not (block.algorithm == sig_alg_ed25519)
      then (v, err (wrapf "unknown algorithm" (sentinel bad_signature)))
      else if is_stale v.window now block.timestamp_ms
      then (v, err (wrapf "skew" (sentinel stale_timestamp)))
      else if length did == 0
      then (v, err (wrapf "VMID missing DID portion" (sentinel unresolvable_did)))
      else if seen block.nonce (nonces_of did v.cache)
      then (v, err (wrapf "did" (sentinel replayed_nonce)))
      else (remember v now did block, check_signature block signed_message)
