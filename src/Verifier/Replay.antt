-- ===== src/Verifier/Replay.antt =====
-- A nonce that `Verify` has recorded is refused for as long as its timestamp could be accepted.
use aire_go.Base.{
  Bool-cases, All, Error, root, Result, bad_signature, stale_timestamp, replayed_nonce, sentinel,
  wrapf, ok, err, ◌-◌, ◌^◌, ◌<◌, ◌≡◌, refl, sym, ap, ◌∙◌, subst, ◌≢◌, ◌⊎◌, inl, inr, Bool, true,
  false, some, List, [], ◌∷◌, arith,
}
use aire_go.Base.Int.{ℤ, ◌≤ℤ◌}
use aire_go.Varint.{Bytes}
use aire_go.Signature.{SignatureBlock, sig_alg_ed25519}
use aire_go.Verifier.{Verifier, verify, remember, before_hash, check_signature}
use aire_go.Verifier.Time.{cutoff_ms, lt_int, is_stale, is_stale_purged}
use aire_go.Verifier.ReplayCache.{
  nonces_of, nonces_of-put_nonces, Holds, Holds-purge, seen, Holds-seen,
}
use aire_go.Base.Text.{bytes_eq, bytes_eq_sound, bytes_eq_self}
use aire_go.Verifier.Steps.{
  verify-Accepted, verify-state, verify_stale, verify_replayed, verify_new,
}

-- A call of `Verify`, with the clock that it read.
pub record Call : Type 0 where
  pub now : ℤ
  pub block : SignatureBlock
  pub signed_message : Bytes

-- The nonce is in the cache with its timestamp, or a purge at some clock reading up to `now` has
-- found the timestamp too old.
abbrev pub IsRemembered : ℤ → SignatureBlock → Verifier → Type 0
IsRemembered now block v =
    Holds block.nonce block.timestamp_ms (nonces_of (before_hash block.vmid) v.cache)
    ⊎ ((earlier : ℤ) × (earlier ≤ℤ now)
        × (lt_int block.timestamp_ms (cutoff_ms v.window earlier) ≡ true))

remember-IsRemembered_self :
    (v : Verifier) (now later : ℤ) (block : SignatureBlock)
    → IsRemembered later block (remember v now (before_hash block.vmid) block)
remember-IsRemembered_self v now later block =
    rw (nonces_of-put_nonces, bytes_eq_self) (inl (inl (refl, refl)))

-- Another call's update keeps the nonce, or purges it as too old.
remember-IsRemembered :
    (v : Verifier) (now later : ℤ) (other block : SignatureBlock)
    → now ≤ℤ later
    → IsRemembered later block v
    → IsRemembered later block (remember v now (before_hash other.vmid) other)
remember-IsRemembered v now later other block h (inr old) = inr old
remember-IsRemembered v now later other block h (inl held) =
    let did = before_hash block.vmid in
    let did' = before_hash other.vmid in
    let cutoff = cutoff_ms v.window now in
    elim (Bool-cases (lt_int block.timestamp_ms cutoff)) [
      | inl old ↦ inr (now, h, old)
      | inr young ↦ rw nonces_of-put_nonces (elim (Bool-cases (bytes_eq did' did)) [
        | inr f ↦ rw f (inl held)
        | inl t ↦
            rw (t, bytes_eq_sound did' did t)
              (inl (inr (Holds-purge cutoff block.nonce block.timestamp_ms _ young held)))
      ])
    ]

module _ (resolve_key : Bytes → Result Bytes) (ed25519_verify : Bytes → Bytes → Bytes → Bool) where
  -- The state after a sequence of calls, in the order in which they take the lock.
  pub run_calls : Verifier → List Call → Verifier
  run_calls v [] = v
  run_calls v (c ∷ cs) =
      run_calls (verify resolve_key ed25519_verify v c.now c.block c.signed_message).0 cs

  verify-IsRemembered :
      (v : Verifier) (now later : ℤ) (other block : SignatureBlock) (signed_message : Bytes)
      → now ≤ℤ later
      → IsRemembered later block v
      → IsRemembered later block (verify resolve_key ed25519_verify v now other signed_message).0
  verify-IsRemembered v now later other block signed_message h r =
      elim (verify-state resolve_key ed25519_verify v now other signed_message) [
        | inl e ↦ subst (IsRemembered later block) (sym e) r
        | inr e ↦
            subst (IsRemembered later block) (sym e)
              (remember-IsRemembered v now later other block h r)
      ]

  run_calls-IsRemembered :
      (cs : List Call) (v : Verifier) (later : ℤ) (block : SignatureBlock)
      → All (λ c. c.now ≤ℤ later) cs
      → IsRemembered later block v
      → IsRemembered later block (run_calls v cs)
  unfolding run_calls
  run_calls-IsRemembered [] v later block h r = r
  run_calls-IsRemembered (c ∷ cs) v later block (h, hs) r =
      run_calls-IsRemembered cs _ later block hs
        (verify-IsRemembered v c.now later c.block block c.signed_message h r)

  run_calls-window : (cs : List Call) (v : Verifier) → (run_calls v cs).window ≡ v.window
  unfolding run_calls
  run_calls-window [] v = refl
  run_calls-window (c ∷ cs) v =
      run_calls-window cs _
      ∙ elim (verify-state resolve_key ed25519_verify v c.now c.block c.signed_message) [
        | inl e ↦ ap (λ (w : Verifier). w.window) e
        | inr e ↦ ap (λ (w : Verifier). w.window) e
      ]

  -- A remembered block is refused, under any signature and message.
  refused :
      (v : Verifier) (now : ℤ) (block : SignatureBlock) (signed_message : Bytes)
      → v.window < 2 ^ 63 - 1
      → block.algorithm ≡ sig_alg_ed25519
      → before_hash block.vmid ≢ []
      → IsRemembered now block v
      → (e : Error) × ((verify resolve_key ed25519_verify v now block signed_message).1 ≡ err e)
        × ((root e ≡ some stale_timestamp) ⊎ (root e ≡ some replayed_nonce))
  refused v now block signed_message hw alg named r =
      elim (Bool-cases (is_stale v.window now block.timestamp_ms)) [
        | inl b ↦
            (_, verify_stale resolve_key ed25519_verify v now block signed_message alg b, inl refl)
        | inr b ↦ elim r [
          | inl held ↦ (
            _,
            verify_replayed resolve_key ed25519_verify v now block signed_message alg b named
                (Holds-seen block.nonce block.timestamp_ms _ held),
            inr refl,
          )
          | inr (earlier, le, old) ↦
              cc (b, is_stale_purged v.window earlier now block.timestamp_ms hw le old)
        ]
      ]

  -- Replay protection: once `Verify` has accepted a block, then after any further calls, none of
  -- which read a clock later than `later`, a call at `later` refuses the same block under any
  -- signature and message, as a replay or as stale. The window is below the greatest int64.
  pub verify_replay_refused :
      (v v' : Verifier) (now later : ℤ) (block : SignatureBlock) (first : Bytes)
      → (calls : List Call) (signature second : Bytes) → v.window < 2 ^ 63 - 1
      → verify resolve_key ed25519_verify v now block first ≡ (v', ok tt)
      → All (λ c. c.now ≤ℤ later) calls
      → (e : Error) × ((verify resolve_key ed25519_verify
            (run_calls v' calls)
            later
            (record block { signature = signature })
            second).1
          ≡ err e)
        × ((root e ≡ some stale_timestamp) ⊎ (root e ≡ some replayed_nonce))
  verify_replay_refused v v' now later block first calls signature second hw e h =
      let (acc, state) = verify-Accepted resolve_key ed25519_verify v v' now block first e in
      let start : IsRemembered later block v' =
        subst (IsRemembered later block) (sym state)
          (remember-IsRemembered_self v now later block) in
      let same : (run_calls v' calls).window ≡ v.window =
        run_calls-window calls v' ∙ ap (λ (w : Verifier). w.window) state in
      refused (run_calls v' calls) later (record block { signature = signature }) second
        (rw same hw) acc.known_algorithm acc.named
        (run_calls-IsRemembered calls v' later block h start)

  -- An Ed25519 block whose signature does not verify is recorded all the same, if its VMID names a DID and
  -- resolves to a key, its nonce is new for the DID and its timestamp is in the window: the call
  -- answers `ErrBadSignature`, and the next call with the same block but for its signature, at a clock
  -- where the timestamp is still in the window, is refused as a replay, whatever its signature and
  -- message are.
  pub verify_forgery_recorded :
      (v : Verifier) (now later : ℤ) (block : SignatureBlock) (forged genuine key : Bytes)
      → (signature : Bytes) → block.algorithm ≡ sig_alg_ed25519
      → before_hash block.vmid ≢ []
      → is_stale v.window now block.timestamp_ms ≡ false
      → is_stale v.window later block.timestamp_ms ≡ false
      → seen block.nonce (nonces_of (before_hash block.vmid) v.cache) ≡ false
      → resolve_key block.vmid ≡ ok key
      → ed25519_verify key forged block.signature ≡ false
      → (v' : Verifier) × (verify resolve_key ed25519_verify v now block forged
          ≡ (v', err (wrapf "did" (sentinel bad_signature))))
        × ((verify resolve_key ed25519_verify v' later
              (record block { signature = signature })
              genuine).1
            ≡ err (wrapf "did" (sentinel replayed_nonce)))
  unfolding check_signature
  verify_forgery_recorded v now later block forged genuine key signature alg named f1 f2 new found
        bad =
      let v' = remember v now (before_hash block.vmid) block in
      (
        v',
        verify_new resolve_key ed25519_verify v now block forged alg f1 named new
            ∙ rw (found, bad, check_signature),
        verify_replayed resolve_key ed25519_verify v' later (record block { signature = signature })
            genuine alg f2 named
            (rw (nonces_of-put_nonces, bytes_eq_self) (unfold seen in rw bytes_eq_self)),
      )

  -- The same with no call in between.
  pub verify_replay_next :
      (v v' : Verifier) (now later : ℤ) (block : SignatureBlock) (first second : Bytes)
      → v.window < 2 ^ 63 - 1
      → verify resolve_key ed25519_verify v now block first ≡ (v', ok tt)
      → (verify resolve_key ed25519_verify v' later block second).1 ≢ ok tt
  unfolding run_calls
  verify_replay_next v v' now later block first second hw e good =
      let (x, refused, _) =
        verify_replay_refused v v' now later block first [] block.signature second hw e tt in
      let clash : err x ≡ ok tt = sym refused ∙ good in ground (arith, clash)
