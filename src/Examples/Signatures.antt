-- ===== src/Examples/Signatures.antt =====
-- identity.go at concrete inputs, with a toy signature scheme: the signature of a message is the
-- key followed by the message.
use aire_go.Base.{
  Error, root, Result, bad_signature, stale_timestamp, replayed_nonce, sentinel, wrapf, ok, err,
  ◌*◌, ◌≡◌, refl, ◌≢◌, ◌⊎◌, Bool, true, false, some, [], ◌∷◌, ◌++◌, arith,
}
use aire_go.Base.Int.{ℤ, ◌+ℤ◌, ◌≤ℤ◌, pos}
use aire_go.Base.Text.{codes, bytes_eq}
use aire_go.Varint.{Bytes}
use aire_go.Signature.{SignatureBlock}
use aire_go.Verifier.{Verifier, verify, before_hash, remember}
use aire_go.Verifier.ReplayCache.{nonces_of, seen}
use aire_go.Verifier.Window.{verify_far_future, verify_in_window}
use aire_go.Verifier.Time.{ns_per_ms, replay_window, unix_milli, is_stale}
use aire_go.Verifier.Replay.{run_calls, verify_replay_refused, verify_forgery_recorded}

abbrev toy_key : Bytes → Result Bytes
toy_key vmid = ok (9 ∷ [])

abbrev toy_verify : Bytes → Bytes → Bytes → Bool
toy_verify key signed sig = bytes_eq sig (key ++ signed)

abbrev zero_nonce : Bytes
zero_nonce = 0 ∷ 0 ∷ 0 ∷ 0 ∷ 0 ∷ 0 ∷ 0 ∷ 0 ∷ 0 ∷ 0 ∷ 0 ∷ 0 ∷ 0 ∷ 0 ∷ 0 ∷ 0 ∷ []

abbrev hello_block : SignatureBlock
hello_block = record {
  algorithm = 1;
  vmid = codes "did:key:z6#z6";
  nonce = zero_nonce;
  timestamp_ms = pos 1000;
  signature = 9 ∷ 1 ∷ 2 ∷ [];
}

abbrev fresh_verifier : Verifier
fresh_verifier = record { window = replay_window; cache = [] }

-- One second, in nanoseconds.
abbrev one_second : ℤ
one_second = pos (1000 * ns_per_ms)

abbrev used_verifier : Verifier
used_verifier = remember fresh_verifier one_second (codes "did:key:z6") hello_block

first_accepted :
    verify toy_key toy_verify fresh_verifier one_second hello_block (1 ∷ 2 ∷ [])
    ≡ (used_verifier, ok tt)
unfolding verify is_stale before_hash nonces_of seen bytes_eq
first_accepted = refl

verify_replay_refused_example :
    (e : Error) × ((verify toy_key toy_verify
        (run_calls toy_key toy_verify used_verifier [])
        (pos (2000 * ns_per_ms))
        (record hello_block { signature = [] })
        (3 ∷ [])).1
      ≡ err e)
    × ((root e ≡ some stale_timestamp) ⊎ (root e ≡ some replayed_nonce))
verify_replay_refused_example =
    verify_replay_refused toy_key toy_verify fresh_verifier used_verifier one_second
      (pos (2000 * ns_per_ms)) hello_block (1 ∷ 2 ∷ []) [] [] (3 ∷ []) (omega arith) first_accepted
      tt

verify_in_window_example :
    (one_second ≤ℤ unix_milli hello_block.timestamp_ms +ℤ pos replay_window)
    × (unix_milli hello_block.timestamp_ms ≤ℤ one_second +ℤ pos replay_window)
verify_in_window_example =
    verify_in_window toy_key toy_verify fresh_verifier used_verifier one_second hello_block
      (1 ∷ 2 ∷ []) (omega arith) (omega arith) first_accepted

has_did : before_hash hello_block.vmid ≢ []
unfolding before_hash
has_did e = cc

not_seen : seen zero_nonce (nonces_of (before_hash hello_block.vmid) []) ≡ false
unfolding seen nonces_of
not_seen = refl

-- 300 years after the clock.
abbrev far_block : SignatureBlock
far_block = record hello_block { timestamp_ms = pos (300 * 365 * 86400 * 1000) }

toy_signed : toy_verify (9 ∷ []) (1 ∷ 2 ∷ []) (9 ∷ 1 ∷ 2 ∷ []) ≡ true
unfolding bytes_eq
toy_signed = refl

verify_far_future_example :
    (verify toy_key toy_verify fresh_verifier one_second far_block (1 ∷ 2 ∷ [])).1 ≡ ok tt
verify_far_future_example =
    verify_far_future toy_key toy_verify fresh_verifier one_second far_block (1 ∷ 2 ∷ []) (9 ∷ [])
      (omega arith) refl has_did not_seen refl toy_signed

fresh_now : is_stale replay_window one_second (pos 1000) ≡ false
unfolding is_stale
fresh_now = refl

fresh_later : is_stale replay_window (pos (2000 * ns_per_ms)) (pos 1000) ≡ false
unfolding is_stale
fresh_later = refl

toy_forged : toy_verify (9 ∷ []) (5 ∷ []) (9 ∷ 1 ∷ 2 ∷ []) ≡ false
unfolding bytes_eq
toy_forged = refl

verify_forgery_recorded_example :
    (v : Verifier) × (verify toy_key toy_verify fresh_verifier one_second hello_block (5 ∷ [])
      ≡ (v, err (wrapf "did" (sentinel bad_signature))))
    × ((verify toy_key toy_verify v
          (pos (2000 * ns_per_ms))
          (record hello_block { signature = 9 ∷ 1 ∷ 2 ∷ [] })
          (1 ∷ 2 ∷ [])).1
        ≡ err (wrapf "did" (sentinel replayed_nonce)))
verify_forgery_recorded_example =
    verify_forgery_recorded toy_key toy_verify fresh_verifier one_second (pos (2000 * ns_per_ms))
      hello_block (5 ∷ []) (1 ∷ 2 ∷ []) (9 ∷ []) (9 ∷ 1 ∷ 2 ∷ []) refl has_did fresh_now fresh_later
      not_seen refl toy_forged
