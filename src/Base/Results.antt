-- ===== src/Base/Results.antt =====
-- What a Go function ends in: a value, an error or a panic; and the package's errors.
use Prim.Native.String.{String}
use mathlib.Core.Path.{◌≡◌, refl}
use mathlib.Core.Logic.{◌⊎◌, inl, inr}
use mathlib.Core.Option.{Option, none, some}

-- The sentinel errors of the package, in the order of the files, and those of `io` that it returns.
pub data Sentinel : Type 0 where
  short_buffer frame_too_large : Sentinel
  cancelled budget_exceeded deadline_exceeded delegate_failed : Sentinel
  bad_signature stale_timestamp replayed_nonce unresolvable_did key_mismatch : Sentinel
  incompatible_version missing_required_capability malformed_hello protocol_violation : Sentinel
  no_aire_service also_known_as_mismatch unsupported_did_method : Sentinel
  malformed_handle malformed_did_web : Sentinel
  eof unexpected_eof : Sentinel

-- `wrapf text e` is `fmt.Errorf` with a `%w` verb for `e`, and `message text` one without. The
-- text is the constant part that tells the place; what `%v`, `%q` and the like print is left out.
pub data Error : Type 0 where
  sentinel : Sentinel → Error
  message : String → Error
  wrapf : String → Error → Error

-- The sentinel that `errors.Is` finds: the end of the chain of `%w`.
abbrev pub root : Error → Option Sentinel
root (sentinel s) = some s
root (message t) = none
root (wrapf t e) = root e

pub data Result {ℓ} (A : Type ℓ) : Type ℓ where
  ok : A → Result A
  err : Error → Result A
  panic : Result A

infixl 5 ◌>>=◌
abbrev pub ◌>>=◌ {ℓ κ} : {A : Type ℓ} {B : Type κ} → Result A → (A → Result B) → Result B
ok a >>= f = f a
err e >>= f = err e
panic >>= f = panic

-- `if err != nil { return …, wrap(err) }`
abbrev pub map_err {ℓ} : {A : Type ℓ} → (Error → Error) → Result A → Result A
map_err w (ok a) = ok a
map_err w (err e) = err (w e)
map_err w panic = panic

module _ {ℓ} {A : Type ℓ} where
  pub Result-cases :
      (r : Result A) → ((a : A) × (r ≡ ok a)) ⊎ (((e : Error) × (r ≡ err e)) ⊎ (r ≡ panic))
  Result-cases (ok a) = inl (a, refl)
  Result-cases (err e) = inr (inl (e, refl))
  Result-cases panic = inr (inr refl)
