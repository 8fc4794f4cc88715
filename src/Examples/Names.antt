-- ===== src/Examples/Names.antt =====
-- The names of capability.go at concrete inputs.
use aire_go.Base.{message, wrapf, ok, err, ◌≡◌, refl, ◌↔◌, true, false}
use aire_go.Base.Text.{cut_at, split, codes, bytes_eq}
use aire_go.CapabilityName.Grammar.{IsCapabilityName}
use aire_go.CapabilityName.{
  validate_namespace, validate_major, validate_capability_name, is_reserved_namespace,
}
use aire_go.CapabilityName.Complete.{validate_capability_name-ok_iff}

web_method : validate_capability_name (codes "aire.did-method.web/1") ≡ ok tt
unfolding validate_capability_name validate_namespace validate_major cut_at split
web_method = refl

leading_zero :
    validate_capability_name (codes "chat/01")
    ≡ err (wrapf "aire: capability name" (message "major has leading zero"))
unfolding validate_capability_name validate_namespace validate_major cut_at split
leading_zero = refl

reserved : is_reserved_namespace (codes "aire.x/1") ≡ true
unfolding is_reserved_namespace cut_at bytes_eq
reserved = refl

not_reserved : is_reserved_namespace (codes "airex/1") ≡ false
unfolding is_reserved_namespace cut_at bytes_eq
not_reserved = refl

validate_capability_name-ok_iff_example :
    (validate_capability_name (codes "aire.did-method.web/1") ≡ ok tt)
    ↔ IsCapabilityName (codes "aire.did-method.web/1")
validate_capability_name-ok_iff_example =
    validate_capability_name-ok_iff (codes "aire.did-method.web/1")
