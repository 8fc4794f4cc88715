-- ===== src/Examples/Peers.antt =====
-- capability.go at concrete inputs.
use aire_go.Base.{
  missing_required_capability, sentinel, wrapf, ok, err, some, ◌≡◌, refl, ◌↔◌, true, false, List,
  [], ◌∷◌,
}
use aire_go.Base.Text.{codes, bytes_eq}
use aire_go.Varint.{Bytes}
use aire_go.Capability.{Capability, lookup, negotiate_capabilities}
use aire_go.Capability.Agreement.{
  IsCompatible, negotiate_capabilities-ok_iff, negotiate_capabilities-IsActive,
  negotiate_capabilities_symmetric,
}

abbrev ours : List Capability
ours =
    record { name = codes "aire.did-method.key/1"; version = 3; required = true }
    ∷ record { name = codes "chat/1"; version = 0; required = false }
    ∷ []

abbrev theirs : List Capability
theirs =
    record { name = codes "tools/2"; version = 7; required = false }
    ∷ record { name = codes "aire.did-method.key/1"; version = 2; required = false }
    ∷ []

abbrev both : List Capability
both = record { name = codes "aire.did-method.key/1"; version = 2; required = false } ∷ []

negotiated : negotiate_capabilities ours theirs ≡ ok both
unfolding negotiate_capabilities lookup bytes_eq
negotiated = refl

negotiate_missing :
    negotiate_capabilities ours []
    ≡ err (wrapf "local requires" (sentinel missing_required_capability))
unfolding negotiate_capabilities lookup bytes_eq
negotiate_missing = refl

negotiate_capabilities-ok_iff_example :
    ((active : List Capability) × (negotiate_capabilities ours theirs ≡ ok active))
    ↔ IsCompatible ours theirs
negotiate_capabilities-ok_iff_example = negotiate_capabilities-ok_iff ours theirs

abbrev key_method : Bytes
key_method = codes "aire.did-method.key/1"

-- The two sides advertise minor versions 3, required, and 2.
negotiate_capabilities-IsActive_example :
    lookup key_method both ≡ some (record { name = key_method; version = 2; required = false })
unfolding lookup bytes_eq
negotiate_capabilities-IsActive_example =
    negotiate_capabilities-IsActive ours theirs both key_method negotiated

negotiate_capabilities_symmetric_example :
    (active : List Capability) × (negotiate_capabilities theirs ours ≡ ok active)
    × ((name : Bytes) → lookup name both ≡ lookup name active)
negotiate_capabilities_symmetric_example =
    negotiate_capabilities_symmetric ours theirs both negotiated
