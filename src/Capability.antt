-- ===== src/Capability.antt =====
-- capability.go: capabilities and their negotiation.
pub mod Index
pub mod Negotiation
pub mod Agreement
use aire_go.Base.{
  ltb, if◌then◌else◌, Result, ◌>>=◌, missing_required_capability, malformed_hello, sentinel, wrapf,
  ok, err, ℕ, String, Bool, false, not, Option, none, some, List, [], ◌∷◌,
}
use aire_go.Base.Text.{bytes_eq}
use aire_go.Varint.{Bytes}

pub record Capability : Type 0 where
  pub name : Bytes
  pub version : ℕ
  pub required : Bool

-- A map from names to capabilities is the list of its values; every value is stored under its own
-- name.
unfoldable pub lookup : Bytes → List Capability → Option Capability
lookup name [] = none
lookup name (c ∷ cs) = if bytes_eq c.name name then some c else lookup name cs

-- The loop of `indexCapabilities`; `side` tells the two sides' errors apart.
index_loop : String → List Capability → List Capability → Result (List Capability)
index_loop side [] idx = ok idx
index_loop side (c ∷ cs) idx = elim (lookup c.name idx) [
  | some _ ↦ err (wrapf side (sentinel malformed_hello))
  | none ↦ index_loop side cs (c ∷ idx)
]

unfoldable pub index_capabilities : List Capability → String → Result (List Capability)
unfolding index_loop
index_capabilities caps side = index_loop side caps []

-- One round of the loop that collects `active`.
abbrev pub join_versions : Capability → Capability → Capability
join_versions lc pc = record {
  name = lc.name;
  version = if ltb pc.version lc.version then pc.version else lc.version;
  required = false;
}

pub active_set : List Capability → List Capability → List Capability
active_set [] peer_by_name = []
active_set (lc ∷ cs) peer_by_name = elim (lookup lc.name peer_by_name) [
  | none ↦ active_set cs peer_by_name
  | some pc ↦ join_versions lc pc ∷ active_set cs peer_by_name
]

-- The two loops over the required capabilities.
pub check_required : String → List Capability → List Capability → Result (Unit {0})
check_required side [] by_name = ok tt
check_required side (c ∷ cs) by_name =
    let rest = check_required side cs by_name in
    if not c.required then rest else elim (lookup c.name by_name) [
      | none ↦ err (wrapf side (sentinel missing_required_capability))
      | some _ ↦ rest
    ]

unfoldable pub negotiate_capabilities : List Capability → List Capability → Result (List Capability)
unfolding active_set check_required index_capabilities
negotiate_capabilities local peer = do
  local_by_name ← index_capabilities local "local side has duplicate capability name"
  peer_by_name ← index_capabilities peer "peer side has duplicate capability name"
  let active = active_set local peer_by_name
  _ ← check_required "local requires" local peer_by_name
  _ ← check_required "peer requires" peer local_by_name
  ok active
