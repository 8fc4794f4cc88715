-- ===== src/Capability/Agreement.antt =====
-- When `NegotiateCapabilities` succeeds, with what result, and that both peers agree on it.
use aire_go.Base.{
  Bool-cases, Option-cases, Option, none, min, ltb, if◌then◌else◌, false, refl, Result, ◌>>=◌, ok,
  ◌≡◌, sym, ◌∙◌, ◌↔◌, inl, inr, some, List, [], ◌∷◌, arith,
}
use aire_go.Varint.{Bytes}
use aire_go.Capability.{Capability, lookup, active_set, check_required, negotiate_capabilities}
use aire_go.Capability.Index.{
  IsUnique, index_capabilities_sound, index_capabilities_complete, index_capabilities-cases,
}
use aire_go.Capability.Negotiation.{
  agreed, AllSupplied, active_set-cong, check_required-cong, lookup-active_set,
  check_required_sound, check_required_complete, check_required-cases,
}
use aire_go.Base.Text.{bytes_eq, bytes_eq_sound}

-- The two loops over the required capabilities, and the active set, over the lists themselves.
abbrev outcome : List Capability → List Capability → Result (List Capability)
outcome local peer = do
  _ ← check_required "local requires" local peer
  _ ← check_required "peer requires" peer local
  ok (active_set local peer)

negotiate-outcome :
    (local peer : List Capability)
    → IsUnique local
    → IsUnique peer
    → negotiate_capabilities local peer ≡ outcome local peer
unfolding negotiate_capabilities
negotiate-outcome local peer ul up =
    let (il, el) =
      index_capabilities_complete local "local side has duplicate capability name" ul in
    let (ip, ep) = index_capabilities_complete peer "peer side has duplicate capability name" up in
    let (_, ll) = index_capabilities_sound local _ il el in
    let (_, lp) = index_capabilities_sound peer _ ip ep in
    rw (
      el,
      ep,
      check_required-cong "local requires" local ip peer lp,
      check_required-cong "peer requires" peer il local ll,
      active_set-cong local ip peer lp,
    )

-- What must hold of the two lists.
pub record IsCompatible (local peer : List Capability) : Type 0 where
  pub local_unique : IsUnique local
  pub peer_unique : IsUnique peer
  pub local_supplied : AllSupplied local peer
  pub peer_supplied : AllSupplied peer local

compatible-ok :
    (local peer : List Capability)
    → IsCompatible local peer
    → negotiate_capabilities local peer ≡ ok (active_set local peer)
compatible-ok local peer c =
    negotiate-outcome local peer c.local_unique c.peer_unique
    ∙ rw (
      check_required_complete "local requires" local peer c.local_supplied,
      check_required_complete "peer requires" peer local c.peer_supplied,
    )

negotiate-IsUnique :
    (local peer active : List Capability)
    → negotiate_capabilities local peer ≡ ok active
    → IsUnique local × IsUnique peer
unfolding negotiate_capabilities
negotiate-IsUnique local peer active e =
    elim (index_capabilities-cases local "local side has duplicate capability name") [
      | inr bad ↦ ground (arith, bad)
      | inl (il, el) ↦
          elim (index_capabilities-cases peer "peer side has duplicate capability name") [
            | inr bad ↦ ground (arith, el, bad)
            | inl (ip, ep) ↦ (
              (index_capabilities_sound local _ il el).0,
              (index_capabilities_sound peer _ ip ep).0,
            )
          ]
    ]

outcome-supplied :
    (local peer active : List Capability)
    → outcome local peer ≡ ok active
    → AllSupplied local peer × AllSupplied peer local
outcome-supplied local peer active e = elim (check_required-cases "local requires" local peer) [
  | inr bad ↦ ground (arith, bad)
  | inl a ↦ elim (check_required-cases "peer requires" peer local) [
    | inr bad ↦ ground (arith, a, bad)
    | inl b ↦ (
      check_required_sound "local requires" local peer a,
      check_required_sound "peer requires" peer local b,
    )
  ]
]

ok-IsCompatible :
    (local peer active : List Capability)
    → negotiate_capabilities local peer ≡ ok active
    → IsCompatible local peer
ok-IsCompatible local peer active e =
    let (ul, up) = negotiate-IsUnique local peer active e in
    let (sl, sp) =
      outcome-supplied local peer active (sym (negotiate-outcome local peer ul up) ∙ e) in
    record { local_unique = ul; peer_unique = up; local_supplied = sl; peer_supplied = sp }

-- `NegotiateCapabilities` succeeds exactly when no name comes twice on either side and every
-- capability that one side requires has its name advertised by the other.
pub negotiate_capabilities-ok_iff :
    (local peer : List Capability)
    → ((active : List Capability) × (negotiate_capabilities local peer ≡ ok active))
      ↔ IsCompatible local peer
negotiate_capabilities-ok_iff local peer = (
  λ r. ok-IsCompatible local peer r.0 r.1,
  λ c. (active_set local peer, compatible-ok local peer c),
)

negotiate_capabilities-lookup :
    (local peer active : List Capability) (name : Bytes)
    → negotiate_capabilities local peer ≡ ok active
    → lookup name active ≡ agreed (lookup name local) (lookup name peer)
negotiate_capabilities-lookup local peer active name e =
    let known = compatible-ok local peer (ok-IsCompatible local peer active e) in
    let same : active ≡ active_set local peer = cc (e, known) in
    rw same (lookup-active_set name local peer)

lookup-name :
    (n : Bytes) (cs : List Capability) (c : Capability) → lookup n cs ≡ some c → c.name ≡ n
unfolding lookup
lookup-name n [] c e = cc
lookup-name n (d ∷ ds) c e = elim (Bool-cases (bytes_eq d.name n)) [
  | inl t ↦ ground (arith, t, bytes_eq_sound d.name n t)
  | inr f ↦ lookup-name n ds c (rw f at e)
]

-- What stands for a name in the active set, if both sides or not both advertise it.
abbrev pub IsActive : Bytes → Option Capability → Option Capability → Option Capability → Type 0
IsActive name none _ active = active ≡ none
IsActive name (some lc) none active = active ≡ none
IsActive name (some lc) (some pc) active =
    active ≡ some (record { name = name; version = min lc.version pc.version; required = false })

agreed-IsActive :
    (name : Bytes) (l p : List Capability)
    → IsActive name (lookup name l) (lookup name p) (agreed (lookup name l) (lookup name p))
agreed-IsActive name l p = elim (Option-cases (lookup name l)) [
  | inl a ↦ rw a refl
  | inr (lc, a) ↦ elim (Option-cases (lookup name p)) [
    | inl b ↦ rw (a, b) refl
    | inr (pc, b) ↦
        let smaller : (if ltb pc.version lc.version then pc.version else lc.version)
            ≡ min lc.version pc.version =
          ground arith in
        rw (a, b) (rw (smaller, lookup-name name l lc a) refl)
  ]
]

-- When it succeeds, a name is active exactly if both sides advertise it, with the
-- smaller of the two minor versions and no Required mark; a name that one side does not advertise
-- is not active.
pub negotiate_capabilities-IsActive :
    (local peer active : List Capability) (name : Bytes)
    → negotiate_capabilities local peer ≡ ok active
    → IsActive name (lookup name local) (lookup name peer) (lookup name active)
negotiate_capabilities-IsActive local peer active name e =
    rw (negotiate_capabilities-lookup local peer active name e) (agreed-IsActive name local peer)

agreed_comm :
    (n : Bytes) (l p : List Capability)
    → agreed (lookup n l) (lookup n p) ≡ agreed (lookup n p) (lookup n l)
agreed_comm n l p = elim (Option-cases (lookup n l)) [
  | inl a ↦ elim (Option-cases (lookup n p)) [ inl b ↦ rw (a, b) | inr (pc, b) ↦ rw (a, b) ]
  | inr (lc, a) ↦ elim (Option-cases (lookup n p)) [
    | inl b ↦ rw (a, b)
    | inr (pc, b) ↦ rw (a, b) (ground (arith, lookup-name n l lc a, lookup-name n p pc b))
  ]
]

-- The negotiation is symmetric: if it succeeds on one side, it succeeds on the other, where the
-- lists change places, and the two active sets have the same entry, or none, for every name.
pub negotiate_capabilities_symmetric :
    (local peer active : List Capability)
    → negotiate_capabilities local peer ≡ ok active
    → (theirs : List Capability) × (negotiate_capabilities peer local ≡ ok theirs)
      × ((name : Bytes) → lookup name active ≡ lookup name theirs)
negotiate_capabilities_symmetric local peer active e =
    let c = ok-IsCompatible local peer active e in
    let c' : IsCompatible peer local = record {
      local_unique = c.peer_unique;
      peer_unique = c.local_unique;
      local_supplied = c.peer_supplied;
      peer_supplied = c.local_supplied;
    } in
    let e' = compatible-ok peer local c' in
    (
      active_set peer local,
      e',
      λ name.
          negotiate_capabilities-lookup local peer active name e
          ∙ agreed_comm name local peer
          ∙ sym (negotiate_capabilities-lookup peer local _ name e'),
    )
