-- ===== src/Capability/Negotiation.antt =====
-- `NegotiateCapabilities`: when it succeeds, with what result, and that both peers agree.
use aire_go.Base.{
  Bool-cases, Option-cases, All, missing_required_capability, sentinel, wrapf, ok, err, String, ◌≡◌,
  refl, sym, ap, ◌∙◌, ◌⊎◌, inl, inr, false, Option, none, some, List, [], ◌∷◌, arith,
}
use aire_go.Varint.{Bytes}
use aire_go.Capability.{Capability, lookup, active_set, check_required, join_versions}
use aire_go.Capability.Index.{lookup-head, lookup_found}
use aire_go.Base.Text.{bytes_eq, bytes_eq_sound}

-- The entry of the active set for a name, from the two advertisements.
abbrev pub agreed : Option Capability → Option Capability → Option Capability
agreed none p = none
agreed (some lc) none = none
agreed (some lc) (some pc) = some (join_versions lc pc)

-- Every required capability of the first list has a counterpart in the second.
abbrev pub IsSupplied : Capability → List Capability → Type 0
IsSupplied c other = (c.required ≡ false) ⊎ ((pc : Capability) × (lookup c.name other ≡ some pc))

abbrev pub AllSupplied : List Capability → List Capability → Type 0
AllSupplied cs other = All (λ c. IsSupplied c other) cs

pub active_set-cong :
    (cs a b : List Capability)
    → ((n : Bytes) → lookup n a ≡ lookup n b)
    → active_set cs a ≡ active_set cs b
unfolding active_set
active_set-cong [] a b h = refl
active_set-cong (c ∷ cs) a b h = ground (arith, h c.name, active_set-cong cs a b h)

pub check_required-cong :
    (side : String) (cs a b : List Capability)
    → ((n : Bytes) → lookup n a ≡ lookup n b)
    → check_required side cs a ≡ check_required side cs b
unfolding check_required
check_required-cong side [] a b h = refl
check_required-cong side (c ∷ cs) a b h =
    ground (arith, h c.name, check_required-cong side cs a b h)

agreed-none : (o : Option Capability) → agreed o none ≡ none
agreed-none none = refl
agreed-none (some c) = refl

active_none :
    (c : Capability) (cs other : List Capability)
    → lookup c.name other ≡ none
    → (n : Bytes) → lookup n (active_set (c ∷ cs) other) ≡ lookup n (active_set cs other)
unfolding active_set
active_none c cs other e n = rw (e, active_set)

active_some :
    (c : Capability) (cs other : List Capability) (pc : Capability)
    → lookup c.name other ≡ some pc
    → (n : Bytes)
    → lookup n (active_set (c ∷ cs) other) ≡ lookup n (join_versions c pc ∷ active_set cs other)
unfolding active_set
active_some c cs other pc e n = rw (e, active_set)

pub lookup-active_set :
    (n : Bytes) (cs other : List Capability)
    → lookup n (active_set cs other) ≡ agreed (lookup n cs) (lookup n other)
lookup-active_set n [] other = unfold active_set lookup in refl
lookup-active_set n (c ∷ cs) other = elim (Option-cases (lookup c.name other)) [
  | inl missing ↦ active_none c cs other missing n ∙ elim (Bool-cases (bytes_eq c.name n)) [
    | inl t ↦
        let gone : lookup n other ≡ none =
          ap (λ k. lookup k other) (sym (bytes_eq_sound c.name n t)) ∙ missing in
        lookup-active_set n cs other ∙ rw (gone, agreed-none, agreed-none)
    | inr f ↦ rw (lookup-head c cs n f) (lookup-active_set n cs other)
  ]
  | inr (pc, found) ↦ active_some c cs other pc found n ∙ elim (Bool-cases (bytes_eq c.name n)) [
    | inl t ↦
        let same : lookup n other ≡ some pc =
          ap (λ k. lookup k other) (sym (bytes_eq_sound c.name n t)) ∙ found in
        rw
          (lookup_found (join_versions c pc) (active_set cs other) n t, lookup_found c cs n t, same)
    | inr f ↦
        rw (lookup-head (join_versions c pc) (active_set cs other) n f, lookup-head c cs n f)
          (lookup-active_set n cs other)
  ]
]

pub check_required_sound :
    (side : String) (cs other : List Capability)
    → check_required side cs other ≡ ok tt
    → AllSupplied cs other
unfolding check_required
check_required_sound side [] other e = tt
check_required_sound side (c ∷ cs) other e = elim (Bool-cases c.required) [
  | inr f ↦ (inl f, check_required_sound side cs other (ground (arith, f)))
  | inl t ↦ elim (Option-cases (lookup c.name other)) [
    | inl missing ↦ ground (arith, t, missing)
    | inr (pc, found) ↦
        (inr (pc, found), check_required_sound side cs other (ground (arith, t, found)))
  ]
]

pub check_required_complete :
    (side : String) (cs other : List Capability)
    → AllSupplied cs other
    → check_required side cs other ≡ ok tt
unfolding check_required
check_required_complete side [] other h = refl
check_required_complete side (c ∷ cs) other (h, hs) =
    ground (arith, check_required_complete side cs other hs)

pub check_required-cases :
    (side : String) (cs other : List Capability)
    → (check_required side cs other ≡ ok tt)
      ⊎ (check_required side cs other ≡ err (wrapf side (sentinel missing_required_capability)))
unfolding check_required
check_required-cases side [] other = inl refl
check_required-cases side (c ∷ cs) other = elim (check_required-cases side cs other) [
  | inl r ↦ ground (arith, r)
  | inr r ↦ ground (arith, r)
]
