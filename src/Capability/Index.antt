-- ===== src/Capability/Index.antt =====
-- `indexCapabilities`: it accepts the lists without a name that comes twice, and its map answers
-- as the list does.
use aire_go.Base.{
  Bool-cases, Option-cases, All, Error, Result-cases, malformed_hello, sentinel, wrapf, ok, err,
  panic, String, ◌≡◌, refl, sym, ap, ◌∙◌, ◌≢◌, ◌⊎◌, inl, inr, true, false, Option, none, some, List,
  [], ◌∷◌, arith,
}
use aire_go.Base.Text.{bytes_eq, bytes_eq_comm, bytes_eq_sound}
use aire_go.Varint.{Bytes}
use aire_go.Capability.{Capability, lookup, index_loop, index_capabilities}

-- No name comes twice.
abbrev pub IsUnique : List Capability → Type 0
IsUnique [] = Unit
IsUnique (c ∷ cs) = (lookup c.name cs ≡ none) × IsUnique cs

-- No capability of the first list has an entry in the map.
abbrev AllFresh : List Capability → List Capability → Type 0
AllFresh cs idx = All (λ c. lookup c.name idx ≡ none) cs

abbrev rev_onto : List Capability → List Capability → List Capability
rev_onto [] idx = idx
rev_onto (c ∷ cs) idx = rev_onto cs (c ∷ idx)

abbrev or_else : Option Capability → Option Capability → Option Capability
or_else none o = o
or_else (some c) o = some c

pub lookup-head :
    (c : Capability) (cs : List Capability) (n : Bytes)
    → bytes_eq c.name n ≡ false
    → lookup n (c ∷ cs) ≡ lookup n cs
unfolding lookup
lookup-head c cs n e = rw e

pub lookup_found :
    (c : Capability) (cs : List Capability) (n : Bytes)
    → bytes_eq c.name n ≡ true
    → lookup n (c ∷ cs) ≡ some c
unfolding lookup
lookup_found c cs n e = rw e

-- A key that is not there differs from every name of the list.
lookup_cons-none :
    (c : Capability) (cs : List Capability) (n : Bytes)
    → lookup n (c ∷ cs) ≡ none
    → (bytes_eq c.name n ≡ false) × (lookup n cs ≡ none)
unfolding lookup
lookup_cons-none c cs n e = elim (Bool-cases (bytes_eq c.name n)) [
  | inl t ↦ ground (arith, t)
  | inr f ↦ (f, rw f at e)
]

-- One capability moved to the map.
fresh_in :
    (c : Capability) (cs idx : List Capability)
    → AllFresh cs (c ∷ idx)
    → AllFresh cs idx × (lookup c.name cs ≡ none)
fresh_in c [] idx h = (tt, unfold lookup in refl)
fresh_in c (d ∷ ds) idx (h, hs) =
    let (differs, fresh) = lookup_cons-none c idx d.name h in
    let (all, gone) = fresh_in c ds idx hs in
    ((fresh, all), lookup-head d ds c.name (bytes_eq_comm d.name c.name ∙ differs) ∙ gone)

fresh_out :
    (c : Capability) (cs idx : List Capability)
    → lookup c.name cs ≡ none
    → AllFresh cs idx
    → AllFresh cs (c ∷ idx)
fresh_out c [] idx e h = tt
fresh_out c (d ∷ ds) idx e (h, hs) =
    let (differs, gone) = lookup_cons-none d ds c.name e in
    (
      lookup-head c idx d.name (bytes_eq_comm c.name d.name ∙ differs) ∙ h,
      fresh_out c ds idx gone hs,
    )

index_loop_sound :
    (side : String) (cs idx idx' : List Capability)
    → index_loop side cs idx ≡ ok idx'
    → (idx' ≡ rev_onto cs idx) × IsUnique cs × AllFresh cs idx
unfolding index_loop
index_loop_sound side [] idx idx' e = (ground arith, tt, tt)
index_loop_sound side (c ∷ cs) idx idx' e = elim (Option-cases (lookup c.name idx)) [
  | inr (d, r) ↦ ground (arith, r)
  | inl r ↦
      let (eq, unique, fresh) = index_loop_sound side cs (c ∷ idx) idx' (rw (r, index_loop) at e) in
      let (old, gone) = fresh_in c cs idx fresh in (eq, (gone, unique), (r, old))
]

index_loop_complete :
    (side : String) (cs idx : List Capability)
    → IsUnique cs
    → AllFresh cs idx
    → index_loop side cs idx ≡ ok (rev_onto cs idx)
unfolding index_loop
index_loop_complete side [] idx u h = refl
index_loop_complete side (c ∷ cs) idx (gone, u) (r, h) =
    rw (r, index_loop) (index_loop_complete side cs (c ∷ idx) u (fresh_out c cs idx gone h))

index_loop-errors :
    (side : String) (cs idx : List Capability) (e : Error)
    → index_loop side cs idx ≡ err e
    → e ≡ wrapf side (sentinel malformed_hello)
unfolding index_loop
index_loop-errors side [] idx e h = cc
index_loop-errors side (c ∷ cs) idx e h = ground (arith, index_loop-errors side cs (c ∷ idx) e)

lookup-rev_onto :
    (n : Bytes) (cs idx : List Capability)
    → IsUnique cs
    → lookup n (rev_onto cs idx) ≡ or_else (lookup n cs) (lookup n idx)
lookup-rev_onto n [] idx u = unfold lookup in refl
lookup-rev_onto n (c ∷ cs) idx (gone, u) =
    lookup-rev_onto n cs (c ∷ idx) u ∙ elim (Bool-cases (bytes_eq c.name n)) [
      | inl t ↦
          let none_left : lookup n cs ≡ none =
            ap (λ k. lookup k cs) (sym (bytes_eq_sound c.name n t)) ∙ gone in
          rw (none_left, lookup_found c cs n t, lookup_found c idx n t)
      | inr f ↦ rw (lookup-head c cs n f, lookup-head c idx n f)
    ]

or_else-none : (o : Option Capability) → or_else o none ≡ o
or_else-none none = refl
or_else-none (some c) = refl

lookup-nil : (n : Bytes) → lookup n [] ≡ none
unfolding lookup
lookup-nil n = refl

-- What the callers use: when the index is built, for which lists, and how it answers.
pub index_capabilities_sound :
    (cs : List Capability) (side : String) (idx : List Capability)
    → index_capabilities cs side ≡ ok idx
    → IsUnique cs × ((n : Bytes) → lookup n idx ≡ lookup n cs)
unfolding index_capabilities
index_capabilities_sound cs side idx e =
    let (eq, u, _) = index_loop_sound side cs [] idx e in
    (
      u,
      λ n.
          ap (lookup n) eq
          ∙ lookup-rev_onto n cs [] u
          ∙ ap (or_else (lookup n cs)) (lookup-nil n)
          ∙ or_else-none (lookup n cs),
    )

AllFresh-nil : (cs : List Capability) → AllFresh cs []
unfolding lookup
AllFresh-nil [] = tt
AllFresh-nil (c ∷ cs) = (refl, AllFresh-nil cs)

pub index_capabilities_complete :
    (cs : List Capability) (side : String)
    → IsUnique cs
    → (idx : List Capability) × (index_capabilities cs side ≡ ok idx)
unfolding index_capabilities
index_capabilities_complete cs side u =
    (rev_onto cs [], index_loop_complete side cs [] u (AllFresh-nil cs))

index_loop-ne-panic : (side : String) (cs idx : List Capability) → index_loop side cs idx ≢ panic
unfolding index_loop
index_loop-ne-panic side [] idx = λ e. cc
index_loop-ne-panic side (c ∷ cs) idx = ground (arith, index_loop-ne-panic side cs (c ∷ idx))

-- Every list is indexed, or refused as a malformed HELLO.
pub index_capabilities-cases :
    (cs : List Capability) (side : String)
    → ((idx : List Capability) × (index_capabilities cs side ≡ ok idx))
      ⊎ (index_capabilities cs side ≡ err (wrapf side (sentinel malformed_hello)))
unfolding index_capabilities
index_capabilities-cases cs side = elim (Result-cases (index_loop side cs [])) [
  | inl (idx, e) ↦ inl (idx, e)
  | inr (inl (x, e)) ↦ inr (e ∙ ap err (index_loop-errors side cs [] x e))
  | inr (inr e) ↦ absurd (index_loop-ne-panic side cs [] e)
]
