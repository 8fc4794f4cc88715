-- ===== src/Addressing/Services.antt =====
-- The address that `pickAIREv1` takes from a DID Document.
use aire_go.Base.{
  if◌then◌else◌, Bool-cases, Option-cases, All, no_aire_service, sentinel, ok, err, ◌≡◌, refl, ap,
  ◌⊎◌, inl, inr, none, some, List, [], ◌∷◌, ◌++◌, arith,
}
use aire_go.Base.Text.{codes, bytes_eq}
use aire_go.Addressing.AireUri.{HasAddress, HasNo, address_of-HasAddress, address_of-HasNo}
use aire_go.Varint.{Bytes}
use aire_go.Addressing.{ServiceEndpoint, Address, ServiceEntry, Platform, Resolver, DidDocument}
use aire_go.Addressing.Resolve.{address_of, pick_endpoint, pick_service, pick_aire_v1}

-- The endpoints of the services of type AIREv1, in the order of the document.
unfoldable pub aire_endpoints : List ServiceEntry → List ServiceEndpoint
aire_endpoints [] = []
aire_endpoints (svc ∷ svcs) =
    let rest = aire_endpoints svcs in
    if bytes_eq svc.type (codes "AIREv1") then svc.service_endpoint ++ rest else rest

module _ (platform : Platform) (r : Resolver) where
  -- The first endpoint that has an address.
  pub record IsFirst (default_agent_id : Bytes) (eps : List ServiceEndpoint) (addr : Address)
      : Type 0 where
    pub skipped : List ServiceEndpoint
    pub chosen : ServiceEndpoint
    pub behind : List ServiceEndpoint
    pub place : eps ≡ skipped ++ chosen ∷ behind
    pub unusable : All (HasNo platform r default_agent_id) skipped
    pub usable : HasAddress platform default_agent_id chosen addr

  abbrev pub HasNone : Bytes → List ServiceEndpoint → Type 0
  HasNone default_agent_id eps = All (HasNo platform r default_agent_id) eps

  pick_endpoint_cases :
      (eps : List ServiceEndpoint) (default_agent_id : Bytes)
      → ((addr : Address) × (pick_endpoint platform r eps default_agent_id ≡ some addr)
          × IsFirst default_agent_id eps addr)
        ⊎ ((pick_endpoint platform r eps default_agent_id ≡ none) × HasNone default_agent_id eps)
  unfolding pick_endpoint
  pick_endpoint_cases [] d = inr (refl, tt)
  pick_endpoint_cases (ep ∷ eps) d = elim (Option-cases (address_of platform r d ep)) [
    | inr (addr, e) ↦ inl (
      addr,
      ground (arith, e),
      record {
        skipped = [];
        chosen = ep;
        behind = eps;
        place = refl;
        unusable = tt;
        usable = address_of-HasAddress platform r d ep addr e;
      },
    )
    | inl e ↦ elim (pick_endpoint_cases eps d) [
      | inl (addr, same, f) ↦ inl (
        addr,
        ground (arith, e, same),
        record {
          skipped = ep ∷ f.skipped;
          chosen = f.chosen;
          behind = f.behind;
          place = ap (λ l. ep ∷ l) f.place;
          unusable = (address_of-HasNo platform r d ep e, f.unusable);
          usable = f.usable;
        },
      )
      | inr (same, f) ↦ inr (ground (arith, e, same), (address_of-HasNo platform r d ep e, f))
    ]
  ]

  pick_endpoint-append :
      (xs ys : List ServiceEndpoint) (d : Bytes)
      → pick_endpoint platform r (xs ++ ys) d ≡ elim (pick_endpoint platform r xs d) [
        | some addr ↦ some addr
        | none ↦ pick_endpoint platform r ys d
      ]
  unfolding pick_endpoint
  pick_endpoint-append [] ys d = refl
  pick_endpoint-append (x ∷ xs) ys d = elim (Option-cases (address_of platform r d x)) [
    | inr (addr, e) ↦ ground (arith, e)
    | inl e ↦ ground (arith, e, pick_endpoint-append xs ys d)
  ]

  -- The two loops are one loop over the endpoints.
  pick_service-endpoints :
      (svcs : List ServiceEntry) (d : Bytes)
      → pick_service platform r svcs d ≡ elim (pick_endpoint platform r (aire_endpoints svcs) d) [
        | some addr ↦ ok addr
        | none ↦ err (sentinel no_aire_service)
      ]
  unfolding pick_service aire_endpoints pick_endpoint
  pick_service-endpoints [] d = refl
  pick_service-endpoints (svc ∷ svcs) d = elim (Bool-cases (bytes_eq svc.type (codes "AIREv1"))) [
    | inr a ↦ rw a (pick_service-endpoints svcs d)
    | inl a ↦ elim (Option-cases (pick_endpoint platform r svc.service_endpoint d)) [
      | inr (addr, e) ↦
          rw (a, pick_endpoint-append svc.service_endpoint (aire_endpoints svcs) d, e) refl
      | inl e ↦
          rw (a, pick_endpoint-append svc.service_endpoint (aire_endpoints svcs) d, e)
            (pick_service-endpoints svcs d)
    ]
  ]

  -- `pickAIREv1` returns the address of the first endpoint, over all services of type AIREv1 in
  -- the order of the document, whose URI is an aire URI with a host: the host, with port 4433 if the
  -- URI names none, the agent ID of the endpoint, or the default if it has none, and what it accepts.
  -- Where no endpoint of theirs has such a URI, it returns ErrNoAIREv1Service. A service of another type
  -- never counts.
  pub pick_aire_v1-IsFirst :
      (doc : DidDocument) (default_agent_id : Bytes)
      → ((addr : Address) × (pick_aire_v1 platform r doc default_agent_id ≡ ok addr)
          × IsFirst default_agent_id (aire_endpoints doc.service) addr)
        ⊎ ((pick_aire_v1 platform r doc default_agent_id ≡ err (sentinel no_aire_service))
            × HasNone default_agent_id (aire_endpoints doc.service))
  unfolding pick_aire_v1
  pick_aire_v1-IsFirst doc d =
      let same = pick_service-endpoints doc.service d in
      elim (pick_endpoint_cases (aire_endpoints doc.service) d) [
        | inl (addr, e, first) ↦ inl (addr, rw (same, e) refl, first)
        | inr (e, nothing) ↦ inr (rw (same, e) refl, nothing)
      ]
