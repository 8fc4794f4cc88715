-- ===== src/Addressing/Verified.antt =====
-- What `Resolve` has made sure of when it returns an address.
use aire_go.Base.{
  Bool-cases, Result-cases, ok, ◌≡◌, sym, ap, ◌⊎◌, inl, inr, true, false, List, [], ◌∷◌, ◌++◌,
  arith,
}
use mathlib.Core.List.{Mem, mem-cons_self, mem-cons_of_mem}
use aire_go.Base.Text.{codes, has_prefix, bytes_eq, bytes_eq_sound}
use aire_go.Varint.{Bytes}
use aire_go.Addressing.{
  Address, DidDocument, Platform, Resolver, did_web_to_url, contains, parse_handle,
  verify_also_known_as,
}
use aire_go.Addressing.Resolve.{
  fetch_did_document, resolve_did_web, resolve_did, resolve_handle, resolve,
}
use aire_go.Addressing.Services.{aire_endpoints, IsFirst, pick_aire_v1-IsFirst}
use aire_go.Addressing.Handles.{SpellsHandle, parse_handle-ok_iff}

-- The URI that stands for a handle in a DID Document.
abbrev pub handle_uri : Bytes → Bytes → Bytes
handle_uri local domain = codes "aire://" ++ (local ++ (codes "@" ++ domain))

contains_sound : (s : Bytes) (xs : List Bytes) → contains s xs ≡ true → Mem s xs
unfolding contains
contains_sound s [] e = cc
contains_sound s (x ∷ xs) e = elim (Bool-cases (bytes_eq x s)) [
  | inl a ↦ rw (bytes_eq_sound x s a) mem-cons_self
  | inr a ↦ mem-cons_of_mem x (contains_sound s xs (rw a at e))
]

module _ (platform : Platform) (r : Resolver) where
  -- The address of a did:web, from the document at its URL.
  pub record IsResolved (did default_agent_id : Bytes) (addr : Address) (doc : DidDocument)
      : Type 0 where
    pub is_web : has_prefix (codes "did:web:") did ≡ true
    pub doc_url : Bytes
    pub location : did_web_to_url did ≡ ok doc_url
    pub fetched : fetch_did_document platform r doc_url ≡ ok doc
    pub picked : Address
    pub first : IsFirst platform r default_agent_id (aire_endpoints doc.service) picked
    pub same : addr ≡ record picked { did = did }

  resolve_did_web-ok :
      (did d : Bytes) (addr : Address) (doc : DidDocument)
      → has_prefix (codes "did:web:") did ≡ true
      → resolve_did_web platform r did d ≡ ok (addr, doc)
      → IsResolved did d addr doc
  unfolding resolve_did_web
  resolve_did_web-ok did d addr doc web e = elim (Result-cases (did_web_to_url did)) [
    | inr (inl (x, a)) ↦ ground (arith, a)
    | inr (inr a) ↦ ground (arith, a)
    | inl (doc_url, a) ↦ elim (Result-cases (fetch_did_document platform r doc_url)) [
      | inr (inl (x, b)) ↦ ground (arith, a, b)
      | inr (inr b) ↦ ground (arith, a, b)
      | inl (found, b) ↦ elim (pick_aire_v1-IsFirst platform r found d) [
        | inr (c, _) ↦ ground (arith, a, b, c)
        | inl (picked, c, first) ↦
            let (same, same_doc) : (addr ≡ record picked { did = did }) × (found ≡ doc) =
              ground (arith, a, b, c) in
            record {
              is_web = web;
              doc_url = doc_url;
              location = a;
              fetched = rw (sym same_doc) b;
              picked = picked;
              first = rw (sym same_doc) first;
              same = same;
            }
      ]
    ]
  ]

  resolve_did-ok :
      (did d : Bytes) (addr : Address) (doc : DidDocument)
      → resolve_did platform r did d ≡ ok (addr, doc)
      → IsResolved did d addr doc
  unfolding resolve_did
  resolve_did-ok did d addr doc e = elim (Bool-cases (has_prefix (codes "did:web:") did)) [
    | inl a ↦ resolve_did_web-ok did d addr doc a (rw a at e)
    | inr a ↦ elim (Bool-cases (has_prefix (codes "did:key:") did)) [
      | inl b ↦ ground (arith, a, b)
      | inr b ↦ ground (arith, a, b)
    ]
  ]

  -- The identity behind a handle that resolved.
  pub record IsVerified (ref : Bytes) (addr : Address) : Type 0 where
    pub local : Bytes
    pub domain : Bytes
    pub spelled : SpellsHandle ref local domain
    pub claimed : resolve_handle platform r local domain ≡ ok addr.did
    pub doc : DidDocument
    pub resolved : IsResolved addr.did local addr doc
    pub listed : Mem (handle_uri local domain) doc.also_known_as

  verify_also_known_as-ok :
      (doc : DidDocument) (local domain : Bytes)
      → verify_also_known_as doc local domain ≡ ok tt
      → Mem (handle_uri local domain) doc.also_known_as
  unfolding verify_also_known_as
  verify_also_known_as-ok doc local domain e =
      elim (Bool-cases (contains (handle_uri local domain) doc.also_known_as)) [
        | inl a ↦ contains_sound _ _ a
        | inr a ↦ ground (arith, a)
      ]

  resolve-handle_ok :
      (ref : Bytes) (addr : Address)
      → has_prefix (codes "did:") ref ≡ false
      → resolve platform r ref ≡ ok addr
      → IsVerified ref addr
  unfolding resolve
  resolve-handle_ok ref addr plain e = elim (Result-cases (parse_handle ref)) [
    | inr (inl (x, a)) ↦ ground (arith, a, plain)
    | inr (inr a) ↦ ground (arith, a, plain)
    | inl ((local, domain), a) ↦ elim (Result-cases (resolve_handle platform r local domain)) [
      | inr (inl (x, b)) ↦ ground (arith, a, b, plain)
      | inr (inr b) ↦ ground (arith, a, b, plain)
      | inl (did, b) ↦ elim (Result-cases (resolve_did platform r did local)) [
        | inr (inl (x, c)) ↦ ground (arith, a, b, c, plain)
        | inr (inr c) ↦ ground (arith, a, b, c, plain)
        | inl ((addr', doc), c) ↦ elim (Result-cases (verify_also_known_as doc local domain)) [
          | inr (inl (x, d)) ↦ ground (arith, a, b, c, d, plain)
          | inr (inr d) ↦ ground (arith, a, b, c, d, plain)
          | inl (_, d) ↦
              let same : addr' ≡ addr = ground (arith, a, b, c, d, plain) in
              let res = rw same at (resolve_did-ok did local addr' doc c) in
              let own : did ≡ addr.did = sym (ap (λ (x : Address). x.did) res.same) in
              record {
                local = local;
                domain = domain;
                spelled = (parse_handle-ok_iff ref local domain).0 a;
                claimed = rw own at b;
                doc = doc;
                resolved = rw own at res;
                listed = verify_also_known_as-ok doc local domain d;
              }
        ]
      ]
    ]
  ]

  -- Whatever `Resolve` returns for a DID is the address of that did:web, and whatever it returns
  -- for a handle is verified both ways: the handle led to the DID of the address, over DNS or
  -- HTTPS, that DID is a did:web, the document at its URL was fetched, the endpoint is that of the
  -- first usable AIREv1 endpoint of the document with the local part as default agent ID, and
  -- the document lists the handle in alsoKnownAs.
  pub resolve_sound :
      (ref : Bytes) (addr : Address)
      → resolve platform r ref ≡ ok addr
      → ((doc : DidDocument) × (has_prefix (codes "did:") ref ≡ true) × IsResolved ref [] addr doc)
        ⊎ ((has_prefix (codes "did:") ref ≡ false) × IsVerified ref addr)
  unfolding resolve
  resolve_sound ref addr e = elim (Bool-cases (has_prefix (codes "did:") ref)) [
    | inr a ↦ inr (a, resolve-handle_ok ref addr a e)
    | inl a ↦ elim (Result-cases (resolve_did platform r ref [])) [
      | inr (inl (x, b)) ↦ ground (arith, a, b)
      | inr (inr b) ↦ ground (arith, a, b)
      | inl ((addr', doc), b) ↦
          let same : addr' ≡ addr = ground (arith, a, b) in
          inl (doc, a, rw same at (resolve_did-ok ref [] addr' doc b))
    ]
  ]
