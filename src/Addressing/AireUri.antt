-- ===== src/Addressing/AireUri.antt =====
-- Which service endpoints have an address, and which address.
use aire_go.Base.{
  if◌then◌else◌, Bool-cases, length, ◌≢◌, Error, Result-cases, ◌==◌, ok, ◌≡◌, refl, sym, subst,
  true, false, ◌⊎◌, inl, inr, none, some, [], ◌∷◌, ◌++◌, arith,
}
use aire_go.Base.Text.{codes, bytes_eq, bytes_eq_self, bytes_eq_sound}
use aire_go.Varint.{Bytes}
use aire_go.Addressing.{ServiceEndpoint, Address, Url, Platform, Resolver}
use aire_go.Addressing.Resolve.{parse_aire_uri, address_of}

-- The address to dial: the host as the URI has it, with port 4433 where it names none.
abbrev pub IsEndpoint : Url → Bytes → Type 0
IsEndpoint u endpoint =
    ((u.port ≡ []) × (endpoint ≡ u.host ++ codes ":4433")) ⊎ ((u.port ≢ []) × (endpoint ≡ u.host))

-- The agent that the endpoint names, or the default.
abbrev pub IsAgent : Bytes → Bytes → Bytes → Type 0
IsAgent named default_agent_id agent_id =
    ((named ≡ []) × (agent_id ≡ default_agent_id)) ⊎ ((named ≢ []) × (agent_id ≡ named))

-- The endpoint has an aire URI with a host, and this is its address.
pub record HasAddress (platform : Platform) (default_agent_id : Bytes) (ep : ServiceEndpoint)
    (addr : Address) : Type 0 where
  pub some_uri : ep.uri ≢ []
  pub url : Url
  pub parsed : platform.parse_url ep.uri ≡ inr url
  pub aire_scheme : url.scheme ≡ codes "aire"
  pub some_host : url.host ≢ []
  pub no_did : addr.did ≡ []
  pub dialled : IsEndpoint url addr.endpoint
  pub agent : IsAgent ep.agent_id default_agent_id addr.agent_id
  pub same_accept : addr.accept ≡ ep.accept

nil_of_length : (s : Bytes) → (length s == 0) ≡ true → s ≡ []
nil_of_length [] h = refl
nil_of_length (c ∷ s) h = ground arith

some_of_length : (s : Bytes) → (length s == 0) ≡ false → s ≢ []
some_of_length s h e = ground (arith, e)

length-some : (s : Bytes) → s ≢ [] → (length s == 0) ≡ false
length-some [] h = absurd (h refl)
length-some (c ∷ s) h = ground arith

IsAgent-if :
    (named default_agent_id : Bytes)
    → IsAgent named default_agent_id (if length named == 0 then default_agent_id else named)
IsAgent-if [] d = inl (refl, refl)
IsAgent-if (c ∷ s) d = rw (length-some (c ∷ s) (λ z. cc)) (inr (λ z. cc, refl))

if-IsAgent :
    (named default_agent_id agent_id : Bytes)
    → IsAgent named default_agent_id agent_id
    → (if length named == 0 then default_agent_id else named) ≡ agent_id
if-IsAgent named d agent_id (inl (e, same)) = rw (e, same) refl
if-IsAgent named d agent_id (inr (some_named, same)) = rw (length-some named some_named, same) refl

url-cases : (o : Error ⊎ Url) → ((x : Error) × (o ≡ inl x)) ⊎ ((u : Url) × (o ≡ inr u))
url-cases (inl x) = inl (x, refl)
url-cases (inr u) = inr (u, refl)

module _ (platform : Platform) (r : Resolver) where
  abbrev pub HasNo : Bytes → ServiceEndpoint → Type 0
  HasNo d ep = ¬ ((addr : Address) × HasAddress platform d ep addr)

  -- What a URI must be.
  record IsAireUri (uri endpoint : Bytes) : Type 0 where
    some_uri : uri ≢ []
    url : Url
    parsed : platform.parse_url uri ≡ inr url
    aire_scheme : url.scheme ≡ codes "aire"
    some_host : url.host ≢ []
    dialled : IsEndpoint url endpoint

  parse_aire_uri-IsAireUri :
      (uri endpoint : Bytes) → parse_aire_uri platform r uri ≡ ok endpoint → IsAireUri uri endpoint
  unfolding parse_aire_uri
  parse_aire_uri-IsAireUri uri endpoint e = elim (Bool-cases (length uri == 0)) [
    | inl a ↦ ground (arith, a)
    | inr a ↦ elim (url-cases (platform.parse_url uri)) [
      | inl (x, p) ↦ ground (arith, a, p)
      | inr (u, p) ↦ elim (Bool-cases (bytes_eq u.scheme (codes "aire"))) [
        | inr s ↦ ground (arith, a, p, s)
        | inl s ↦ elim (Bool-cases (length u.host == 0)) [
          | inl h ↦ ground (arith, a, p, s, h)
          | inr h ↦
              let dialled : IsEndpoint u endpoint = elim (Bool-cases (length u.port == 0)) [
                | inl o ↦ inl (nil_of_length u.port o, ground (arith, a, p, s, h, o))
                | inr o ↦ inr (some_of_length u.port o, ground (arith, a, p, s, h, o))
              ] in
              record {
                some_uri = some_of_length uri a;
                url = u;
                parsed = p;
                aire_scheme = bytes_eq_sound u.scheme (codes "aire") s;
                some_host = some_of_length u.host h;
                dialled = dialled;
              }
        ]
      ]
    ]
  ]

  IsAireUri-parse_aire_uri :
      (uri endpoint : Bytes) → IsAireUri uri endpoint → parse_aire_uri platform r uri ≡ ok endpoint
  unfolding parse_aire_uri
  IsAireUri-parse_aire_uri uri endpoint h =
      let scheme : bytes_eq h.url.scheme (codes "aire") ≡ true =
        rw h.aire_scheme (bytes_eq_self (codes "aire")) in
      rw (length-some uri h.some_uri, h.parsed, scheme, length-some h.url.host h.some_host)
        (elim h.dialled [
          | inl (none_named, e) ↦ rw (none_named, e) refl
          | inr (named, e) ↦ rw (length-some h.url.port named, e) refl
        ])

  pub address_of-HasAddress :
      (d : Bytes) (ep : ServiceEndpoint) (addr : Address)
      → address_of platform r d ep ≡ some addr
      → HasAddress platform d ep addr
  unfolding address_of
  address_of-HasAddress d ep addr e = elim (Result-cases (parse_aire_uri platform r ep.uri)) [
    | inr (inl (x, a)) ↦ ground (arith, a)
    | inr (inr a) ↦ ground (arith, a)
    | inl (endpoint, a) ↦
        let same : record {
          did = [];
          endpoint = endpoint;
          agent_id = if length ep.agent_id == 0 then d else ep.agent_id;
          accept = ep.accept;
        }
            ≡ addr =
          ground (arith, a) in
        let uri = parse_aire_uri-IsAireUri ep.uri endpoint a in
        subst (HasAddress platform d ep) same (record {
          some_uri = uri.some_uri;
          url = uri.url;
          parsed = uri.parsed;
          aire_scheme = uri.aire_scheme;
          some_host = uri.some_host;
          no_did = refl;
          dialled = uri.dialled;
          agent = IsAgent-if ep.agent_id d;
          same_accept = refl;
        })
  ]

  HasAddress-address_of :
      (d : Bytes) (ep : ServiceEndpoint) (addr : Address)
      → HasAddress platform d ep addr
      → address_of platform r d ep ≡ some addr
  unfolding address_of
  HasAddress-address_of d ep addr h =
      let uri = IsAireUri-parse_aire_uri ep.uri addr.endpoint (record {
        some_uri = h.some_uri;
        url = h.url;
        parsed = h.parsed;
        aire_scheme = h.aire_scheme;
        some_host = h.some_host;
        dialled = h.dialled;
      }) in
      rw
        (
          uri,
          address_of,
          if-IsAgent ep.agent_id d addr.agent_id h.agent,
          sym h.no_did,
          sym h.same_accept,
        )
        refl

  pub address_of-HasNo :
      (d : Bytes) (ep : ServiceEndpoint) → address_of platform r d ep ≡ none → HasNo d ep
  address_of-HasNo d ep e (addr, h) = cc (HasAddress-address_of d ep addr h, e)
