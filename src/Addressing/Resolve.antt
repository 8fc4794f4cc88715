-- ===== src/Addressing/Resolve.antt =====
-- The resolver of addressing.go: `Resolve` and what it calls. A client and a lookup that are not set
-- are those of the packages.
use aire_go.Base.{
  ltb, ◌==◌, if◌then◌else◌, length, Result, ◌>>=◌, map_err, no_aire_service, unsupported_did_method,
  sentinel, message, wrapf, ok, err, panic, String, inl, inr, ◌||◌, not, Option, none, some, List,
  [], ◌∷◌, ◌++◌,
}
use aire_go.Base.Text.{codes}
use aire_go.Url.{query_escape, trim_space, trim_newlines}
use aire_go.Varint.{Bytes}
use aire_go.Addressing.{
  Address, ServiceEndpoint, ServiceEntry, DidDocument, Response, Client, LookupTxt, Platform,
  Resolver, read_all, read_limited, parse_handle, parse_txt_did_value, did_web_to_url,
  verify_also_known_as,
}
use aire_go.Base.Text.{bytes_eq, has_prefix}

module _ (platform : Platform) (r : Resolver) where
  abbrev pub client_of : Client
  client_of = elim r.http_client [ some c ↦ c | none ↦ platform.default_client ]

  abbrev pub lookup_records : LookupTxt
  lookup_records = elim r.lookup_txt [ some l ↦ l | none ↦ platform.default_lookup_txt ]

  -- The request, the status and the body, as `read` gives it.
  unfoldable pub fetch : String → (Response → Result Bytes) → Bytes → Result Bytes
  fetch what read url = do
    _ ← platform.new_request url
    resp ← map_err (wrapf "aire: fetch") (client_of url)
    if not (resp.status_code == 200)
        then err (message what)
        else map_err (wrapf "aire: read") (read resp)

  unfoldable pub fetch_did_document : Bytes → Result DidDocument
  unfolding fetch
  fetch_did_document doc_url = do
    body ← fetch "aire: fetch: status" read_all doc_url
    map_err (wrapf "aire: parse DID Document") (platform.unmarshal body)

  unfoldable pub resolve_handle_via_txt : Bytes → Bytes → Result Bytes
  resolve_handle_via_txt local domain = do
    records ← lookup_records (codes "_aire." ++ (local ++ (codes "." ++ domain)))
    elim records [
      | [] ↦ err (message "aire: no TXT records")
      | record_value ∷ others ↦
          if ltb 0 (length others)
          then err (message "aire: multiple TXT records; ambiguous")
          else parse_txt_did_value record_value
    ]

  unfoldable pub well_known_url : Bytes → Bytes → Bytes
  well_known_url local domain =
      codes "https://" ++ (domain ++ (codes "/.well-known/aire-did?name=" ++ query_escape local))

  unfoldable pub resolve_handle_via_well_known : Bytes → Bytes → Result Bytes
  unfolding fetch
  resolve_handle_via_well_known local domain = do
    body ← fetch "aire: well-known: status" (read_limited 4096) (well_known_url local domain)
    let did = trim_newlines (trim_space body)
    if length did == 0 || not (has_prefix (codes "did:") did)
        then err (message "aire: well-known: body is not a DID")
        else ok did

  -- DNS first; whatever goes wrong there, HTTPS decides.
  unfoldable pub resolve_handle : Bytes → Bytes → Result Bytes
  resolve_handle local domain = elim (resolve_handle_via_txt local domain) [
    | ok did ↦ ok did
    | panic ↦ panic
    | err _ ↦ resolve_handle_via_well_known local domain
  ]

  unfoldable pub parse_aire_uri : Bytes → Result Bytes
  parse_aire_uri s =
      if length s == 0 then err (message "aire: empty URI") else elim (platform.parse_url s) [
        | inl e ↦ err (wrapf "aire: parse URI" e)
        | inr u ↦
            if not (bytes_eq u.scheme (codes "aire"))
            then err (message "aire: not an aire URI")
            else if length u.host == 0
            then err (message "aire: empty host in URI")
            else if length u.port == 0
            then ok (u.host ++ codes ":4433")
            else ok u.host
      ]

  -- What the body of the inner loop returns; `none` goes on with the next endpoint.
  unfoldable pub address_of : Bytes → ServiceEndpoint → Option Address
  address_of default_agent_id ep = elim (parse_aire_uri ep.uri) [
    | ok endpoint ↦ some (record {
      did = [];
      endpoint = endpoint;
      agent_id = if length ep.agent_id == 0 then default_agent_id else ep.agent_id;
      accept = ep.accept;
    })
    | err _ ↦ none
    | panic ↦ none
  ]

  -- The loop over the endpoints of one service; `none` goes on with the next service.
  unfoldable pub pick_endpoint : List ServiceEndpoint → Bytes → Option Address
  pick_endpoint [] default_agent_id = none
  pick_endpoint (ep ∷ eps) default_agent_id =
      let rest = pick_endpoint eps default_agent_id in
      elim (address_of default_agent_id ep) [ some addr ↦ some addr | none ↦ rest ]

  unfoldable pub pick_service : List ServiceEntry → Bytes → Result Address
  pick_service [] default_agent_id = err (sentinel no_aire_service)
  pick_service (svc ∷ svcs) default_agent_id =
      let rest = pick_service svcs default_agent_id in
      if not (bytes_eq svc.type (codes "AIREv1"))
      then rest
      else elim (pick_endpoint svc.service_endpoint default_agent_id) [
        | some addr ↦ ok addr
        | none ↦ rest
      ]

  unfoldable pub pick_aire_v1 : DidDocument → Bytes → Result Address
  pick_aire_v1 doc default_agent_id = pick_service doc.service default_agent_id

  unfoldable pub resolve_did_web : Bytes → Bytes → Result (Address × DidDocument)
  resolve_did_web did default_agent_id = do
    doc_url ← did_web_to_url did
    doc ← fetch_did_document doc_url
    addr ← pick_aire_v1 doc default_agent_id
    ok (record addr { did = did }, doc)

  unfoldable pub resolve_did : Bytes → Bytes → Result (Address × DidDocument)
  resolve_did did default_agent_id =
      if has_prefix (codes "did:web:") did
      then resolve_did_web did default_agent_id
      else if has_prefix (codes "did:key:") did
      then err (
          wrapf "did:key has no service entry; provide an explicit endpoint"
            (sentinel unsupported_did_method))
      else err (wrapf "method" (sentinel unsupported_did_method))

  unfoldable pub resolve : Bytes → Result Address
  resolve ref =
      if has_prefix (codes "did:") ref then (do (addr, _) ← resolve_did ref []; ok addr) else (do
        (local, domain) ← parse_handle ref
        did ← resolve_handle local domain
        (addr, doc) ← resolve_did did local
        _ ← verify_also_known_as doc local domain
        ok addr)
