-- ===== src/Examples/Resolving.antt =====
-- addressing.go at concrete inputs: one domain, with a toy web and a toy reader of URLs.
use aire_go.Base.{
  if◌then◌else◌, drop, Error, Result, no_aire_service, sentinel, message, ok, err, String, ◌≡◌,
  refl, ◌↔◌, ◌⊎◌, inl, inr, true, false, none, some, List, [], ◌∷◌,
}
use aire_go.Base.Text.{split, codes, bytes_eq, has_prefix, cut_at}
use aire_go.Varint.{Bytes}
use aire_go.Addressing.{
  Address, ServiceEntry, DidDocument, Response, Url, Client, Platform, Resolver, parse_handle,
  parse_trimmed_handle, parse_txt_did_value, did_web_to_url, contains, verify_also_known_as,
}
use aire_go.Addressing.Handles.{SpellsHandle, parse_handle-ok_iff}
use aire_go.Addressing.Resolve.{
  fetch, resolve_handle, pick_aire_v1, resolve, fetch_did_document, resolve_handle_via_txt,
  well_known_url, resolve_handle_via_well_known, parse_aire_uri, address_of, pick_endpoint,
  pick_service, resolve_did_web, resolve_did,
}
use aire_go.Addressing.Verified.{IsResolved, IsVerified, resolve_sound}
use aire_go.Addressing.Services.{aire_endpoints, IsFirst, HasNone, pick_aire_v1-IsFirst}
use aire_go.Addressing.Discovery.{FromTxt, FromWellKnown, resolve_handle_sound}
use aire_go.Addressing.WebLocation.{Spells, web_location}
use aire_go.Addressing.DidWeb.{did_web_to_url-ok_iff}
use aire_go.Url.{join, path_unescape, query_escape, trim_space, trim_newlines}

abbrev toy_parse_url : Bytes → Error ⊎ Url
toy_parse_url s =
    if has_prefix (codes "aire://") s
    then inr (record {
      scheme = codes "aire";
      host = drop 7 s;
      port = elim (cut_at b':' (drop 7 s)) [ none ↦ [] | some (_, port) ↦ port ];
    })
    else inl (message "not an aire URI")

abbrev bob_services : List ServiceEntry
bob_services =
    record {
      id = codes "#web";
      type = codes "Web";
      service_endpoint = record { uri = codes "aire://no.org"; accept = []; agent_id = [] } ∷ [];
    }
    ∷ record {
      id = codes "#aire";
      type = codes "AIREv1";
      service_endpoint =
          record { uri = codes "https://ex.org"; accept = []; agent_id = [] }
          ∷ record { uri = codes "aire://ex.org"; accept = codes "aire/v0" ∷ []; agent_id = [] }
          ∷ [];
    }
    ∷ []

abbrev bob_document : DidDocument
bob_document = record {
  id = codes "did:web:ex.org";
  also_known_as = codes "https://bob.org" ∷ codes "aire://bob@ex.org" ∷ [];
  service = bob_services;
  verification_method = [];
}

abbrev pub toy_platform : Platform
toy_platform = record {
  default_client = λ _. err (message "no route");
  default_lookup_txt = λ _. err (message "no such host");
  new_request = λ _. ok tt;
  unmarshal = λ body.
      if bytes_eq body (codes "{bob}") then ok bob_document else err (message "invalid character");
  parse_url = toy_parse_url;
}

abbrev answer : String → Result Response
answer body = ok (record { status_code = 200; body = codes body; broken = none })

abbrev toy_client : Client
toy_client url =
    if bytes_eq url (codes "https://ex.org/.well-known/did.json")
    then answer "{bob}"
    else if bytes_eq url (codes "https://ex.org/.well-known/aire-did?name=bob")
    then answer " did:web:ex.org\n"
    else err (message "not found")

abbrev over_dns : Resolver
over_dns = record {
  http_client = some toy_client;
  lookup_txt = some (λ name.
      if bytes_eq name (codes "_aire.bob.ex.org")
      then ok (codes "did=did:web:ex.org" ∷ [])
      else err (message "none"));
}

abbrev over_https : Resolver
over_https = record { http_client = some toy_client; lookup_txt = none }

abbrev bob_address : Address
bob_address = record {
  did = codes "did:web:ex.org";
  endpoint = codes "ex.org:4433";
  agent_id = codes "bob";
  accept = codes "aire/v0" ∷ [];
}

bob_found : resolve toy_platform over_dns (codes "@bob@ex.org") ≡ ok bob_address
unfolding resolve has_prefix parse_handle parse_trimmed_handle drop cut_at resolve_handle
    resolve_handle_via_txt bytes_eq parse_txt_did_value resolve_did resolve_did_web did_web_to_url
    path_unescape split fetch_did_document pick_aire_v1 pick_service address_of fetch parse_aire_uri
    pick_endpoint contains verify_also_known_as
bob_found = refl

bob_found_https :
    resolve_handle toy_platform over_https (codes "bob") (codes "ex.org")
    ≡ ok (codes "did:web:ex.org")
unfolding resolve_handle resolve_handle_via_txt resolve_handle_via_well_known bytes_eq
    well_known_url query_escape trim_newlines trim_space has_prefix
bob_found_https = refl

resolve_sound_example :
    ((doc : DidDocument) × (has_prefix (codes "did:") (codes "@bob@ex.org") ≡ true)
      × IsResolved toy_platform over_dns (codes "@bob@ex.org") [] bob_address doc)
    ⊎ ((has_prefix (codes "did:") (codes "@bob@ex.org") ≡ false)
        × IsVerified toy_platform over_dns (codes "@bob@ex.org") bob_address)
resolve_sound_example =
    resolve_sound toy_platform over_dns (codes "@bob@ex.org") bob_address bob_found

resolve_handle_sound_example :
    FromTxt toy_platform over_https (codes "bob") (codes "ex.org") (codes "did:web:ex.org")
    ⊎ FromWellKnown toy_platform over_https (codes "bob") (codes "ex.org") (codes "did:web:ex.org")
resolve_handle_sound_example =
    resolve_handle_sound toy_platform over_https (codes "bob") (codes "ex.org")
      (codes "did:web:ex.org") bob_found_https

pick_aire_v1-IsFirst_example :
    ((addr : Address) × (pick_aire_v1 toy_platform over_dns bob_document (codes "bob") ≡ ok addr)
      × IsFirst toy_platform over_dns (codes "bob") (aire_endpoints bob_services) addr)
    ⊎ ((pick_aire_v1 toy_platform over_dns bob_document (codes "bob")
          ≡ err (sentinel no_aire_service))
        × HasNone toy_platform over_dns (codes "bob") (aire_endpoints bob_services))
pick_aire_v1-IsFirst_example = pick_aire_v1-IsFirst toy_platform over_dns bob_document (codes "bob")

parse_handle-ok_iff_example :
    (parse_handle (codes "@bob@ex.org") ≡ ok (codes "bob", codes "ex.org"))
    ↔ SpellsHandle (codes "@bob@ex.org") (codes "bob") (codes "ex.org")
parse_handle-ok_iff_example =
    parse_handle-ok_iff (codes "@bob@ex.org") (codes "bob") (codes "ex.org")

abbrev bob_web : Bytes
bob_web = codes "did:web:example.com%3A8443:u:bob"

abbrev bob_web_url : Bytes
bob_web_url = codes "https://example.com:8443/u/bob/did.json"

did_web_to_url-ok_iff_example : (did_web_to_url bob_web ≡ ok bob_web_url) ↔ (
    (host : Bytes) × (path : List Bytes) × Spells bob_web host path
    × (bob_web_url ≡ web_location host path))
did_web_to_url-ok_iff_example = did_web_to_url-ok_iff bob_web bob_web_url

bob_web_found : did_web_to_url bob_web ≡ ok bob_web_url
unfolding did_web_to_url has_prefix path_unescape split drop join
bob_web_found = refl
