-- ===== src/Addressing.antt =====
-- addressing.go: from a DID or a handle to the address of a peer. What packages net/http, net,
-- net/url and encoding/json do is an argument.
pub mod Resolve
pub mod Handles
pub mod Discovery
pub mod Services
pub mod AireUri
pub mod Verified
pub mod WebLocation
pub mod DidWeb
use aire_go.Base.{
  leb, ◌==◌, if◌then◌else◌, length, take, drop, Error, Result, ◌>>=◌, also_known_as_mismatch,
  malformed_handle, malformed_did_web, sentinel, message, wrapf, ok, err, panic, ℕ, ◌⊎◌, Bool,
  false, ◌||◌, not, Option, none, some, List, [], ◌∷◌, ◌++◌,
}
use aire_go.Base.Text.{codes, has_prefix, cut_at, split, bytes_eq}
use aire_go.Varint.{Bytes}
use aire_go.Url.{join, path_unescape}

pub record Address : Type 0 where
  pub did : Bytes
  pub endpoint : Bytes
  pub agent_id : Bytes
  pub accept : List Bytes

pub record ServiceEndpoint : Type 0 where
  pub uri : Bytes
  pub accept : List Bytes
  pub agent_id : Bytes

pub record ServiceEntry : Type 0 where
  pub id : Bytes
  pub type : Bytes
  pub service_endpoint : List ServiceEndpoint

pub record VerificationMethod : Type 0 where
  pub id : Bytes
  pub type : Bytes
  pub controller : Bytes
  pub public_key_multibase : Bytes

pub record DidDocument : Type 0 where
  pub id : Bytes
  pub also_known_as : List Bytes
  pub service : List ServiceEntry
  pub verification_method : List VerificationMethod

-- A response: the status, the bytes of the body, and the error behind them where the body breaks
-- off.
pub record Response : Type 0 where
  pub status_code : ℕ
  pub body : Bytes
  pub broken : Option Error

-- What `url.Parse` finds: `Scheme`, `Host` and `Port()`.
pub record Url : Type 0 where
  pub scheme : Bytes
  pub host : Bytes
  pub port : Bytes

-- `Client.Do` of a GET request for a URL.
abbrev pub Client : Type 0
Client = Bytes → Result Response

abbrev pub LookupTxt : Type 0
LookupTxt = Bytes → Result (List Bytes)

-- The packages: `http.DefaultClient`, `net.DefaultResolver`, the check of a URL that
-- `http.NewRequestWithContext` makes, `json.Unmarshal` into a DID Document, and `url.Parse`.
pub record Platform : Type 0 where
  pub default_client : Client
  pub default_lookup_txt : LookupTxt
  pub new_request : Bytes → Result (Unit {0})
  pub unmarshal : Bytes → Result DidDocument
  pub parse_url : Bytes → Error ⊎ Url

pub record Resolver : Type 0 where
  pub http_client : Option Client
  pub lookup_txt : Option LookupTxt

-- `io.ReadAll`, without a limit and with one.
abbrev pub read_all : Response → Result Bytes
read_all resp = elim resp.broken [ none ↦ ok resp.body | some e ↦ err e ]

abbrev pub read_limited : ℕ → Response → Result Bytes
read_limited n resp = if leb n (length resp.body) then ok (take n resp.body) else read_all resp

-- What follows `TrimPrefix` in `parseHandle`.
unfoldable pub parse_trimmed_handle : Bytes → Result (Bytes × Bytes)
parse_trimmed_handle s =
    if length s == 0
    then err (wrapf "empty" (sentinel malformed_handle))
    else elim (cut_at b'@' s) [
      | none ↦ err (wrapf "missing @" (sentinel malformed_handle))
      | some (local, domain) ↦
          if length local == 0 || length domain == 0
          then err (wrapf "empty part" (sentinel malformed_handle))
          else elim (cut_at b'@' domain) [
            | some _ ↦ err (wrapf "too many @" (sentinel malformed_handle))
            | none ↦ ok (local, domain)
          ]
    ]

unfoldable pub parse_handle : Bytes → Result (Bytes × Bytes)
parse_handle s = parse_trimmed_handle (if has_prefix (codes "@") s then drop 1 s else s)

unfoldable pub parse_txt_did_value : Bytes → Result Bytes
parse_txt_did_value s =
    if not (has_prefix (codes "did=") s)
    then err (message "aire: TXT record missing did= prefix")
    else (let did = drop 4 s in
        if length did == 0 || not (has_prefix (codes "did:") did)
        then err (message "aire: TXT record value is not a DID")
        else ok did)

-- The loop over the path segments.
pub unescape_all : List Bytes → Result (List Bytes)
unescape_all [] = ok []
unescape_all (p ∷ ps) = do
  plain ← elim (path_unescape p) [
    | ok d ↦ ok d
    | err _ ↦ err (wrapf "path segment" (sentinel malformed_did_web))
    | panic ↦ panic
  ]
  others ← unescape_all ps
  ok (plain ∷ others)

-- What follows the host.
pub url_of_parts : Bytes → List Bytes → Result Bytes
unfolding unescape_all
url_of_parts host [] = ok (codes "https://" ++ (host ++ codes "/.well-known/did.json"))
url_of_parts host (p ∷ ps) = do
  path_parts ← unescape_all (p ∷ ps)
  ok (
      codes "https://"
      ++ (host ++ (codes "/" ++ (join (codes "/") path_parts ++ codes "/did.json"))))

unfoldable pub did_web_to_url : Bytes → Result Bytes
unfolding url_of_parts
did_web_to_url did =
    let rest = drop 8 did in
    let parts = split b':' rest in
    if not (has_prefix (codes "did:web:") did)
    then err (wrapf "not a did:web" (sentinel malformed_did_web))
    else if length rest == 0
    then err (wrapf "empty identifier" (sentinel malformed_did_web))
    else elim (path_unescape parts.0) [
      | err _ ↦ err (wrapf "host" (sentinel malformed_did_web))
      | panic ↦ panic
      | ok host ↦
          if length host == 0
          then err (wrapf "empty host" (sentinel malformed_did_web))
          else url_of_parts host parts.1
    ]

-- `slices.Contains`
unfoldable pub contains : Bytes → List Bytes → Bool
contains s [] = false
contains s (x ∷ xs) = bytes_eq x s || contains s xs

unfoldable pub verify_also_known_as : DidDocument → Bytes → Bytes → Result (Unit {0})
verify_also_known_as doc local domain =
    if contains (codes "aire://" ++ (local ++ (codes "@" ++ domain))) doc.also_known_as
    then ok tt
    else err (wrapf "expected in alsoKnownAs" (sentinel also_known_as_mismatch))
