-- ===== src/Addressing/DidWeb.antt =====
-- `didWebToURL` accepts the identifiers that are laid out as did:web says, and no others.
use aire_go.Base.{
  ◌==◌, Bool-cases, All, Result-cases, ok, ◌<◌, length, drop, ◌≡◌, ◌≢◌, ◌↔◌, refl, map, sym, ap,
  inl, inr, false, List, [], ◌∷◌, ◌++◌, arith,
}
use aire_go.Base.Text.{IsFree, codes, split, has_prefix, has_prefix_sound}
use aire_go.Base.Split.{join_at, split-join_at, join_at-split, split-IsFree}
use aire_go.Varint.{Bytes}
use aire_go.Url.{path_unescape}
use aire_go.Url.Escape.{escape, path_unescape-escape, escape-IsFree}
use aire_go.Addressing.{url_of_parts, did_web_to_url}
use aire_go.Addressing.WebLocation.{
  web_location, Decodes, Spells, url_of_parts-ok, url_of_parts-path,
}

some_text : (h : Bytes) (ps : List Bytes) → h ≢ [] → (length (join_at b':' h ps) == 0) ≡ false
some_text [] ps e = absurd (e refl)
some_text (b ∷ h) [] e = ground arith
some_text (b ∷ h) (p ∷ ps) e = ground arith

some_length : (h : Bytes) → h ≢ [] → (length h == 0) ≡ false
some_length h e = some_text h [] e

spelled_text : (h host : Bytes) → path_unescape h ≡ ok host → host ≢ [] → h ≢ []
unfolding path_unescape
spelled_text [] host e some_host empty = some_host (ground arith)
spelled_text (b ∷ h) host e some_host empty = cc

text-url :
    (h : Bytes) (ps : List Bytes) (host : Bytes) (path : List Bytes)
    → All (IsFree b':') (h ∷ ps)
    → host ≢ []
    → path_unescape h ≡ ok host
    → Decodes ps path
    → did_web_to_url (codes "did:web:" ++ join_at b':' h ps) ≡ ok (web_location host path)
unfolding did_web_to_url has_prefix drop
text-url h ps host path free some_host of_host of_path =
    let parts : split b':' (join_at b':' h ps) ≡ (h, ps) = split-join_at b':' h ps free in
    rw
      (
        some_text h ps (spelled_text h host of_host some_host),
        parts,
        of_host,
        some_length host some_host,
      )
      (rw parts (url_of_parts-ok host ps path of_path))

Spells-url :
    (did host : Bytes) (path : List Bytes)
    → Spells did host path
    → did_web_to_url did ≡ ok (web_location host path)
Spells-url did host path s =
    rw s.spelled
      (text-url s.host_text s.path_texts host path s.free s.some_host s.of_host s.of_path)

length-some : (h : Bytes) → (length h == 0) ≡ false → h ≢ []
length-some h e empty = ground (arith, empty)

text-Spells :
    (text url : Bytes)
    → did_web_to_url (codes "did:web:" ++ text) ≡ ok url
    → (host : Bytes) × (path : List Bytes) × Spells (codes "did:web:" ++ text) host path
      × (url ≡ web_location host path)
unfolding did_web_to_url has_prefix drop
text-Spells text url e = elim (Bool-cases (length text == 0)) [
  | inl a ↦ ground (arith, a)
  | inr a ↦ elim (Result-cases (path_unescape (split b':' text).0)) [
    | inr (inl (x, b)) ↦ ground (arith, a, b)
    | inr (inr b) ↦ ground (arith, a, b)
    | inl (host, b) ↦ elim (Bool-cases (length host == 0)) [
      | inl c ↦ ground (arith, a, b, c)
      | inr c ↦
          let url_is : url_of_parts host (split b':' text).1 ≡ ok url = ground (arith, a, b, c) in
          let (path, p) = url_of_parts-path host (split b':' text).1 url url_is in
          (
            host,
            path,
            record {
              host_text = (split b':' text).0;
              path_texts = (split b':' text).1;
              spelled = ap (λ (s : Bytes). codes "did:web:" ++ s) (sym (join_at-split b':' text));
              free = split-IsFree b':' text;
              some_host = length-some host c;
              of_host = b;
              of_path = p;
            },
            ground (arith, url_is, url_of_parts-ok host (split b':' text).1 path p),
          )
    ]
  ]
]

no_did_web :
    (did url : Bytes) → has_prefix (codes "did:web:") did ≡ false → did_web_to_url did ≢ ok url
unfolding did_web_to_url
no_did_web did url f e = ground (arith, f)

url-Spells :
    (did url : Bytes)
    → did_web_to_url did ≡ ok url
    → (host : Bytes) × (path : List Bytes) × Spells did host path × (url ≡ web_location host path)
url-Spells did url e = elim (Bool-cases (has_prefix (codes "did:web:") did)) [
  | inr f ↦ absurd (no_did_web did url f e)
  | inl t ↦
      let (text, same) = has_prefix_sound (codes "did:web:") did t in
      rw same (text-Spells text url (rw same at e))
]

-- The identifier of the did:web method for a host and a path.
abbrev did_web : Bytes → List Bytes → Bytes
did_web host path = codes "did:web:" ++ join_at b':' (escape host) (map escape path)

abbrev AllBytes : List Bytes → Type 0
AllBytes = All (All (λ c. c < 256))

escape_all-IsFree : (ps : List Bytes) → AllBytes ps → All (IsFree b':') (map escape ps)
escape_all-IsFree [] h = tt
escape_all-IsFree (p ∷ ps) (h, hs) = (escape-IsFree p h, escape_all-IsFree ps hs)

escape_all-Decodes : (ps : List Bytes) → AllBytes ps → Decodes (map escape ps) ps
escape_all-Decodes [] h = tt
escape_all-Decodes (p ∷ ps) (h, hs) = (path_unescape-escape p h, escape_all-Decodes ps hs)

did_web-Spells :
    (host : Bytes) (path : List Bytes)
    → host ≢ []
    → All (λ c. c < 256) host
    → AllBytes path
    → Spells (did_web host path) host path
did_web-Spells host path some h hs = record {
  host_text = escape host;
  path_texts = map escape path;
  spelled = refl;
  free = (escape-IsFree host h, escape_all-IsFree path hs);
  some_host = some;
  of_host = path_unescape-escape host h;
  of_path = escape_all-Decodes path hs;
}

-- `didWebToURL` accepts an identifier exactly if it is `did:web:` and texts with colons between them, the
-- first for a host that is not empty, whose percent-escapes are all well formed; the URL is that of
-- `/.well-known/did.json` on the host where there is one text, and of `did.json` below the path that the
-- other texts decode to where there are more.
pub did_web_to_url-ok_iff :
    (did url : Bytes)
    → (did_web_to_url did ≡ ok url) ↔ (
        (host : Bytes) × (path : List Bytes) × Spells did host path
        × (url ≡ web_location host path))
did_web_to_url-ok_iff did url =
    (url-Spells did url, λ (host, path, spells, same). rw same (Spells-url did host path spells))

-- For a host that is not empty and any path, of bytes, the identifier in which all but letters, digits
-- and `-_.~` is percent-encoded, a colon of a port and a slash of a segment included, leads to the URL of
-- that host and that path.
did_web_to_url-did_web :
    (host : Bytes) (path : List Bytes)
    → host ≢ []
    → All (λ c. c < 256) host
    → AllBytes path
    → did_web_to_url (did_web host path) ≡ ok (web_location host path)
did_web_to_url-did_web host path some h hs =
    Spells-url (did_web host path) host path (did_web-Spells host path some h hs)
