-- ===== src/Addressing/WebLocation.antt =====
-- Where the document of a did:web identifier is: `didWebToURL` against the layout of the identifiers.
use aire_go.Base.{
  All, Result-cases, ok, ◌≡◌, ◌≢◌, refl, append-nil, subst, sym, ap, inl, inr, List, [], ◌∷◌, ◌++◌,
  arith,
}
use aire_go.Base.Text.{IsFree, codes}
use aire_go.Base.Split.{join_at}
use aire_go.Varint.{Bytes}
use aire_go.Url.{path_unescape, join}
use aire_go.Addressing.{unescape_all, url_of_parts}

-- Each segment of a path behind a slash.
abbrev pub below : List Bytes → Bytes
below [] = []
below (p ∷ ps) = b'/' ∷ (p ++ below ps)

-- A host without a path has its document in the well-known place.
abbrev pub web_location : Bytes → List Bytes → Bytes
web_location host [] = codes "https://" ++ (host ++ codes "/.well-known/did.json")
web_location host (p ∷ ps) = codes "https://" ++ (host ++ (below (p ∷ ps) ++ codes "/did.json"))

-- Each text, its percent-escapes decoded, is the segment at its place.
abbrev pub Decodes : List Bytes → List Bytes → Type 0
Decodes [] [] = Unit {0}
Decodes [] (d ∷ ds) = ⊥
Decodes (p ∷ ps) [] = ⊥
Decodes (p ∷ ps) (d ∷ ds) = (path_unescape p ≡ ok d) × Decodes ps ds

-- The texts between the colons, and what they stand for.
pub record Spells (did host : Bytes) (path : List Bytes) : Type 0 where
  pub host_text : Bytes
  pub path_texts : List Bytes
  pub spelled : did ≡ codes "did:web:" ++ join_at b':' host_text path_texts
  pub free : All (IsFree b':') (host_text ∷ path_texts)
  pub some_host : host ≢ []
  pub of_host : path_unescape host_text ≡ ok host
  pub of_path : Decodes path_texts path

slash-join : (p : Bytes) (ps : List Bytes) → b'/' ∷ join (codes "/") (p ∷ ps) ≡ below (p ∷ ps)
unfolding join
slash-join p [] = ap (λ (s : Bytes). b'/' ∷ s) (sym (append-nil p))
slash-join p (q ∷ ps) = ap (λ (s : Bytes). b'/' ∷ (p ++ s)) (slash-join q ps)

unescape_all-Decodes : (ps path : List Bytes) → unescape_all ps ≡ ok path → Decodes ps path
unfolding unescape_all
unescape_all-Decodes [] [] e = tt
unescape_all-Decodes [] (d ∷ ds) e = cc
unescape_all-Decodes (p ∷ ps) path e = elim (Result-cases (path_unescape p)) [
  | inr (inl (x, a)) ↦ ground (arith, a)
  | inr (inr a) ↦ ground (arith, a)
  | inl (d, a) ↦ elim (Result-cases (unescape_all ps)) [
    | inr (inl (x, b)) ↦ ground (arith, a, b)
    | inr (inr b) ↦ ground (arith, a, b)
    | inl (ds, b) ↦
        let same : d ∷ ds ≡ path = ground (arith, a, b) in
        subst (Decodes (p ∷ ps)) same (a, unescape_all-Decodes ps ds b)
  ]
]

Decodes-unescape_all : (ps path : List Bytes) → Decodes ps path → unescape_all ps ≡ ok path
unfolding unescape_all
Decodes-unescape_all [] [] h = refl
Decodes-unescape_all [] (d ∷ ds) h = absurd h
Decodes-unescape_all (p ∷ ps) [] h = absurd h
Decodes-unescape_all (p ∷ ps) (d ∷ ds) (h, hs) = rw (h, Decodes-unescape_all ps ds hs) refl

pub url_of_parts-ok :
    (host : Bytes) (ps path : List Bytes)
    → Decodes ps path
    → url_of_parts host ps ≡ ok (web_location host path)
unfolding url_of_parts
url_of_parts-ok host [] [] h = refl
url_of_parts-ok host [] (q ∷ qs) h = absurd h
url_of_parts-ok host (p ∷ ps) [] h = absurd h
url_of_parts-ok host (p ∷ ps) (q ∷ qs) h = rw (Decodes-unescape_all (p ∷ ps) (q ∷ qs) h) (
    ap (λ (s : Bytes). ok (codes "https://" ++ (host ++ (s ++ codes "/did.json"))))
      (slash-join q qs))

pub url_of_parts-path :
    (host : Bytes) (ps : List Bytes) (url : Bytes)
    → url_of_parts host ps ≡ ok url
    → (path : List Bytes) × Decodes ps path
unfolding url_of_parts
url_of_parts-path host [] url e = ([], tt)
url_of_parts-path host (p ∷ ps) url e = elim (Result-cases (unescape_all (p ∷ ps))) [
  | inl (path, a) ↦ (path, unescape_all-Decodes (p ∷ ps) path a)
  | inr (inl (x, a)) ↦ ground (arith, a)
  | inr (inr a) ↦ ground (arith, a)
]
