-- ===== src/Keys/ResolveKey.antt =====
-- `Verifier.ResolveKey` of identity.go. The verifier's resolver may be nil.
use aire_go.Base.{
  ◌==◌, if◌then◌else◌, length, Result, ◌>>=◌, message, err, Bool, ◌&&◌, Option, none, some, List,
  [], ◌∷◌, ◌++◌,
}
use aire_go.Base.Text.{codes, has_prefix, cut_at, bytes_eq}
use aire_go.Varint.{Bytes}
use aire_go.Keys.{decode_multibase_ed25519, parse_did_key}
use aire_go.Addressing.{VerificationMethod, Platform, Resolver, did_web_to_url}
use aire_go.Addressing.Resolve.{fetch_did_document}

-- `strings.Cut(vmid, "#")`
unfoldable pub cut_hash : Bytes → Bytes × Bytes
cut_hash vmid = elim (cut_at b'#' vmid) [
  | some (did, fragment) ↦ (did, fragment)
  | none ↦ (vmid, [])
]

abbrev pub names_key : Bytes → VerificationMethod → Bool
names_key want vm = bytes_eq vm.id want && bytes_eq vm.type (codes "Ed25519VerificationKey2020")

-- The loop over the verification methods.
unfoldable pub find_method : Bytes → List VerificationMethod → Result Bytes
find_method want [] = err (message "verification method not found in document")
find_method want (vm ∷ vms) =
    let rest = find_method want vms in
    if names_key want vm then decode_multibase_ed25519 vm.public_key_multibase else rest

-- The did:web case.
unfoldable pub resolve_web_key : Platform → Option Resolver → Bytes → Bytes → Result Bytes
resolve_web_key platform resolver did fragment =
    if length fragment == 0 then err (message "did:web VMID missing fragment") else elim resolver [
      | none ↦ err (message "did:web resolution requires a Resolver")
      | some r ↦ do
        doc_url ← did_web_to_url did
        doc ← fetch_did_document platform r doc_url
        find_method (did ++ b'#' ∷ fragment) doc.verification_method
    ]

unfoldable pub resolve_key : Platform → Option Resolver → Bytes → Result Bytes
resolve_key platform resolver vmid =
    let (did, fragment) = cut_hash vmid in
    if has_prefix (codes "did:key:") did
    then parse_did_key did
    else if has_prefix (codes "did:web:") did
    then resolve_web_key platform resolver did fragment
    else err (message "unsupported DID method")
