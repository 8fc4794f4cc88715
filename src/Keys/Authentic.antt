-- ===== src/Keys/Authentic.antt =====
-- Whose key a VMID names, and what that says of a peer.
use aire_go.Base.{
  ◌==◌, Bool-cases, Option-cases, length, All, Result-cases, ok, ℕ, ◌≡◌, refl, ◌∙◌, ◌≢◌, ◌⊎◌, inl,
  inr, true, Option, some, List, [], ◌∷◌, ◌++◌, arith,
}
use mathlib.Core.List.{Mem, mem-cons_self, mem-cons_of_mem}
use aire_go.Base.Int.{ℤ}
use aire_go.Frame.{Frame}
use aire_go.Base.Text.{has_prefix, codes, bytes_eq, bytes_eq_sound, cut_at}
use aire_go.Varint.{Bytes, IsByte}
use aire_go.Keys.{public_key_size, encode_multibase_ed25519, make_did_key, Ed25519, verify_ed25519}
use aire_go.Addressing.{VerificationMethod, DidDocument, Platform, Resolver, did_web_to_url}
use aire_go.Addressing.Resolve.{fetch_did_document}
use aire_go.Keys.DidKey.{decode_multibase-ok, parse_did_key-ok_iff}
use aire_go.Keys.ResolveKey.{cut_hash, names_key, find_method, resolve_web_key, resolve_key}
use aire_go.Verifier.{Verifier, before_hash}
use aire_go.Handshake.{NodeConfig, HandshakeState, accept_hello}
use aire_go.Handshake.Accept.{IsAuthentic, accept_hello-IsAuthentic}

-- A public key of the right size, in the multibase text that holds it.
abbrev pub SpellsKey : Bytes → Bytes → Type 0
SpellsKey text key =
    (text ≡ encode_multibase_ed25519 key) × (length key ≡ public_key_size) × All IsByte key

-- The method that is listed under the VMID.
pub record IsListedKey (want : Bytes) (vms : List VerificationMethod) (key : Bytes) : Type 0 where
  pub vm : VerificationMethod
  pub listed : Mem vm vms
  pub same_id : vm.id ≡ want
  pub same_type : vm.type ≡ codes "Ed25519VerificationKey2020"
  pub text : SpellsKey vm.public_key_multibase key

find_method-ok :
    (want : Bytes) (vms : List VerificationMethod) (key : Bytes)
    → find_method want vms ≡ ok key
    → IsListedKey want vms key
unfolding find_method
find_method-ok want [] key e = ground arith
find_method-ok want (vm ∷ vms) key e = elim (Bool-cases (names_key want vm)) [
  | inl a ↦
      let (i, t) : (bytes_eq vm.id want ≡ true)
          × (bytes_eq vm.type (codes "Ed25519VerificationKey2020") ≡ true) =
        ground (arith, a) in
      record {
        vm = vm;
        listed = mem-cons_self;
        same_id = bytes_eq_sound _ _ i;
        same_type = bytes_eq_sound _ _ t;
        text = decode_multibase-ok vm.public_key_multibase key (rw a at e);
      }
  | inr a ↦
      let h = find_method-ok want vms key (rw a at e) in
      record {
        vm = h.vm;
        listed = mem-cons_of_mem vm h.listed;
        same_id = h.same_id;
        same_type = h.same_type;
        text = h.text;
      }
]

module _ (platform : Platform) (resolver : Option Resolver) where
  -- The key of a did:web, from the document at its URL.
  pub record IsWebKey (did fragment key : Bytes) : Type 0 where
    pub is_web : has_prefix (codes "did:web:") did ≡ true
    pub some_fragment : fragment ≢ []
    pub r : Resolver
    pub configured : resolver ≡ some r
    pub doc_url : Bytes
    pub location : did_web_to_url did ≡ ok doc_url
    pub doc : DidDocument
    pub fetched : fetch_did_document platform r doc_url ≡ ok doc
    pub entry : IsListedKey (did ++ b'#' ∷ fragment) doc.verification_method key

  resolve_web_key-ok :
      (did fragment key : Bytes)
      → has_prefix (codes "did:web:") did ≡ true
      → resolve_web_key platform resolver did fragment ≡ ok key
      → IsWebKey did fragment key
  unfolding resolve_web_key
  resolve_web_key-ok did [] key web e = ground arith
  resolve_web_key-ok did (c ∷ cs) key web e = elim (Option-cases resolver) [
    | inl a ↦ ground (arith, a)
    | inr (r, a) ↦ elim (Result-cases (did_web_to_url did)) [
      | inr (inl (x, b)) ↦ ground (arith, a, b)
      | inr (inr b) ↦ ground (arith, a, b)
      | inl (doc_url, b) ↦ elim (Result-cases (fetch_did_document platform r doc_url)) [
        | inr (inl (x, d)) ↦ ground (arith, a, b, d)
        | inr (inr d) ↦ ground (arith, a, b, d)
        | inl (doc, d) ↦
            let found : find_method (did ++ b'#' ∷ c ∷ cs) doc.verification_method ≡ ok key =
              ground (arith, a, b, d) in
            record {
              is_web = web;
              some_fragment = λ z. cc;
              r = r;
              configured = a;
              doc_url = doc_url;
              location = b;
              doc = doc;
              fetched = d;
              entry = find_method-ok _ doc.verification_method key found;
            }
      ]
    ]
  ]

  -- A key that `ResolveKey` returns has 32 bytes and is the one that the did:key of the VMID spells,
  -- or one that the document of its did:web lists under the whole VMID as an
  -- Ed25519VerificationKey2020. Without a resolver only a did:key gives a key, and a did:web
  -- without a fragment never does.
  pub resolve_key_sound :
      (vmid key : Bytes)
      → resolve_key platform resolver vmid ≡ ok key
      → (length key ≡ public_key_size)
        × (((cut_hash vmid).0 ≡ make_did_key key)
            ⊎ IsWebKey (cut_hash vmid).0 (cut_hash vmid).1 key)
  unfolding resolve_key
  resolve_key_sound vmid key e =
      let did = (cut_hash vmid).0 in
      let fragment = (cut_hash vmid).1 in
      elim (Bool-cases (has_prefix (codes "did:key:") did)) [
        | inl a ↦
            let (same, size, _) = (parse_did_key-ok_iff did key).0 (rw (a, resolve_key) at e) in
            (size, inl same)
        | inr a ↦ elim (Bool-cases (has_prefix (codes "did:web:") did)) [
          | inl b ↦
              let h = resolve_web_key-ok did fragment key b (rw (a, b, resolve_key) at e) in
              (h.entry.text.1, inr h)
          | inr b ↦ ground (arith, a, b)
        ]
      ]

cut_hash-before : (vmid : Bytes) → (cut_hash vmid).0 ≡ before_hash vmid
unfolding cut_hash before_hash cut_at
cut_hash-before [] = refl
cut_hash-before (c ∷ cs) = elim (Bool-cases (c == b'#')) [
  | inl a ↦ ground (arith, a)
  | inr a ↦ elim (Option-cases (cut_at b'#' cs)) [
    | inl n ↦ ground (arith, a, n, cut_hash-before cs)
    | inr (p, n) ↦ ground (arith, a, n, cut_hash-before cs)
  ]
]

module _ (platform : Platform) (resolver : Option Resolver) (e : Ed25519) (alloc_limit : ℕ) where
  -- The peer has signed its HELLO, and the key belongs to its NodeID.
  pub record HoldsKey (local : NodeConfig) (now : ℤ) (f : Frame) (v' : Verifier)
      (state : HandshakeState) : Type 0 where
    pub proof :
        IsAuthentic
          (resolve_key platform resolver)
          (verify_ed25519 e)
          alloc_limit
          local
          now
          f
          v'
          state
    pub key_length : length proof.verified.key ≡ public_key_size
    pub owner :
        (state.peer_node_id ≡ make_did_key proof.verified.key)
        ⊎ IsWebKey platform resolver state.peer_node_id
            (cut_hash proof.block.vmid).1
            proof.verified.key

  -- A peer that is accepted with negotiated minor version 2 has shown a signature over its HELLO that
  -- verifies under a key of its NodeID: the NodeID is the did:key of that key, or it is a did:web
  -- whose document, fetched from its URL, lists the key under the VMID of the signature block.
  pub accept_hello-HoldsKey :
      (local : NodeConfig) (now : ℤ) (f : Frame) (v' : Verifier) (state : HandshakeState)
      → accept_hello (resolve_key platform resolver) (verify_ed25519 e) alloc_limit local now f
        ≡ (v', ok state)
      → state.negotiated_minor ≡ 2
      → HoldsKey local now f v' state
  accept_hello-HoldsKey local now f v' state h two =
      let proof =
        accept_hello-IsAuthentic (resolve_key platform resolver) (verify_ed25519 e) alloc_limit
          local now f v' state h two in
      let named : (cut_hash proof.block.vmid).0 ≡ state.peer_node_id =
        cut_hash-before proof.block.vmid ∙ proof.same_did in
      let (size, owner) =
        resolve_key_sound platform resolver proof.block.vmid proof.verified.key
          proof.verified.key_found in
      record { proof = proof; key_length = size; owner = rw named at owner }
