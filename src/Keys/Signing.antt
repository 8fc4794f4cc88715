-- ===== src/Keys/Signing.antt =====
-- The signer that a did:key pair gives, and the handshake with it.
use aire_go.Base.{
  ltb, length, length-append, drop-append, All, ok, ℕ, ◌+◌, ◌*◌, ◌^◌, ◌≤◌, ◌≡◌, refl, ap, true,
  false, Option, List, [], ◌∷◌, ◌++◌, arith,
}
use aire_go.Base.Text.{IsFree, index_byte, cut_at-front, has_prefix, codes, has_prefix-append}
use aire_go.Varint.{Bytes, IsByte, max_varint}
use aire_go.Verifier.{before_hash}
use aire_go.Keys.{
  ed25519_pub_multicodec, public_key_size, encode_multibase_ed25519, did_key_prefix, make_did_key,
  did_key_vmid, Ed25519, verify_ed25519, new_ed25519_did_key_signer,
}
use aire_go.Addressing.{Platform, Resolver}
use aire_go.Base58.Letters.{length-base58btc_encode, base58btc_encode-IsFree}
use aire_go.Keys.DidKey.{parse_did_key-ok_iff}
use aire_go.Keys.ResolveKey.{cut_hash, resolve_key}
use aire_go.Capability.{Capability}
use aire_go.Handshake.{Signer}
use aire_go.Verifier.Time.{to_milli}
use aire_go.Base.Int.{ℤ, IsI64}
use aire_go.Hello.RoundTrip.{IsAdvertisable}
use aire_go.Handshake.Honest.{IsHonest}

-- What crypto/ed25519 says of a private key and its public half.
pub record IsKeyPair (e : Ed25519) (priv : Bytes) : Type 0 where
  pub key_length : length (e.public_key priv) ≡ public_key_size
  pub key_bytes : All IsByte (e.public_key priv)
  pub verifies : (m : Bytes) → e.verify_signature (e.public_key priv) m (e.sign priv m) ≡ true
  pub signature_length : (m : Bytes) → length (e.sign priv m) ≡ 64

did_key-IsFree : (key : Bytes) → IsFree b'#' (make_did_key key)
unfolding make_did_key encode_multibase_ed25519 index_byte
did_key-IsFree key =
    let text = base58btc_encode-IsFree b'#' (ed25519_pub_multicodec ++ key) refl in
    (refl, (refl, (refl, (refl, (refl, (refl, (refl, (refl, (refl, text)))))))))

length-make_did_key :
    (key : Bytes) → length key ≡ public_key_size → All IsByte key → length (make_did_key key) ≤ 90
unfolding make_did_key encode_multibase_ed25519
length-make_did_key key size h =
    let raw = ed25519_pub_multicodec ++ key in
    let fits : 256 ^ length raw ≤ 58 ^ 47 = rw size (omega arith) in
    omega (arith, size, length-base58btc_encode raw 47 (omega arith, (omega arith, h)) fits)

before_hash-free : (did rest : Bytes) → IsFree b'#' did → before_hash (did ++ b'#' ∷ rest) ≡ did
unfolding before_hash
before_hash-free [] rest h = refl
before_hash-free (c ∷ did) rest (h, hs) =
    rw h (ap (λ (l : Bytes). c ∷ l) (before_hash-free did rest hs))

abbrev pub vmid_of : Bytes → Bytes
vmid_of key = make_did_key key ++ b'#' ∷ encode_multibase_ed25519 key

did_key_vmid-make_did_key : (key : Bytes) → did_key_vmid (make_did_key key) ≡ ok (vmid_of key)
unfolding did_key_vmid make_did_key
did_key_vmid-make_did_key key =
    let text = encode_multibase_ed25519 key in
    let enough : ltb (length (did_key_prefix ++ text)) (length did_key_prefix) ≡ false =
      ground (arith, length-append did_key_prefix text) in
    rw (enough, drop-append did_key_prefix text) refl

cut_hash-front :
    (did fragment : Bytes) → IsFree b'#' did → cut_hash (did ++ b'#' ∷ fragment) ≡ (did, fragment)
unfolding cut_hash
cut_hash-front did fragment h = rw (cut_at-front b'#' did fragment h, cut_hash) refl

did_key-prefix : (key : Bytes) → has_prefix (codes "did:key:") (make_did_key key) ≡ true
unfolding make_did_key
did_key-prefix key = has_prefix-append did_key_prefix (encode_multibase_ed25519 key)

resolve_key-own :
    (platform : Platform) (resolver : Option Resolver) (key : Bytes)
    → length key ≡ public_key_size
    → All IsByte key
    → resolve_key platform resolver (vmid_of key) ≡ ok key
unfolding resolve_key
resolve_key-own platform resolver key size h =
    let did = make_did_key key in
    let cut : cut_hash (vmid_of key) ≡ (did, encode_multibase_ed25519 key) =
      cut_hash-front did (encode_multibase_ed25519 key) (did_key-IsFree key) in
    rw (cut, resolve_key, did_key-prefix key) ((parse_did_key-ok_iff did key).1 (refl, size, h))

did_key-did : (key : Bytes) → has_prefix (codes "did:") (make_did_key key) ≡ true
unfolding make_did_key
did_key-did key = has_prefix-append (codes "did:") (codes "key:" ++ encode_multibase_ed25519 key)

length-vmid_of : (key : Bytes) → length (vmid_of key) ≤ 2 * length (make_did_key key) + 1
unfolding make_did_key
length-vmid_of key =
    let text = encode_multibase_ed25519 key in
    omega (arith, length-append (make_did_key key) (b'#' ∷ text), length-append did_key_prefix text)

-- The signer of a key pair is honest: `NewEd25519DIDKeySigner` does not panic, its DID is the
-- did:key of the public key, and what it signs verifies under the key that `ResolveKey` finds for
-- its VMID, whatever the verifier's resolver is, so that its HELLO has all that
-- a peer asks of a signer. The key pair does what crypto/ed25519 says, and the capabilities, the
-- nonce and the time fit in the message.
pub new_ed25519_did_key_signer-IsHonest :
    (platform : Platform) (resolver : Option Resolver) (e : Ed25519) (priv : Bytes)
    → IsKeyPair e priv
    → (alloc_limit : ℕ) (caps : List Capability) (nonce : Bytes) (signed_at : ℤ)
    → length caps ≤ max_varint
    → length caps ≤ alloc_limit
    → All IsAdvertisable caps
    → length nonce ≡ 16
    → IsI64 (to_milli signed_at)
    → (signer : Signer) × (new_ed25519_did_key_signer e priv ≡ ok signer)
      × (signer.did ≡ make_did_key (e.public_key priv))
      × IsHonest
          (resolve_key platform resolver)
          (verify_ed25519 e)
          alloc_limit
          signer
          caps
          nonce
          signed_at
unfolding new_ed25519_did_key_signer verify_ed25519
new_ed25519_did_key_signer-IsHonest platform resolver e priv pair alloc_limit caps nonce signed_at
      many room adv size time =
    let key = e.public_key priv in
    let did = make_did_key key in
    let short = length-make_did_key key pair.key_length pair.key_bytes in
    let made : new_ed25519_did_key_signer e priv
        ≡ ok (record { did = did; vmid = vmid_of key; sign = e.sign priv }) =
      rw (did_key_vmid-make_did_key key) refl in
    (
      record { did = did; vmid = vmid_of key; sign = e.sign priv },
      made,
      refl,
      record {
        did_fits = omega (arith, short);
        vmid_fits = omega (arith, short, length-vmid_of key);
        caps_fit = many;
        caps_room = room;
        advertisable = adv;
        nonce_length = size;
        time_fits = time;
        is_did = did_key-did key;
        own_vmid = before_hash-free did (encode_multibase_ed25519 key) (did_key-IsFree key);
        key = key;
        key_found = resolve_key-own platform resolver key pair.key_length pair.key_bytes;
        signs = pair.verifies;
        signature_fits = λ m. omega (arith, pair.signature_length m);
      },
    )
