-- ===== src/Keys/DidKey.antt =====
-- did:key identifiers and public keys are in one-to-one correspondence.
use aire_go.Base.{
  ◌==◌, eq→==, ==_iff, Bool-cases, length, drop, drop-append, All, Result-cases, ok, ◌≡◌, refl, sym,
  ap, ◌∙◌, subst, ◌≢◌, ◌↔◌, inl, inr, [], ◌∷◌, ◌++◌, arith,
}
use aire_go.Varint.{Bytes, IsByte}
use aire_go.Keys.{
  make_did_key, parse_did_key, ed25519_pub_multicodec, public_key_size, encode_multibase_ed25519,
  decode_multibase_ed25519, public_key_of, did_key_prefix,
}
use aire_go.Digits.{to_digits}
use aire_go.Base58.{base58btc_encode, base58btc_decode}
use aire_go.Base.Text.{has_prefix, has_prefix-append, has_prefix_sound}
use aire_go.Base58.RoundTrip.{base58btc_decode-base58btc_encode, base58btc_encode-base58btc_decode}

base58btc_encode-ne-nil :
    (key : Bytes) → All IsByte key → base58btc_encode (ed25519_pub_multicodec ++ key) ≢ []
unfolding base58btc_decode to_digits
base58btc_encode-ne-nil key h e =
    let raw = ed25519_pub_multicodec ++ key in
    let back = base58btc_decode-base58btc_encode raw (omega arith, (omega arith, h)) in
    cc (rw e at back)

decode_multibase-text :
    (s key : Bytes)
    → length key ≡ public_key_size
    → s ≢ []
    → base58btc_decode s ≡ ok (ed25519_pub_multicodec ++ key)
    → decode_multibase_ed25519 (b'z' ∷ s) ≡ ok key
unfolding decode_multibase_ed25519 public_key_of
decode_multibase-text [] key size ne e = absurd (ne refl)
decode_multibase-text (d ∷ cs) key size ne e = rw (e, eq→== _ _ size) refl

decode_multibase-encode_multibase :
    (key : Bytes)
    → length key ≡ public_key_size
    → All IsByte key
    → decode_multibase_ed25519 (encode_multibase_ed25519 key) ≡ ok key
unfolding encode_multibase_ed25519
decode_multibase-encode_multibase key size h =
    decode_multibase-text (base58btc_encode (ed25519_pub_multicodec ++ key)) key size
      (base58btc_encode-ne-nil key h)
      (base58btc_decode-base58btc_encode (ed25519_pub_multicodec ++ key)
        (omega arith, (omega arith, h)))

public_key_of-ok :
    (raw key : Bytes)
    → public_key_of raw ≡ ok key
    → (raw ≡ ed25519_pub_multicodec ++ key) × (length key ≡ public_key_size)
unfolding public_key_of
public_key_of-ok [] key e = ground arith
public_key_of-ok (x ∷ []) key e = ground arith
public_key_of-ok (x ∷ y ∷ rest) key e = ground arith

pub decode_multibase-ok :
    (s key : Bytes)
    → decode_multibase_ed25519 s ≡ ok key
    → (s ≡ encode_multibase_ed25519 key) × (length key ≡ public_key_size) × All IsByte key
unfolding decode_multibase_ed25519 encode_multibase_ed25519
decode_multibase-ok [] key e = ground arith
decode_multibase-ok (c ∷ []) key e = ground arith
decode_multibase-ok (c ∷ d ∷ cs) key e = elim (Bool-cases (c == b'z')) [
  | inr f ↦ ground (arith, f)
  | inl t ↦ elim (Result-cases (base58btc_decode (d ∷ cs))) [
    | inr (inl (x, r)) ↦ ground (arith, t, r)
    | inr (inr r) ↦ ground (arith, t, r)
    | inl (raw, r) ↦
        let (same, size) = public_key_of-ok raw key (rw (t, r) at e) in
        let (bytes, text) = base58btc_encode-base58btc_decode (d ∷ cs) raw r in
        let z : c ≡ b'z' = (==_iff _ _).0 t in
        (
          rw z (ap (λ (l : Bytes). b'z' ∷ l) (sym text ∙ ap base58btc_encode same)),
          size,
          (subst (All IsByte) same bytes).1.1,
        )
  ]
]

-- `ParseDIDKey` returns a key exactly for the identifier that `MakeDIDKey` gives it, and only keys
-- of 32 bytes: no other text stands for the key, so a did:key names one key and a key has one
-- did:key.
pub parse_did_key-ok_iff :
    (did key : Bytes)
    → (parse_did_key did ≡ ok key)
      ↔ ((did ≡ make_did_key key) × (length key ≡ public_key_size) × All IsByte key)
unfolding parse_did_key make_did_key
parse_did_key-ok_iff did key = (
  λ e. elim (Bool-cases (has_prefix did_key_prefix did)) [
    | inr f ↦ ground (arith, f)
    | inl t ↦
        let (rest, same) = has_prefix_sound did_key_prefix did t in
        let after : drop (length did_key_prefix) did ≡ rest =
          rw same (drop-append did_key_prefix rest) in
        let (text, size, bytes) = decode_multibase-ok rest key (rw (t, after) at e) in
        (same ∙ ap (λ (l : Bytes). did_key_prefix ++ l) text, size, bytes)
  ],
  λ r.
      let text = encode_multibase_ed25519 key in
      rw (r.0, has_prefix-append did_key_prefix text, drop-append did_key_prefix text)
        (decode_multibase-encode_multibase key r.1 r.2),
)
