-- ===== src/Examples/Keyed.antt =====
-- identity.go with a toy signature scheme of the lengths of Ed25519, and two nodes with a did:key.
use aire_go.Base.{length, All, replicate, ok, ◌≡◌, refl, ◌↔◌, [], ◌∷◌, ◌++◌}
use aire_go.Base.Text.{codes, bytes_eq, bytes_eq_self}
use aire_go.Varint.{Bytes, IsByte}
use aire_go.Examples.Nodes.{digest, all_byte_sound}
use aire_go.Base58.{base58btc_encode, base58btc_decode}
use aire_go.Keys.{public_key_size, make_did_key, parse_did_key, Ed25519}
use aire_go.Base58.RoundTrip.{base58btc_decode-ok_iff}
use aire_go.Keys.DidKey.{parse_did_key-ok_iff}
use aire_go.Keys.Signing.{IsKeyPair}

abbrev toy_sign : Bytes → Bytes → Bytes
toy_sign priv m = priv ++ (digest m ∷ replicate 31 0)

abbrev pub toy_ed25519 : Ed25519
toy_ed25519 = record {
  public_key = λ priv. priv;
  sign = toy_sign;
  verify_signature = λ key m sig. bytes_eq sig (toy_sign key m);
}

abbrev pub carol_key : Bytes
carol_key = 0 ∷ replicate 31 7

pub carol-IsKeyPair : IsKeyPair toy_ed25519 carol_key
unfolding replicate
carol-IsKeyPair = record {
  key_length = refl;
  key_bytes = all_byte_sound carol_key refl;
  verifies = λ m. bytes_eq_self (toy_sign carol_key m);
  signature_length = λ m. refl;
}

abbrev pub dave_key : Bytes
dave_key = 5 ∷ replicate 31 9

pub dave-IsKeyPair : IsKeyPair toy_ed25519 dave_key
unfolding replicate
dave-IsKeyPair = record {
  key_length = refl;
  key_bytes = all_byte_sound dave_key refl;
  verifies = λ m. bytes_eq_self (toy_sign dave_key m);
  signature_length = λ m. refl;
}

base58btc_decode-ok_iff_example :
    (base58btc_decode (codes "112") ≡ ok (0 ∷ 0 ∷ 1 ∷ []))
    ↔ (All IsByte (0 ∷ 0 ∷ 1 ∷ []) × (codes "112" ≡ base58btc_encode (0 ∷ 0 ∷ 1 ∷ [])))
base58btc_decode-ok_iff_example = base58btc_decode-ok_iff (codes "112") (0 ∷ 0 ∷ 1 ∷ [])

parse_did_key-ok_iff_example : (parse_did_key (make_did_key carol_key) ≡ ok carol_key) ↔ (
    (make_did_key carol_key ≡ make_did_key carol_key)
    × (length carol_key ≡ public_key_size)
    × All IsByte carol_key)
parse_did_key-ok_iff_example = parse_did_key-ok_iff (make_did_key carol_key) carol_key
