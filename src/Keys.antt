-- ===== src/Keys.antt =====
-- did:key identifiers of identity.go: the multibase form of an Ed25519 public key, and the signer
-- that has one. Ed25519 itself is package crypto/ed25519, an argument.
pub mod DidKey
pub mod ResolveKey
pub mod Signing
pub mod Authentic
use aire_go.Base.{
  ltb, ◌==◌, if◌then◌else◌, length, drop, Result, ◌>>=◌, message, ok, err, panic, ℕ, Bool, ◌||◌,
  not, [], ◌∷◌, ◌++◌,
}
use aire_go.Base.Text.{codes, has_prefix}
use aire_go.Varint.{Bytes}
use aire_go.Handshake.{Signer}
use aire_go.Base58.{base58btc_encode, base58btc_decode}

abbrev pub ed25519_pub_multicodec : Bytes
ed25519_pub_multicodec = 0xED ∷ 0x01 ∷ []

-- `ed25519.PublicKeySize`
abbrev pub public_key_size : ℕ
public_key_size = 32

unfoldable pub encode_multibase_ed25519 : Bytes → Bytes
encode_multibase_ed25519 key = b'z' ∷ base58btc_encode (ed25519_pub_multicodec ++ key)

-- What follows the call of `base58btcDecode`.
public_key_of : Bytes → Result Bytes
public_key_of (x ∷ y ∷ key) =
    if not (x == 0xED) || not (y == 0x01)
    then err (message "not an Ed25519 multikey")
    else if not (length key == public_key_size)
    then err (message "Ed25519 pubkey length")
    else ok key
public_key_of _ = err (message "not an Ed25519 multikey")

unfoldable pub decode_multibase_ed25519 : Bytes → Result Bytes
unfolding public_key_of
decode_multibase_ed25519 (c ∷ d ∷ cs) =
    if not (c == b'z')
    then err (message "multibase must start with 'z'")
    else (do raw ← base58btc_decode (d ∷ cs); public_key_of raw)
decode_multibase_ed25519 _ = err (message "multibase must start with 'z'")

abbrev pub did_key_prefix : Bytes
did_key_prefix = codes "did:key:"

unfoldable pub make_did_key : Bytes → Bytes
make_did_key key = did_key_prefix ++ encode_multibase_ed25519 key

unfoldable pub parse_did_key : Bytes → Result Bytes
parse_did_key did =
    if not (has_prefix did_key_prefix did)
    then err (message "not a did:key")
    else decode_multibase_ed25519 (drop (length did_key_prefix) did)

-- The slice panics on a text that is shorter than the prefix.
unfoldable pub did_key_vmid : Bytes → Result Bytes
did_key_vmid did =
    if ltb (length did) (length did_key_prefix)
    then panic
    else ok (did ++ b'#' ∷ drop (length did_key_prefix) did)

-- What the program uses of package crypto/ed25519: the public half of a private key, signing, and
-- the check of a signature.
pub record Ed25519 : Type 0 where
  pub public_key : Bytes → Bytes
  pub sign : Bytes → Bytes → Bytes
  pub verify_signature : Bytes → Bytes → Bytes → Bool

unfoldable pub verify_ed25519 : Ed25519 → Bytes → Bytes → Bytes → Bool
verify_ed25519 e key m sig = e.verify_signature key m sig

unfoldable pub new_ed25519_did_key_signer : Ed25519 → Bytes → Result Signer
new_ed25519_did_key_signer e priv = do
  let did = make_did_key (e.public_key priv)
  vmid ← did_key_vmid did
  ok (record { did = did; vmid = vmid; sign = e.sign priv })
