-- ===== src/Signature.antt =====
-- The signature block of identity.go and the bytes that a signature covers.
pub mod RoundTrip
use aire_go.Base.{
  ltb, if◌then◌else◌, length, take, drop, Result, ◌>>=◌, map_err, short_buffer, sentinel, wrapf, ok,
  err, ℕ, ◌+◌, ◌-◌, [], ◌∷◌, ◌++◌,
}
use aire_go.Base.Int.{ℤ, to_u64, of_u64}
use aire_go.Base.Text.{codes}
use aire_go.Varint.{Bytes, append_varint, read_varint, put_uint64, be_uint64}
use aire_go.Strings.{append_string, read_string}

abbrev pub sig_alg_ed25519 : ℕ
sig_alg_ed25519 = 0x01

-- "AIRE-SIG-v1\x00"
abbrev pub domain_separator : Bytes
domain_separator = codes "AIRE-SIG-v1" ++ 0x00 ∷ []

-- `nonce` is an array of 16 bytes.
pub record SignatureBlock : Type 0 where
  pub algorithm : ℕ
  pub vmid : Bytes
  pub nonce : Bytes
  pub timestamp_ms : ℤ
  pub signature : Bytes

unfoldable pub meta_bytes : SignatureBlock → Result Bytes
meta_bytes sb = do
  out ← append_string (sb.algorithm ∷ []) sb.vmid
  ok ((out ++ sb.nonce) ++ put_uint64 (to_u64 sb.timestamp_ms))

unfoldable pub encode_block : SignatureBlock → Result Bytes
encode_block sb = do
  out ← meta_bytes sb
  out' ← append_varint out (length sb.signature)
  ok (out' ++ sb.signature)

-- The last steps of `DecodeSignatureBlock`, where `SigLen` begins at `at`.
decode_signature : Bytes → ℕ → ℕ → Bytes → Bytes → ℤ → Result (SignatureBlock × ℕ)
decode_signature bytes at alg vmid nonce ts = do
  (sig_len, n) ← map_err (wrapf "sig block SigLen") (read_varint (drop at bytes))
  if ltb (length bytes - (at + n)) sig_len
      then err (wrapf "sig block SigBytes" (sentinel short_buffer))
      else ok (
        record {
          algorithm = alg;
          vmid = vmid;
          nonce = nonce;
          timestamp_ms = ts;
          signature = take sig_len (drop (at + n) bytes);
        },
        at + n + sig_len,
      )

-- The nonce and the timestamp, where the nonce begins at `at`.
decode_fixed : Bytes → ℕ → ℕ → Bytes → Result (SignatureBlock × ℕ)
unfolding decode_signature
decode_fixed bytes at alg vmid =
    if ltb (length bytes - at) 16
    then err (wrapf "sig block Nonce" (sentinel short_buffer))
    else if ltb (length bytes - (at + 16)) 8
    then err (wrapf "sig block Timestamp" (sentinel short_buffer))
    else decode_signature bytes (at + 16 + 8) alg vmid (take 16 (drop at bytes))
        (of_u64 (be_uint64 (take 8 (drop (at + 16) bytes))))

-- `DecodeSignatureBlock`: the block and the number of bytes read.
unfoldable pub decode_block : Bytes → Result (SignatureBlock × ℕ)
unfolding decode_fixed
decode_block [] = err (sentinel short_buffer)
decode_block (alg ∷ rest) = do
  (vmid, n) ← map_err (wrapf "sig block VMID") (read_string (drop 1 (alg ∷ rest)))
  decode_fixed (alg ∷ rest) (1 + n) alg vmid

unfoldable pub signed_message_bytes : ℕ → Bytes → SignatureBlock → Result Bytes
unfolding meta_bytes
signed_message_bytes ft inner block = do
  meta ← meta_bytes block
  ok (((domain_separator ++ ft ∷ []) ++ inner) ++ meta)
