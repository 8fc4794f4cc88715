-- ===== src/Hello.antt =====
-- The HELLO payload of handshake.go: `encodeHelloInner` and `decodeHelloPayloadV02`, and `Version`.
pub mod RoundTrip
use aire_go.Base.{
  ltb, ◌==◌, if◌then◌else◌, length, drop, Error, Result, ◌>>=◌, map_err, malformed_hello, sentinel,
  wrapf, ok, err, panic, ℕ, zero, suc, ◌+◌, String, Bool, true, false, List, [], ◌∷◌, ◌++◌,
}
use aire_go.Digits.Print.{decimal}
use aire_go.Base.Text.{codes}
use aire_go.Varint.{Bytes, append_varint, read_varint}
use aire_go.Strings.{append_string, read_string}
use aire_go.Capability.{Capability}

pub record Version : Type 0 where
  pub major : ℕ
  pub minor : ℕ

-- The byte for `Required`.
abbrev pub required_byte : Bool → ℕ
required_byte true = 0x01
required_byte false = 0x00

-- The loop over the capabilities.
pub encode_caps : List Capability → Bytes → Result Bytes
encode_caps [] buf = ok buf
encode_caps (c ∷ cs) buf = do
  buf1 ← append_string buf c.name
  buf2 ← append_varint buf1 c.version
  encode_caps cs (buf2 ++ required_byte c.required ∷ [])

unfoldable pub encode_hello_inner : Version → Bytes → List Capability → Result Bytes
unfolding encode_caps
encode_hello_inner ver node_id caps = do
  buf1 ← append_varint [] ver.major
  buf2 ← append_varint buf1 ver.minor
  buf3 ← append_string buf2 node_id
  buf4 ← append_varint buf3 (length caps)
  encode_caps caps buf4

-- `fmt.Errorf("%w: …: %v", ErrMalformedHello, err)`: the cause is only printed.
abbrev pub malformed : String → Error → Error
malformed text cause = wrapf text (sentinel malformed_hello)

-- `payload[pos]` as the required flag, with the test before it.
pub read_required : Bytes → Result Bool
read_required [] = err (wrapf "cap.required: missing byte" (sentinel malformed_hello))
read_required (b ∷ _) =
    if b == 0x00
    then ok false
    else if b == 0x01
    then ok true
    else err (wrapf "cap.required: invalid value" (sentinel malformed_hello))

-- One round of the loop, with the cursor behind it.
pub decode_cap : Bytes → ℕ → Result (Capability × ℕ)
decode_cap payload pos = do
  (name, n) ← map_err (malformed "cap.name") (read_string (drop pos payload))
  (ver, m) ← map_err (malformed "cap.version") (read_varint (drop (pos + n) payload))
  required ← read_required (drop (pos + n + m) payload)
  ok (record { name = name; version = ver; required = required }, pos + n + m + 1)

-- The loop, by the number of rounds that are left.
pub decode_caps : ℕ → Bytes → ℕ → List Capability → Result (List Capability × ℕ)
decode_caps zero payload pos caps = ok (caps, pos)
decode_caps (suc n) payload pos caps = do
  (c, pos') ← decode_cap payload pos
  decode_caps n payload pos' (caps ++ c ∷ [])

-- `alloc_limit` is the greatest number of capabilities that `make` reserves room for; beyond it
-- `make` panics.
module _ (alloc_limit : ℕ) where
  -- What follows `NumCaps`.
  pub decode_array :
      Version → Bytes → ℕ → Bytes → ℕ → Result (Version × Bytes × List Capability × Bytes)
  unfolding decode_caps decode_cap read_required
  decode_array ver node_id num_caps payload pos = if ltb alloc_limit num_caps then panic else do
    (caps, end) ← decode_caps num_caps payload pos []
    ok (ver, node_id, caps, drop end payload)

  -- The version, the node's identifier, the capabilities, and the bytes behind them.
  unfoldable pub decode_hello_payload : Bytes → Result (Version × Bytes × List Capability × Bytes)
  unfolding decode_array
  decode_hello_payload payload = do
    (major, n1) ← map_err (malformed "VerMajor") (read_varint payload)
    (minor, n2) ← map_err (malformed "VerMinor") (read_varint (drop n1 payload))
    (node_id, n3) ← map_err (malformed "NodeID") (read_string (drop (n1 + n2) payload))
    (num_caps, n4) ← map_err (malformed "NumCaps") (read_varint (drop (n1 + n2 + n3) payload))
    decode_array (record { major = major; minor = minor }) node_id num_caps payload
        (n1 + n2 + n3 + n4)

-- `Version.String`
unfoldable pub version_string : Version → Bytes
version_string v = decimal v.major ++ (codes "." ++ decimal v.minor)
