-- ===== src/Hello/RoundTrip.antt =====
-- What `encodeHelloInner` writes, and `decodeHelloPayloadV02` on it.
use aire_go.Base.{
  lt→ltb, ge→ltb, length, drop, drop-append, drop_past, All, ok, panic, ℕ, ◌+◌, ◌≤◌, ◌<◌, ◌≡◌, refl,
  ap, ◌∙◌, Bool, true, false, List, [], ◌∷◌, ◌++◌, append_assoc, append-nil,
}
use aire_go.Varint.{Bytes, max_varint, read_varint}
use aire_go.Varint.Encode.{encoding, append_varint-encoding}
use aire_go.Varint.RoundTrip.{read_varint_at, read_varint-encoding}
use aire_go.Strings.RoundTrip.{string_bytes, append_string-bytes, read_string_at}
use aire_go.Capability.{Capability}
use aire_go.Hello.{
  Version, required_byte, encode_caps, read_required, decode_cap, decode_caps, decode_array,
  decode_hello_payload, encode_hello_inner,
}

abbrev pub cap_bytes : Capability → Bytes
cap_bytes c = string_bytes c.name ++ (encoding c.version ++ required_byte c.required ∷ [])

abbrev pub caps_bytes : List Capability → Bytes
caps_bytes [] = []
caps_bytes (c ∷ cs) = cap_bytes c ++ caps_bytes cs

-- Its numbers and lengths are such as a varint holds.
abbrev pub IsAdvertisable : Capability → Type 0
IsAdvertisable c = (length c.name ≤ max_varint) × (c.version ≤ max_varint)

encode_caps-bytes :
    (cs : List Capability) (buf : Bytes)
    → All IsAdvertisable cs
    → encode_caps cs buf ≡ ok (buf ++ caps_bytes cs)
unfolding encode_caps
encode_caps-bytes [] buf h = rw append-nil
encode_caps-bytes (c ∷ cs) buf ((hn, hv), hs) =
    rw (append_string-bytes buf c.name hn, append_varint-encoding _ c.version hv)
      (encode_caps-bytes cs _ hs ∙ ap ok (simp append_assoc))

read_required-byte : (r : Bool) (rest : Bytes) → read_required (required_byte r ∷ rest) ≡ ok r
unfolding read_required
read_required-byte true rest = refl
read_required-byte false rest = refl

module _ (payload : Bytes) (at : ℕ) (c : Capability) (rest : Bytes) where
  abbrev cap_end : ℕ
  cap_end = at + length (string_bytes c.name) + length (encoding c.version) + 1

  decode_cap-bytes :
      IsAdvertisable c
      → drop at payload ≡ cap_bytes c ++ rest
      → (decode_cap payload at ≡ ok (c, cap_end)) × (drop cap_end payload ≡ rest)
  unfolding decode_cap
  decode_cap-bytes (hn, hv) e =
      let s = string_bytes c.name in
      let v = encoding c.version in
      let flag = required_byte c.required ∷ [] in
      let e0 : drop at payload ≡ s ++ (v ++ (flag ++ rest)) = e ∙ simp append_assoc in
      let (r1, e1) = read_string_at at payload c.name (v ++ (flag ++ rest)) hn e0 in
      let (r2, e2) = read_varint_at (at + length s) payload c.version (flag ++ rest) hv e1 in
      (
        rw (r1, r2, e2, read_required-byte c.required rest) refl,
        drop_past (at + length s + length v) payload flag rest e2,
      )

decode_caps-bytes :
    (cs done : List Capability) (payload rest : Bytes) (at : ℕ)
    → All IsAdvertisable cs
    → drop at payload ≡ caps_bytes cs ++ rest
    → (end : ℕ) × (decode_caps (length cs) payload at done ≡ ok (done ++ cs, end))
      × (drop end payload ≡ rest)
unfolding decode_caps
decode_caps-bytes [] done payload rest at h e = (at, rw append-nil refl, e)
decode_caps-bytes (c ∷ cs) done payload rest at (h, hs) e =
    let tail = caps_bytes cs ++ rest in
    let (r, e1) =
      decode_cap-bytes payload at c tail h (e ∙ append_assoc (cap_bytes c) (caps_bytes cs) rest) in
    let (end, r', e2) =
      decode_caps-bytes cs (done ++ c ∷ []) payload rest (cap_end payload at c tail) hs e1 in
    (end, rw r (r' ∙ simp append_assoc), e2)

abbrev pub head_bytes : Version → Bytes → ℕ → Bytes
head_bytes ver node_id num =
    encoding ver.major ++ (encoding ver.minor ++ (string_bytes node_id ++ encoding num))

abbrev pub hello_bytes : Version → Bytes → List Capability → Bytes
hello_bytes ver node_id caps = head_bytes ver node_id (length caps) ++ caps_bytes caps

module _ (ver : Version) (node_id : Bytes) (hj : ver.major ≤ max_varint)
    (hm : ver.minor ≤ max_varint) (hn : length node_id ≤ max_varint) where
  decode-head :
      (limit num : ℕ) (rest : Bytes)
      → num ≤ max_varint
      → (at : ℕ) × (drop at (head_bytes ver node_id num ++ rest) ≡ rest)
        × (decode_hello_payload limit (head_bytes ver node_id num ++ rest)
            ≡ decode_array limit ver node_id num (head_bytes ver node_id num ++ rest) at)
  unfolding decode_hello_payload
  decode-head limit num rest h =
      let payload = head_bytes ver node_id num ++ rest in
      let j = encoding ver.major in
      let m = encoding ver.minor in
      let s = string_bytes node_id in
      let k = encoding num in
      let e0 : payload ≡ j ++ (m ++ (s ++ (k ++ rest))) = simp append_assoc in
      let r0 = read_varint-encoding ver.major (m ++ (s ++ (k ++ rest))) hj in
      let e1 : drop (length j) payload ≡ m ++ (s ++ (k ++ rest)) =
        ap (drop (length j)) e0 ∙ drop-append _ _ in
      let (r2, e2) = read_varint_at (length j) payload ver.minor _ hm e1 in
      let (r3, e3) = read_string_at (length j + length m) payload node_id _ hn e2 in
      let (r4, e4) = read_varint_at (length j + length m + length s) payload num rest h e3 in
      let r1 : read_varint payload ≡ ok (ver.major, length j) = rw e0 r0 in
      (length j + length m + length s + length k, e4, rw (r1, r2, r3, r4) refl)

  pub encode_hello_inner-bytes :
      (caps : List Capability)
      → length caps ≤ max_varint
      → All IsAdvertisable caps
      → encode_hello_inner ver node_id caps ≡ ok (hello_bytes ver node_id caps)
  unfolding encode_hello_inner
  encode_hello_inner-bytes caps h hs =
      rw
        (
          append_varint-encoding [] ver.major hj,
          append_varint-encoding _ ver.minor hm,
          append_string-bytes _ node_id hn,
          append_varint-encoding _ (length caps) h,
        )
        (encode_caps-bytes caps _ hs ∙ ap ok (simp append_assoc))

  decode_array-bytes :
      (limit at : ℕ) (caps : List Capability) (payload rest : Bytes)
      → length caps ≤ limit
      → All IsAdvertisable caps
      → drop at payload ≡ caps_bytes caps ++ rest
      → decode_array limit ver node_id (length caps) payload at ≡ ok (ver, node_id, caps, rest)
  unfolding decode_array
  decode_array-bytes limit at caps payload rest hl hs e =
      let (end, r, e1) = decode_caps-bytes caps [] payload rest at hs e in
      rw (ge→ltb _ _ hl, r, e1) refl

  pub decode_hello_payload-hello_bytes :
      (limit : ℕ) (caps : List Capability) (trailer : Bytes)
      → length caps ≤ max_varint
      → length caps ≤ limit
      → All IsAdvertisable caps
      → decode_hello_payload limit (hello_bytes ver node_id caps ++ trailer)
        ≡ ok (ver, node_id, caps, trailer)
  decode_hello_payload-hello_bytes limit caps trailer hc hl hs =
      let tail = caps_bytes caps ++ trailer in
      let head = head_bytes ver node_id (length caps) in
      let (at, e, r) = decode-head limit (length caps) tail hc in
      let d = decode_array-bytes limit at caps (head ++ tail) trailer hl hs e in
      rw (append_assoc head (caps_bytes caps) trailer) (r ∙ d)

-- For numbers and lengths that a varint holds, and no more capabilities than `make` has room for:
-- `encodeHelloInner` succeeds, and `decodeHelloPayloadV02` on its bytes with a trailer behind them
-- returns the version, the node's identifier, the capabilities in their order, and the trailer.
pub decode_hello_payload-encode_hello_inner :
    (limit : ℕ) (ver : Version) (node_id : Bytes) (caps : List Capability) (trailer : Bytes)
    → ver.major ≤ max_varint
    → ver.minor ≤ max_varint
    → length node_id ≤ max_varint
    → length caps ≤ max_varint
    → length caps ≤ limit
    → All IsAdvertisable caps
    → (inner : Bytes) × (encode_hello_inner ver node_id caps ≡ ok inner)
      × (decode_hello_payload limit (inner ++ trailer) ≡ ok (ver, node_id, caps, trailer))
decode_hello_payload-encode_hello_inner limit ver node_id caps trailer hj hm hn hc hl hs = (
  hello_bytes ver node_id caps,
  encode_hello_inner-bytes ver node_id hj hm hn caps hc hs,
  decode_hello_payload-hello_bytes ver node_id hj hm hn limit caps trailer hc hl hs,
)

-- A HELLO that announces more capabilities than `make` has room for, up to `MaxVarint`, makes the
-- decoder panic, whatever follows the number: nothing compares it with the bytes that are there.
pub decode_hello_payload_huge_count :
    (limit : ℕ) (ver : Version) (node_id : Bytes) (num : ℕ) (rest : Bytes)
    → ver.major ≤ max_varint
    → ver.minor ≤ max_varint
    → length node_id ≤ max_varint
    → limit < num
    → num ≤ max_varint
    → decode_hello_payload limit (head_bytes ver node_id num ++ rest) ≡ panic
decode_hello_payload_huge_count limit ver node_id num rest hj hm hn hl hc =
    let (at, e, r) = decode-head ver node_id hj hm hn limit num rest hc in
    r ∙ unfold decode_array in rw (lt→ltb _ _ hl) refl
