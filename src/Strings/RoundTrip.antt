-- ===== src/Strings/RoundTrip.antt =====
-- What `appendString` writes, and `readString` on it and on any bytes.
use aire_go.Base.{
  ltb, Bool-cases, length, drop, length-append, length-take, take-append, drop-append, drop_past,
  short_buffer, sentinel, ok, err, panic, ℕ, ◌+◌, ◌-◌, ◌≤◌, ◌<◌, ◌≡◌, refl, ◌≢◌, ◌⊎◌, inl, inr,
  ◌++◌, append_assoc, arith,
}
use aire_go.Varint.{Bytes, max_varint}
use aire_go.Varint.Encode.{encoding, append_varint-encoding}
use aire_go.Varint.Decode.{read_varint_takes, read_varint-Reads}
use aire_go.Varint.RoundTrip.{read_varint-encoding}
use aire_go.Strings.{append_string, read_string}

abbrev pub string_bytes : Bytes → Bytes
string_bytes s = encoding (length s) ++ s

pub append_string-bytes :
    (dst s : Bytes) → length s ≤ max_varint → append_string dst s ≡ ok (dst ++ string_bytes s)
unfolding append_string
append_string-bytes dst s h = rw (append_varint-encoding dst (length s) h, append_assoc)

pub read_string-bytes :
    (s rest : Bytes)
    → length s ≤ max_varint
    → read_string (string_bytes s ++ rest) ≡ ok (s, length (string_bytes s))
unfolding read_string
read_string-bytes s rest h =
    let enc = encoding (length s) in
    rw (append_assoc, read_varint-encoding (length s) (s ++ rest) h, drop-append)
      (ground (
        arith,
        length-append enc (s ++ rest),
        length-append s rest,
        length-append enc s,
        take-append s rest,
      ))

pub read_string_at :
    (pos : ℕ) (bs s rest : Bytes)
    → length s ≤ max_varint
    → drop pos bs ≡ string_bytes s ++ rest
    → (read_string (drop pos bs) ≡ ok (s, length (string_bytes s)))
      × (drop (pos + length (string_bytes s)) bs ≡ rest)
read_string_at pos bs s rest h e =
    (rw e (read_string-bytes s rest h), drop_past pos bs (string_bytes s) rest e)

pub read_string_takes :
    (bs s : Bytes) (n : ℕ) → read_string bs ≡ ok (s, n) → (1 ≤ n) × (n ≤ length bs) × (length s < n)
unfolding read_string
read_string_takes bs s n e = elim (read_varint-Reads bs) [
  | inr r ↦ ground (arith, r)
  | inl ((len, m), r) ↦ ground (arith, r, read_varint_takes bs len m r, length-take len (drop m bs))
]

pub read_string-ne-panic : (bs : Bytes) → read_string bs ≢ panic
unfolding read_string
read_string-ne-panic bs e = elim (read_varint-Reads bs) [
  | inr r ↦ ground (arith, r)
  | inl ((len, m), r) ↦ ground (arith, r)
]

-- The only failure is a short buffer.
pub read_string-cases :
    (bs : Bytes)
    → ((p : Bytes × ℕ) × (read_string bs ≡ ok p)) ⊎ (read_string bs ≡ err (sentinel short_buffer))
unfolding read_string
read_string-cases bs = elim (read_varint-Reads bs) [
  | inr r ↦ inr (rw r)
  | inl ((len, m), r) ↦ rw r (elim (Bool-cases (ltb (length bs - m) len)) [
    | inl e ↦ rw e (inr refl)
    | inr e ↦ rw e (inl (_, refl))
  ])
]
