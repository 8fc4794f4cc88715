-- ===== src/Runes/RoundTrip.antt =====
-- A text is the code points that it was made of.
use aire_go.Base.{
  ltb, ltb→lt, Bool-cases, length, drop, drop-append, length-append, All, ℕ, zero, suc, ◌+◌, ◌/◌,
  ◌%◌, ◌≤◌, ◌<◌, ◌≡◌, refl, ap, ◌∙◌, inl, inr, true, List, [], ◌∷◌, ◌++◌, arith,
}
use aire_go.Varint.{Bytes}
use aire_go.Runes.{
  is_rune, rune_of, two_bytes, three_bytes, four_bytes, first_rune, decode_from, decode_runes,
  encode_valid, encode_rune, encode_runes,
}

abbrev pub IsRune : ℕ → Type 0
IsRune r = is_rune r ≡ true

one_rune : (r b c d : ℕ) → r < 0x80 → rune_of r b c d ≡ (r, 1)
unfolding rune_of
one_rune r b c d h = ground arith

two_rune : (r c d : ℕ) → 0x80 ≤ r → r < 0x800 → rune_of (0xC0 + r / 64) (0x80 + r % 64) c d ≡ (r, 2)
unfolding rune_of two_bytes
two_rune r c d h k = ground arith

three_rune :
    (r d : ℕ)
    → 0x800 ≤ r
    → r < 0x10000
    → IsRune r
    → rune_of (0xE0 + r / 4096) (0x80 + r / 64 % 64) (0x80 + r % 64) d ≡ (r, 3)
unfolding rune_of three_bytes
three_rune r d h k v = ground arith

four_rune :
    (r : ℕ)
    → 0x10000 ≤ r
    → IsRune r
    → rune_of (0xF0 + r / 262144) (0x80 + r / 4096 % 64) (0x80 + r / 64 % 64) (0x80 + r % 64)
      ≡ (r, 4)
unfolding rune_of four_bytes
four_rune r h v = ground arith

-- The forms of the four ranges.
data Form (r : ℕ) : Bytes → Type 0 where
  one : r < 0x80 → Form r (r ∷ [])
  two : 0x80 ≤ r → r < 0x800 → Form r ((0xC0 + r / 64) ∷ (0x80 + r % 64) ∷ [])
  three :
      0x800 ≤ r
      → r < 0x10000
      → Form r ((0xE0 + r / 4096) ∷ (0x80 + r / 64 % 64) ∷ (0x80 + r % 64) ∷ [])
  four :
      0x10000 ≤ r
      → Form r (
          (0xF0 + r / 262144)
          ∷ (0x80 + r / 4096 % 64)
          ∷ (0x80 + r / 64 % 64)
          ∷ (0x80 + r % 64)
          ∷ [])

encode_rune-Form : (r : ℕ) → IsRune r → Form r (encode_rune r)
unfolding encode_rune encode_valid
encode_rune-Form r v = elim (Bool-cases (ltb r 0x80)) [
  | inl a ↦ rw (v, encode_rune, a) (one (ltb→lt r _ a))
  | inr a ↦ elim (Bool-cases (ltb r 0x800)) [
    | inl b ↦ rw (v, encode_rune, a, b) (two (ground (arith, a)) (ltb→lt r _ b))
    | inr b ↦ elim (Bool-cases (ltb r 0x10000)) [
      | inl c ↦ rw (v, encode_rune, a, b, c) (three (ground (arith, b)) (ltb→lt r _ c))
      | inr c ↦ rw (v, encode_rune, a, b, c) (four (ground (arith, c)))
    ]
  ]
]

Form-first :
    {r : ℕ} {s : Bytes}
    → Form r s
    → IsRune r
    → (rest : Bytes) → first_rune (s ++ rest) ≡ (r, length s)
unfolding first_rune
Form-first {r} (one h) v rest = one_rune r _ _ _ h
Form-first {r} (two h k) v rest = two_rune r _ _ h k
Form-first {r} (three h k) v rest = three_rune r _ h k v
Form-first {r} (four h) v rest = four_rune r h v

Form-pos : {r : ℕ} {s : Bytes} → Form r s → 1 ≤ length s
Form-pos (one h) = omega arith
Form-pos (two h k) = omega arith
Form-pos (three h k) = omega arith
Form-pos (four h) = omega arith

decode_from-cons :
    (fuel r : ℕ) (s rest : Bytes)
    → 1 ≤ length s
    → first_rune (s ++ rest) ≡ (r, length s)
    → decode_from (suc fuel) (s ++ rest) ≡ r ∷ decode_from fuel rest
unfolding decode_from
decode_from-cons fuel r [] rest h e = absurd (omega arith)
decode_from-cons fuel r (b ∷ t) rest h e =
    ap (λ (p : ℕ × ℕ). p.0 ∷ decode_from fuel (drop p.1 (b ∷ t ++ rest))) e
    ∙ ap (λ (q : Bytes). r ∷ decode_from fuel q) (drop-append (b ∷ t) rest)

decode_from-encode_runes :
    (fuel : ℕ) (rs : List ℕ)
    → All IsRune rs
    → length (encode_runes rs) ≤ fuel
    → decode_from fuel (encode_runes rs) ≡ rs
unfolding encode_runes decode_from
decode_from-encode_runes zero [] h fits = refl
decode_from-encode_runes (suc fuel) [] h fits = refl
decode_from-encode_runes zero (r ∷ rs) (v, h) fits =
    let form = encode_rune-Form r v in
    absurd (omega (arith, fits, Form-pos form, length-append (encode_rune r) (encode_runes rs)))
decode_from-encode_runes (suc fuel) (r ∷ rs) (v, h) fits =
    let form = encode_rune-Form r v in
    let rest = encode_runes rs in
    let room : length rest ≤ fuel =
      omega (arith, fits, Form-pos form, length-append (encode_rune r) rest) in
    decode_from-cons fuel r (encode_rune r) rest (Form-pos form) (Form-first form v rest)
    ∙ ap (λ (q : List ℕ). r ∷ q) (decode_from-encode_runes fuel rs h room)

-- Decoding the form of code points gives them back, if each has a form.
pub decode_runes-encode_runes : (rs : List ℕ) → All IsRune rs → decode_runes (encode_runes rs) ≡ rs
unfolding decode_runes
decode_runes-encode_runes rs h =
    decode_from-encode_runes (length (encode_runes rs)) rs h (omega arith)
