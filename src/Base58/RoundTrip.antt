-- ===== src/Base58/RoundTrip.antt =====
-- base58btc both ways.
use aire_go.Base.{
  ◌↔◌, ltb, ◌==◌, ne→==, ==_iff, Bool-cases, Option-cases, get_or, All, replicate, Result-cases, ok,
  ℕ, zero, suc, ◌+◌, ◌*◌, ◌<◌, ◌≡◌, refl, sym, ap, ◌∙◌, subst, inl, inr, Bool, true, false, ◌&&◌,
  none, some, List, [], ◌∷◌, ◌++◌, map-append, reverse-append, map, reverse, reverse_aux, arith,
}
use aire_go.Base.Text.{index_byte, get_or-index_byte}
use aire_go.Varint.{Bytes, IsByte}
use aire_go.Digits.Canonical.{IsDigits}
use aire_go.Digits.{leading_zeros, of_digits, to_digits}
use aire_go.Digits.Recode.{recode, reverse-replicate, recode-IsDigits, recode_inverse}
use aire_go.Base58.{
  b58_alphabet, base58btc_encode, base58btc_decode, zero_marks, scan_base58, leading_ones,
}

abbrev pub digit_char : ℕ → ℕ
digit_char d = get_or b58_alphabet d 0

-- The alphabet has each of its characters at one place.
has_index : ℕ → Bool
has_index d = elim (index_byte (digit_char d) b58_alphabet) [ none ↦ false | some i ↦ i == d ]

all_have_index : ℕ → Bool
all_have_index zero = true
all_have_index (suc n) = has_index n && all_have_index n

all_have_index_sound : (n d : ℕ) → all_have_index n ≡ true → d < n → has_index d ≡ true
unfolding all_have_index
all_have_index_sound zero d h lt = absurd (omega arith)
all_have_index_sound (suc n) d h lt = ground (arith, all_have_index_sound n d)

alphabet_checked : all_have_index 58 ≡ true
unfolding all_have_index has_index index_byte
alphabet_checked = refl

pub index_byte-digit_char : (d : ℕ) → d < 58 → index_byte (digit_char d) b58_alphabet ≡ some d
unfolding has_index
index_byte-digit_char d h =
    let found = all_have_index_sound 58 d alphabet_checked h in
    elim (Option-cases (index_byte (digit_char d) b58_alphabet)) [
      | inl n ↦ ground (arith, n, found)
      | inr (i, s) ↦ s ∙ ap some ((==_iff i d).0 (rw (s, has_index) at found))
    ]

digit_char-eq_one : (d : ℕ) → d < 58 → (digit_char d == b'1') ≡ (d == 0)
unfolding index_byte
digit_char-eq_one zero h = refl
digit_char-eq_one (suc d) h =
    let different : (digit_char (suc d) == b'1') ≡ false = ne→== (digit_char (suc d)) b'1' (λ e.
      let found : index_byte b'1' b58_alphabet ≡ some (suc d) =
        subst (λ c. index_byte c b58_alphabet ≡ some (suc d)) e (index_byte-digit_char (suc d) h) in
      cc found) in
    different ∙ ground arith

map-reverse_aux :
    (f : ℕ → ℕ) (xs out : List ℕ) → map f (reverse_aux xs out) ≡ reverse_aux (map f xs) (map f out)
map-reverse_aux f [] out = refl
map-reverse_aux f (x ∷ xs) out = map-reverse_aux f xs (x ∷ out)

map-reverse : (f : ℕ → ℕ) (xs : List ℕ) → map f (reverse xs) ≡ reverse (map f xs)
map-reverse f xs = map-reverse_aux f xs []

zero_marks-map : (bs : Bytes) → zero_marks bs ≡ map digit_char (replicate (leading_zeros bs) 0)
unfolding zero_marks leading_zeros replicate
zero_marks-map [] = refl
zero_marks-map (b ∷ bs) = elim (Bool-cases (b == 0)) [
  | inl e ↦ rw e (ap (λ (l : Bytes). b'1' ∷ l) (zero_marks-map bs))
  | inr e ↦ rw e refl
]

pub encode-recode : (bytes : Bytes) → base58btc_encode bytes ≡ map digit_char (recode 256 58 bytes)
unfolding base58btc_encode
encode-recode bytes =
    let digits = to_digits 58 (of_digits 256 0 bytes) in
    let zeros = replicate (leading_zeros bytes) 0 in
    ap (λ (l : Bytes). reverse (map digit_char digits ++ l)) (zero_marks-map bytes)
    ∙ ap reverse (sym (map-append digit_char digits zeros))
    ∙ sym (map-reverse digit_char (digits ++ zeros))
    ∙ ap (map digit_char) (reverse-append digits zeros)
    ∙ rw (reverse-replicate (leading_zeros bytes) 0) refl

scan_base58-digits :
    (ds : List ℕ) (n : ℕ)
    → IsDigits 58 ds
    → scan_base58 n (map digit_char ds) ≡ ok (of_digits 58 n ds)
unfolding scan_base58 of_digits
scan_base58-digits [] n h = refl
scan_base58-digits (d ∷ ds) n (h, hs) =
    rw (index_byte-digit_char d h, scan_base58) (scan_base58-digits ds (n * 58 + d) hs)

leading_ones-zeros :
    (ds : List ℕ) → IsDigits 58 ds → leading_ones (map digit_char ds) ≡ leading_zeros ds
unfolding leading_ones leading_zeros
leading_ones-zeros [] h = refl
leading_ones-zeros (d ∷ ds) (h, hs) = rw (digit_char-eq_one d h, leading_ones-zeros ds hs) refl

decode-recode :
    (ds : List ℕ) → IsDigits 58 ds → base58btc_decode (map digit_char ds) ≡ ok (recode 58 256 ds)
unfolding base58btc_decode
decode-recode ds h =
    rw (scan_base58-digits ds 0 h, leading_ones-zeros ds h)
      (elim (Bool-cases (ltb 0 (leading_zeros ds))) [
        | inl e ↦ rw e refl
        | inr e ↦
            let z : leading_zeros ds ≡ 0 = ground (arith, e) in rw z (unfold replicate in refl)
      ])

scan_base58_sound :
    (s : Bytes) (n m : ℕ)
    → scan_base58 n s ≡ ok m
    → (ds : List ℕ) × (s ≡ map digit_char ds) × IsDigits 58 ds
unfolding scan_base58
scan_base58_sound [] n m e = ([], refl, tt)
scan_base58_sound (c ∷ cs) n m e = elim (Option-cases (index_byte c b58_alphabet)) [
  | inl f ↦ ground (arith, f)
  | inr (i, f) ↦
      let (ds, same, h) = scan_base58_sound cs (n * 58 + i) m (rw (f, scan_base58) at e) in
      let (char, lt) = get_or-index_byte c b58_alphabet i f in
      (i ∷ ds, rw (char, same) refl, (lt, h))
]

pub base58btc_decode-base58btc_encode :
    (bytes : Bytes) → All IsByte bytes → base58btc_decode (base58btc_encode bytes) ≡ ok bytes
base58btc_decode-base58btc_encode bytes h =
    ap base58btc_decode (encode-recode bytes)
    ∙ decode-recode (recode 256 58 bytes) (recode-IsDigits 256 58 bytes (omega arith))
    ∙ ap ok (recode_inverse 256 58 bytes (omega arith) (omega arith) h)

pub base58btc_encode-base58btc_decode :
    (s bytes : Bytes)
    → base58btc_decode s ≡ ok bytes
    → All IsByte bytes × (base58btc_encode bytes ≡ s)
unfolding base58btc_decode
base58btc_encode-base58btc_decode s bytes e = elim (Result-cases (scan_base58 0 s)) [
  | inr (inl (x, f)) ↦ ground (arith, f)
  | inr (inr f) ↦ ground (arith, f)
  | inl (m, f) ↦
      let (ds, same, h) = scan_base58_sound s 0 m f in
      let value : recode 58 256 ds ≡ bytes =
        cc (sym (decode-recode ds h) ∙ ap base58btc_decode (sym same) ∙ e) in
      (
        subst (All IsByte) value (recode-IsDigits 58 256 ds (omega arith)),
        encode-recode bytes
            ∙ ap (λ (l : Bytes). map digit_char (recode 256 58 l)) (sym value)
            ∙ ap (map digit_char) (recode_inverse 58 256 ds (omega arith) (omega arith) h)
            ∙ sym same,
      )
]

-- `base58btcDecode` returns given bytes for exactly one text, the one that `base58btcEncode` writes
-- for them, zero bytes at the front included; what it returns is always a list of bytes.
pub base58btc_decode-ok_iff :
    (s bytes : Bytes)
    → (base58btc_decode s ≡ ok bytes) ↔ (All IsByte bytes × (s ≡ base58btc_encode bytes))
base58btc_decode-ok_iff s bytes = (
  λ e. let (h, same) = base58btc_encode-base58btc_decode s bytes e in (h, sym same),
  λ (h, same). rw same (base58btc_decode-base58btc_encode bytes h),
)
