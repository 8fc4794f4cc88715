-- ===== src/Base58/Letters.antt =====
-- The letters of a base58btc text, and how many there are.
use aire_go.Base.{
  ne→==, length, length-reverse_aux, get_or, length-append, All, ℕ, suc, ◌+◌, ◌^◌, ◌≤◌, ◌≡◌, refl,
  sym, ap, subst, none, some, List, [], ◌∷◌, ◌++◌, map, arith,
}
use aire_go.Base.Text.{IsFree, index_byte}
use aire_go.Varint.{Bytes, IsByte}
use aire_go.Digits.{to_digits, of_digits}
use aire_go.Base58.{b58_alphabet, zero_marks, base58btc_encode}
use aire_go.Digits.Canonical.{IsDigits}
use aire_go.Digits.Recode.{recode, recode-IsDigits}
use aire_go.Digits.Size.{length-to_digits}
use aire_go.Base58.RoundTrip.{digit_char, index_byte-digit_char, encode-recode}

length-map : (f : ℕ → ℕ) (xs : List ℕ) → length (map f xs) ≡ length xs
length-map f [] = refl
length-map f (x ∷ xs) = ap suc (length-map f xs)

length-zero_marks : (bs : Bytes) → length (zero_marks bs) ≤ length bs
unfolding zero_marks
length-zero_marks [] = omega arith
length-zero_marks (b ∷ bs) = ground (arith, length-zero_marks bs)

-- The text of `m` bytes has at most `k + m` letters, where `58 ^ k` is `256 ^ m` or more.
pub length-base58btc_encode :
    (bytes : Bytes) (k : ℕ)
    → All IsByte bytes
    → 256 ^ length bytes ≤ 58 ^ k
    → length (base58btc_encode bytes) ≤ k + length bytes
unfolding base58btc_encode
length-base58btc_encode bytes k h fits =
    let ds = to_digits 58 (of_digits 256 0 bytes) in
    let out = map (λ d. get_or b58_alphabet d 0) ds in
    let marks = zero_marks bytes in
    omega (
      arith,
      length-reverse_aux (out ++ marks) [],
      length-append out marks,
      length-map (λ d. get_or b58_alphabet d 0) ds,
      length-zero_marks bytes,
      length-to_digits 256 58 bytes k (omega arith) h fits,
    )

letters-IsFree :
    (sep : ℕ)
    → index_byte sep b58_alphabet ≡ none
    → (ds : List ℕ) → IsDigits 58 ds
    → IsFree sep (map digit_char ds)
letters-IsFree sep e [] h = tt
letters-IsFree sep e (d ∷ ds) (h, hs) = (
  ne→== (digit_char d) sep (λ same.
      cc (subst (λ c. index_byte c b58_alphabet ≡ some d) same (index_byte-digit_char d h))),
  letters-IsFree sep e ds hs,
)

-- What is not in the alphabet is in no text.
pub base58btc_encode-IsFree :
    (sep : ℕ) (bytes : Bytes)
    → index_byte sep b58_alphabet ≡ none
    → IsFree sep (base58btc_encode bytes)
base58btc_encode-IsFree sep bytes e =
    subst (IsFree sep) (sym (encode-recode bytes))
      (letters-IsFree sep e (recode 256 58 bytes) (recode-IsDigits 256 58 bytes (omega arith)))
