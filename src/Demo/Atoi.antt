-- ===== src/Demo/Atoi.antt =====
-- `strconv.Atoi` on a number in decimal.
use aire_go.Base.{
  leb, ◌==◌, lt→ltb, ok, ℕ, zero, suc, ◌+◌, ◌-◌, ◌*◌, ◌^◌, ◌<◌, ◌≡◌, refl, ap, ◌∙◌, true, false,
  ◌&&◌, some, List, [], ◌∷◌, arith,
}
use aire_go.Base.Int.{pos}
use aire_go.Digits.{of_digits}
use aire_go.Digits.Canonical.{IsDigits}
use aire_go.Digits.Print.{decimal, in_base}
use aire_go.Digits.Decimal.{
  be_digits, letters, be_digits-IsDigits, decimal-letters, of_digits-be_digits,
}
use aire_go.Demo.{digits_value, magnitude, atoi}

digits_value-letters :
    (acc : ℕ) (ds : List ℕ)
    → IsDigits 10 ds
    → digits_value acc (letters ds) ≡ some (of_digits 10 acc ds)
unfolding digits_value of_digits
digits_value-letters acc [] h = refl
digits_value-letters acc (d ∷ ds) (h, hs) =
    let digit : (leb b'0' (b'0' + d) && leb (b'0' + d) b'9') ≡ true = ground (arith, h) in
    let value : b'0' + d - b'0' ≡ d = omega arith in
    rw (digit, value) (digits_value-letters (acc * 10 + d) ds hs)

atoi-letters :
    (d : ℕ) (ds : List ℕ)
    → IsDigits 10 (d ∷ ds)
    → of_digits 10 0 (d ∷ ds) < 2 ^ 63
    → atoi (letters (d ∷ ds)) ≡ ok (pos (of_digits 10 0 (d ∷ ds)))
unfolding atoi magnitude
atoi-letters d ds h small =
    let no_minus : (b'0' + d == b'-') ≡ false = ground (arith, h.0) in
    let no_plus : (b'0' + d == b'+') ≡ false = ground (arith, h.0) in
    rw (no_minus, no_plus, digits_value-letters 0 (d ∷ ds) h, magnitude, lt→ltb _ _ small) refl

atoi-digits :
    (ds : List ℕ)
    → IsDigits 10 ds
    → 0 < of_digits 10 0 ds
    → of_digits 10 0 ds < 2 ^ 63
    → atoi (letters ds) ≡ ok (pos (of_digits 10 0 ds))
unfolding of_digits
atoi-digits [] h positive small = absurd (omega arith)
atoi-digits (d ∷ ds) h positive small = atoi-letters d ds h small

-- A number is read as it was printed.
pub atoi-decimal : (n : ℕ) → n < 2 ^ 63 → atoi (decimal n) ≡ ok (pos n)
unfolding atoi magnitude in_base digits_value
atoi-decimal zero h = refl
atoi-decimal (suc n) h =
    let value = of_digits-be_digits (suc n) in
    ap atoi (decimal-letters (suc n) (omega arith))
    ∙ atoi-digits (be_digits (suc n)) (be_digits-IsDigits (suc n)) (omega (arith, value))
        (omega (arith, value, h))
    ∙ ap (λ (m : ℕ). ok (pos m)) value
