-- ===== src/Digits/Decimal.antt =====
-- Numbers in decimal.
use aire_go.Base.{
  ◌==◌, ne→==, Bool-cases, length, length-reverse_aux, All, ℕ, suc, ◌+◌, ◌^◌, ◌≤◌, ◌<◌, ◌≡◌, refl,
  sym, ap, ◌∙◌, subst, inl, inr, false, List, [], ◌∷◌, map, reverse, reverse_aux, reverse-reverse,
  arith,
}
use aire_go.Varint.{Bytes}
use aire_go.Digits.{to_digits, le_digits, of_digits}
use aire_go.Digits.Canonical.{
  IsDigits, le_value, le_value-le_digits, le_digits-IsDigits, of_digits-le_value,
}
use aire_go.Digits.Recode.{All-reverse}
use aire_go.Digits.Size.{length-le_digits}
use aire_go.Digits.Print.{hex_digit, in_base, decimal}

-- The digits of a positive number, the greatest first.
abbrev pub be_digits : ℕ → List ℕ
be_digits n = reverse (le_digits n 10 n)

abbrev pub letters : List ℕ → Bytes
letters ds = map (λ d. b'0' + d) ds

letters-reverse_aux :
    (ds out : List ℕ)
    → IsDigits 10 ds
    → reverse_aux (map hex_digit ds) (letters out) ≡ letters (reverse_aux ds out)
letters-reverse_aux [] out h = refl
letters-reverse_aux (d ∷ ds) out (h, hs) =
    let plain : hex_digit d ≡ b'0' + d = ground arith in
    ap (λ (c : ℕ). reverse_aux (map hex_digit ds) (c ∷ letters out)) plain
    ∙ letters-reverse_aux ds (d ∷ out) hs

pub be_digits-IsDigits : (n : ℕ) → IsDigits 10 (be_digits n)
be_digits-IsDigits n =
    All-reverse (λ d. d < 10) (le_digits n 10 n) (le_digits-IsDigits 10 (omega arith) n n)

pub decimal-letters : (n : ℕ) → 0 < n → decimal n ≡ letters (be_digits n)
unfolding in_base to_digits
decimal-letters n h =
    let some_digit : (n == 0) ≡ false = ne→== n 0 (λ e. omega (arith, e, h)) in
    rw (some_digit, in_base)
      (letters-reverse_aux (le_digits n 10 n) [] (le_digits-IsDigits 10 (omega arith) n n))

pub of_digits-be_digits : (n : ℕ) → of_digits 10 0 (be_digits n) ≡ n
unfolding le_value
of_digits-be_digits n =
    let ds = le_digits n 10 n in
    of_digits-le_value 10 (omega arith) (reverse ds) []
    ∙ ap (le_value 10) (reverse-reverse ds)
    ∙ le_value-le_digits 10 (omega arith) n n (omega arith)

length-letters : (ds : List ℕ) → length (letters ds) ≡ length ds
length-letters [] = refl
length-letters (d ∷ ds) = ap suc (length-letters ds)

-- A number below 10 ^ k has at most k digits, if k is positive.
pub length-decimal : (k n : ℕ) → n < 10 ^ suc k → length (decimal n) ≤ suc k
unfolding in_base
length-decimal k n h = elim (Bool-cases (n == 0)) [
  | inl z ↦ rw (z, in_base) (omega arith)
  | inr p ↦
      let ds = le_digits n 10 n in
      let pos : 0 < n = ground (arith, p) in
      omega (
        arith,
        ap length (decimal-letters n pos),
        length-letters (be_digits n),
        length-reverse_aux ds [],
        length-le_digits 10 (omega arith) (suc k) n n h,
      )
]

letters-All :
    (P : ℕ → Type 0)
    → ((d : ℕ) → d < 10 → P (b'0' + d))
    → (ds : List ℕ) → IsDigits 10 ds
    → All P (letters ds)
letters-All P all [] h = tt
letters-All P all (d ∷ ds) (h, hs) = (all d h, letters-All P all ds hs)

-- What holds of the ten digits holds of each letter.
pub decimal-All : (P : ℕ → Type 0) → ((d : ℕ) → d < 10 → P (b'0' + d)) → (n : ℕ) → All P (decimal n)
unfolding in_base
decimal-All P all n = elim (Bool-cases (n == 0)) [
  | inl z ↦ rw (z, in_base) (all 0 (omega arith), tt)
  | inr p ↦
      subst (All P) (sym (decimal-letters n (ground (arith, p))))
        (letters-All P all (be_digits n) (be_digits-IsDigits n))
]
