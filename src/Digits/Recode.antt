-- ===== src/Digits/Recode.antt =====
-- Digits in one base rewritten in another, with the zeros at the front kept in number.
use aire_go.Base.{
  ◌==◌, ==_iff, Bool-cases, All, All-append, replicate, ℕ, zero, suc, ◌<◌, ◌≡◌, refl, sym, ap, ◌∙◌,
  subst, inl, inr, List, [], ◌∷◌, ◌++◌, append-nil, reverse-append, reverse-reverse, reverse,
  reverse_aux, arith,
}
use aire_go.Digits.{to_digits, le_digits, of_digits, leading_zeros}
use aire_go.Digits.Canonical.{
  IsDigits, IsCanonical, le_value, le_value-le_digits, le_digits-IsDigits, le_digits-le_value,
  le_digits-IsCanonical, of_digits-le_value, le_value-zeros,
}

-- The digits with as many zeros at the front as before.
abbrev pub recode : ℕ → ℕ → List ℕ → List ℕ
recode b c ds = replicate (leading_zeros ds) 0 ++ reverse (to_digits c (of_digits b 0 ds))

-- The first digit, if any, is not 0.
abbrev IsHeadPos : List ℕ → Type 0
IsHeadPos [] = Unit
IsHeadPos (d ∷ ds) = 0 < d

replicate-shift :
    (n : ℕ) (x : ℕ) (ys : List ℕ) → replicate n x ++ x ∷ ys ≡ x ∷ (replicate n x ++ ys)
unfolding replicate
replicate-shift zero x ys = refl
replicate-shift (suc n) x ys = ap (λ (l : List ℕ). x ∷ l) (replicate-shift n x ys)

reverse_aux-replicate :
    (n x : ℕ) (out : List ℕ) → reverse_aux (replicate n x) out ≡ replicate n x ++ out
unfolding replicate
reverse_aux-replicate zero x out = refl
reverse_aux-replicate (suc n) x out = reverse_aux-replicate n x (x ∷ out) ∙ replicate-shift n x out

pub reverse-replicate : (n x : ℕ) → reverse (replicate n x) ≡ replicate n x
reverse-replicate n x = reverse_aux-replicate n x [] ∙ append-nil (replicate n x)

leading_zeros-zeros : (z : ℕ) (ds : List ℕ) → IsHeadPos ds → leading_zeros (replicate z 0 ++ ds) ≡ z
unfolding leading_zeros replicate
leading_zeros-zeros zero [] h = refl
leading_zeros-zeros zero (d ∷ ds) h = ground arith
leading_zeros-zeros (suc z) ds h = ap suc (leading_zeros-zeros z ds h)

-- The digits behind the zeros.
strip :
    (ds : List ℕ) → (rest : List ℕ) × (ds ≡ replicate (leading_zeros ds) 0 ++ rest) × IsHeadPos rest
unfolding leading_zeros replicate
strip [] = ([], refl, tt)
strip (d ∷ ds) = elim (Bool-cases (d == 0)) [
  | inr e ↦ (d ∷ ds, rw e refl, ground (arith, e))
  | inl e ↦
      let (rest, same, h) = strip ds in
      let zero_first : d ≡ 0 = (==_iff _ _).0 e in
      (rest, rw e (rw zero_first (ap (λ (l : List ℕ). 0 ∷ l) same)), h)
]

reverse_aux-IsCanonical :
    (ds : List ℕ) (o : ℕ) (out : List ℕ)
    → IsCanonical (o ∷ out)
    → IsCanonical (reverse_aux ds (o ∷ out))
reverse_aux-IsCanonical [] o out h = h
reverse_aux-IsCanonical (d ∷ ds) o out h = reverse_aux-IsCanonical ds d (o ∷ out) h

reverse-IsCanonical : (ds : List ℕ) → IsHeadPos ds → IsCanonical (reverse ds)
reverse-IsCanonical [] h = tt
reverse-IsCanonical (d ∷ ds) h = reverse_aux-IsCanonical ds d [] h

reverse_aux-IsHeadPos :
    (d : ℕ) (ds out : List ℕ) → IsCanonical (d ∷ ds) → IsHeadPos (reverse_aux (d ∷ ds) out)
reverse_aux-IsHeadPos d [] out h = h
reverse_aux-IsHeadPos d (e ∷ ds) out h = reverse_aux-IsHeadPos e ds (d ∷ out) h

reverse-IsHeadPos : (ds : List ℕ) → IsCanonical ds → IsHeadPos (reverse ds)
reverse-IsHeadPos [] h = tt
reverse-IsHeadPos (d ∷ ds) h = reverse_aux-IsHeadPos d ds [] h

All-reverse_aux :
    (P : ℕ → Type 0) (ds out : List ℕ) → All P ds → All P out → All P (reverse_aux ds out)
All-reverse_aux P [] out h k = k
All-reverse_aux P (d ∷ ds) out (h, hs) k = All-reverse_aux P ds (d ∷ out) hs (h, k)

pub All-reverse : (P : ℕ → Type 0) (ds : List ℕ) → All P ds → All P (reverse ds)
All-reverse P ds h = All-reverse_aux P ds [] h tt

All-tail : (P : ℕ → Type 0) (xs ys : List ℕ) → All P (xs ++ ys) → All P ys
All-tail P [] ys h = h
All-tail P (x ∷ xs) ys (h, hs) = All-tail P xs ys hs

All-replicate : (P : ℕ → Type 0) (n x : ℕ) → P x → All P (replicate n x)
unfolding replicate
All-replicate P zero x h = tt
All-replicate P (suc n) x h = (h, All-replicate P n x h)

-- The value of digits is that of those behind the zeros.
value-zeros :
    (b : ℕ)
    → 1 < b
    → (z : ℕ) (rest : List ℕ) → of_digits b 0 (replicate z 0 ++ rest) ≡ le_value b (reverse rest)
unfolding le_value
value-zeros b big z rest =
    of_digits-le_value b big (replicate z 0 ++ rest) []
    ∙ ap (le_value b) (reverse-append (replicate z 0) rest)
    ∙ rw (reverse-replicate z 0) (le_value-zeros b big (reverse rest) z)

pub recode-IsDigits : (b c : ℕ) (ds : List ℕ) → 1 < c → IsDigits c (recode b c ds)
unfolding to_digits
recode-IsDigits b c ds big =
    let n = of_digits b 0 ds in
    All-append (λ d. d < c) (replicate (leading_zeros ds) 0) (reverse (le_digits n c n))
      (All-replicate (λ d. d < c) (leading_zeros ds) 0 (omega arith))
      (All-reverse (λ d. d < c) (le_digits n c n) (le_digits-IsDigits c big n n))

pub recode_inverse :
    (b c : ℕ) (ds : List ℕ) → 1 < b → 1 < c → IsDigits b ds → recode c b (recode b c ds) ≡ ds
unfolding to_digits
recode_inverse b c ds big_b big_c h =
    let z = leading_zeros ds in
    let (rest, same, pos) = strip ds in
    let n = of_digits b 0 ds in
    let value : n ≡ le_value b (reverse rest) =
      ap (of_digits b 0) same ∙ value-zeros b big_b z rest in
    let d = le_digits n c n in
    let front = reverse-IsHeadPos d (le_digits-IsCanonical c big_c n n (omega arith)) in
    let zeros : leading_zeros (recode b c ds) ≡ z = leading_zeros-zeros z (reverse d) front in
    let back : of_digits c 0 (recode b c ds) ≡ n =
      value-zeros c big_c z (reverse d)
      ∙ ap (le_value c) (reverse-reverse d)
      ∙ le_value-le_digits c big_c n n (omega arith) in
    let digits =
      All-reverse (λ d. d < b) rest
        (All-tail (λ d. d < b) (replicate z 0) rest (subst (IsDigits b) same h)) in
    let again : le_digits n b n ≡ reverse rest =
      ap (le_digits n b) value
      ∙ le_digits-le_value b big_b n (reverse rest) digits (reverse-IsCanonical rest pos)
          (omega (arith, value)) in
    rw (zeros, back, again, reverse-reverse) (sym same)
