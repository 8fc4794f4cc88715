-- ===== src/Digits/Canonical.antt =====
-- The digits of a number, and the number of digits that do not begin with a zero.
use aire_go.Base.{
  ◌==◌, ne→==, ==_iff, Bool-cases, All, replicate, ℕ, zero, suc, ◌+◌, ◌*◌, ◌/◌, ◌%◌, ◌≤◌, ◌<◌, ◌≡◌,
  refl, sym, ap, ◌∙◌, inl, inr, false, List, [], ◌∷◌, ◌++◌, reverse_aux, arith,
}
use native.Mathlib.Nat.{
  div-add-mod, mod-lt, div-lt_self, add-mul-div_left, div-eq_of_lt, mod-eq_of_lt,
  add-mul-mod_self_left,
}
use aire_go.Digits.{le_digits, of_digits}

abbrev pub IsDigits : ℕ → List ℕ → Type 0
IsDigits b ds = All (λ d. d < b) ds

-- The value of digits whose least stands first.
unfoldable pub le_value : ℕ → List ℕ → ℕ
le_value b [] = 0
le_value b (d ∷ ds) = d + b * le_value b ds

-- The last digit, if any, is not 0.
abbrev pub IsCanonical : List ℕ → Type 0
IsCanonical [] = Unit
IsCanonical (d ∷ []) = 0 < d
IsCanonical (d ∷ e ∷ ds) = IsCanonical (e ∷ ds)

module _ (b : ℕ) (big : 1 < b) where
  pub le_value-le_digits : (fuel n : ℕ) → n ≤ fuel → le_value b (le_digits fuel b n) ≡ n
  unfolding le_digits le_value
  le_value-le_digits zero n h = omega arith
  le_value-le_digits (suc fuel) n h = elim (Bool-cases (n == 0)) [
    | inl e ↦ rw e (sym ((==_iff _ _).0 e))
    | inr e ↦
        let pos : 0 < n = ground (arith, e) in
        let less : n / b < n = div-lt_self pos big in
        rw (e, le_value-le_digits fuel (n / b) (omega arith)) (omega (arith, div-add-mod n b))
  ]

  pub le_digits-IsDigits : (fuel n : ℕ) → IsDigits b (le_digits fuel b n)
  unfolding le_digits
  le_digits-IsDigits zero n = tt
  le_digits-IsDigits (suc fuel) n = elim (Bool-cases (n == 0)) [
    | inl e ↦ rw e tt
    | inr e ↦ rw e (mod-lt n (omega arith), le_digits-IsDigits fuel (n / b))
  ]

  pub value-pos : (d : ℕ) (ds : List ℕ) → IsCanonical (d ∷ ds) → 0 < le_value b (d ∷ ds)
  unfolding le_value
  value-pos d [] h = omega arith
  value-pos d (e ∷ ds) h = grind (arith, value-pos e ds h)

  IsCanonical-tail : (d : ℕ) (ds : List ℕ) → IsCanonical (d ∷ ds) → IsCanonical ds
  IsCanonical-tail d [] h = tt
  IsCanonical-tail d (e ∷ ds) h = h

  le_digits-zero : (fuel : ℕ) → le_digits fuel b 0 ≡ []
  unfolding le_digits
  le_digits-zero zero = refl
  le_digits-zero (suc fuel) = refl

  -- Digits without a zero at the end are those of their value.
  pub le_digits-le_value :
      (fuel : ℕ) (ds : List ℕ)
      → IsDigits b ds
      → IsCanonical ds
      → le_value b ds ≤ fuel
      → le_digits fuel b (le_value b ds) ≡ ds
  unfolding le_digits le_value
  le_digits-le_value fuel [] h k fits = le_digits-zero fuel
  le_digits-le_value zero (d ∷ ds) h k fits = absurd (omega (arith, value-pos d ds k))
  le_digits-le_value (suc fuel) (d ∷ ds) (h, hs) k fits =
      let v = le_value b ds in
      let pos = value-pos d ds k in
      let some_digit : (d + b * v == 0) ≡ false = ne→== _ _ (λ e. omega (arith, e, pos)) in
      let last : (d + b * v) % b ≡ d = add-mul-mod_self_left d b v ∙ mod-eq_of_lt h in
      let others : (d + b * v) / b ≡ v =
        omega (arith, add-mul-div_left d v {y = b} (omega arith), div-eq_of_lt h) in
      let less : (d + b * v) / b < d + b * v = div-lt_self pos big in
      rw
        (
          some_digit,
          last,
          others,
          le_digits-le_value fuel ds hs (IsCanonical-tail d ds k) (omega (arith, less, others)),
        )
        refl

  cons-IsCanonical :
      (d : ℕ) (ds : List ℕ) → IsCanonical ds → ((ds ≡ []) → 0 < d) → IsCanonical (d ∷ ds)
  cons-IsCanonical d [] k h = h refl
  cons-IsCanonical d (e ∷ ds) k h = k

  pub le_digits-IsCanonical : (fuel n : ℕ) → n ≤ fuel → IsCanonical (le_digits fuel b n)
  unfolding le_digits le_value
  le_digits-IsCanonical zero n h = tt
  le_digits-IsCanonical (suc fuel) n h = elim (Bool-cases (n == 0)) [
    | inl e ↦ rw e tt
    | inr e ↦
        let pos : 0 < n = ground (arith, e) in
        let less : n / b < n = div-lt_self pos big in
        let rest = le_digits fuel b (n / b) in
        let keep = le_value-le_digits fuel (n / b) (omega arith) in
        rw e (
          cons-IsCanonical (n % b) rest (le_digits-IsCanonical fuel (n / b) (omega arith))
            (λ (z : rest ≡ []).
              let small : n / b ≡ 0 = sym keep ∙ ap (le_value b) z in
              omega (arith, div-add-mod n b, ap (λ (q : ℕ). b * q) small)))
  ]

  pub of_digits-le_value :
      (ds out : List ℕ) → of_digits b (le_value b out) ds ≡ le_value b (reverse_aux ds out)
  unfolding of_digits le_value
  of_digits-le_value [] out = refl
  of_digits-le_value (d ∷ ds) out =
      let e : le_value b out * b + d ≡ d + b * le_value b out = grind arith in
      rw e (of_digits-le_value ds (d ∷ out))

  pub le_value-zeros : (ds : List ℕ) (z : ℕ) → le_value b (ds ++ replicate z 0) ≡ le_value b ds
  unfolding le_value replicate
  le_value-zeros [] zero = refl
  le_value-zeros [] (suc z) = omega (arith, ap (λ (q : ℕ). b * q) (le_value-zeros [] z))
  le_value-zeros (d ∷ ds) z = ap (λ (q : ℕ). d + b * q) (le_value-zeros ds z)
