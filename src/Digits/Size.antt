-- ===== src/Digits/Size.antt =====
-- How long the digits of a number are.
use aire_go.Base.{
  ◌==◌, Bool-cases, length, ℕ, zero, suc, ◌+◌, ◌*◌, ◌/◌, ◌^◌, ◌≤◌, ◌<◌, ◌≡◌, sym, ap, ◌∙◌, subst,
  inl, inr, List, [], ◌∷◌, arith,
}
use native.Mathlib.Nat.{div-lt_iff_lt-mul, pow-succ', pow-zero, mul_assoc}
use aire_go.Digits.{le_digits, of_digits, to_digits}
use aire_go.Digits.Canonical.{IsDigits}

pub length-le_digits :
    (b : ℕ) → 0 < b → (k fuel n : ℕ) → n < b ^ k → length (le_digits fuel b n) ≤ k
unfolding le_digits
length-le_digits b pos k zero n h = omega arith
length-le_digits b pos zero (suc fuel) n h =
    let z : n ≡ 0 = omega (arith, pow-zero b) in rw z (omega arith)
length-le_digits b pos (suc k) (suc fuel) n h = elim (Bool-cases (n == 0)) [
  | inl e ↦ rw e (omega arith)
  | inr e ↦
      let less : n / b < b ^ k = (div-lt_iff_lt-mul pos).1 (omega (arith, pow-succ' b k)) in
      rw e (omega (arith, length-le_digits b pos k fuel (n / b) less))
]

of_digits_bound :
    (b : ℕ) (ds : List ℕ) (acc c : ℕ)
    → IsDigits b ds
    → acc < c
    → of_digits b acc ds < c * b ^ length ds
unfolding of_digits
of_digits_bound b [] acc c h lt = rw (pow-zero b) (omega arith)
of_digits_bound b (d ∷ ds) acc c (h, hs) lt =
    let next : acc * b + d < c * b = grind arith in
    let same : c * b * b ^ length ds ≡ c * b ^ suc (length ds) =
      mul_assoc c b (b ^ length ds) ∙ ap (λ (q : ℕ). c * q) (sym (pow-succ' b (length ds))) in
    subst (λ q. of_digits b (acc * b + d) ds < q) same
      (of_digits_bound b ds (acc * b + d) (c * b) hs next)

-- Recoding `m` digits takes at most `k`, where `c ^ k` is `b ^ m` or more.
pub length-to_digits :
    (b c : ℕ) (ds : List ℕ) (k : ℕ)
    → 0 < c
    → IsDigits b ds
    → b ^ length ds ≤ c ^ k
    → length (to_digits c (of_digits b 0 ds)) ≤ k
unfolding to_digits
length-to_digits b c ds k pos h fits =
    let n = of_digits b 0 ds in
    length-le_digits c pos k n n (omega (arith, of_digits_bound b ds 0 1 h (omega arith)))
