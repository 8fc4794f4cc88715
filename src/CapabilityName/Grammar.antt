-- ===== src/CapabilityName/Grammar.antt =====
-- The grammar of names, and what the checks of `ValidateCapabilityName` imply.
use aire_go.Base.{
  ◌==◌, length, All, Result-cases, ok, ℕ, ◌≤◌, ◌≡◌, refl, inl, inr, true, ◌||◌, List, [], ◌∷◌, ◌++◌,
  arith,
}
use aire_go.Base.Split.{join_at}
use aire_go.Varint.{Bytes}
use aire_go.CapabilityName.{
  is_alpha, is_digit, validate_label_rest, validate_label, validate_labels, validate_digits,
  validate_major,
}

-- ALPHA *( ALPHA / DIGIT / "-" )
abbrev pub IsLabelByte : ℕ → Type 0
IsLabelByte b = (is_alpha b || (is_digit b || b == b'-')) ≡ true

abbrev pub IsLabel : Bytes → Type 0
IsLabel [] = ⊥
IsLabel (b ∷ bs) = (is_alpha b ≡ true) × All IsLabelByte bs

-- Digits, the first of which is `0` only where it is the only one.
abbrev pub IsMajor : Bytes → Type 0
IsMajor [] = ⊥
IsMajor (b ∷ bs) = (is_digit b ≡ true) × All (λ c. is_digit c ≡ true) bs × ((b ≡ b'0') → (bs ≡ []))

-- Labels with a dot between two of them, a slash and the major version.
pub record IsCapabilityName (name : Bytes) : Type 0 where
  pub first : Bytes
  pub others : List Bytes
  pub major : Bytes
  pub spelled : name ≡ join_at b'.' first others ++ b'/' ∷ major
  pub short : length name ≤ 255
  pub labels : All IsLabel (first ∷ others)
  pub number : IsMajor major

validate_label_rest-All : (bs : Bytes) → validate_label_rest bs ≡ ok tt → All IsLabelByte bs
unfolding validate_label_rest
validate_label_rest-All [] e = tt
validate_label_rest-All (b ∷ bs) e = ground (arith, validate_label_rest-All bs)

validate_label-IsLabel : (l : Bytes) → validate_label l ≡ ok tt → IsLabel l
unfolding validate_label
validate_label-IsLabel [] e = ground arith
validate_label-IsLabel (b ∷ bs) e = ground (arith, validate_label_rest-All bs)

pub validate_labels-IsLabel : (ls : List Bytes) → validate_labels ls ≡ ok tt → All IsLabel ls
unfolding validate_labels
validate_labels-IsLabel [] e = tt
validate_labels-IsLabel (l ∷ ls) e = elim (Result-cases (validate_label l)) [
  | inl (_, a) ↦ (validate_label-IsLabel l a, validate_labels-IsLabel ls (rw a at e))
  | inr (inl (x, a)) ↦ ground (arith, a)
  | inr (inr a) ↦ ground (arith, a)
]

validate_digits-All : (bs : Bytes) → validate_digits bs ≡ ok tt → All (λ c. is_digit c ≡ true) bs
unfolding validate_digits
validate_digits-All [] e = tt
validate_digits-All (b ∷ bs) e = ground (arith, validate_digits-All bs)

no_more : (bs : Bytes) → length bs ≡ 0 → bs ≡ []
no_more [] e = refl
no_more (b ∷ bs) e = absurd (omega arith)

pub validate_major-IsMajor : (s : Bytes) → validate_major s ≡ ok tt → IsMajor s
unfolding validate_major
validate_major-IsMajor [] e = ground arith
validate_major-IsMajor (b ∷ bs) e =
    let d : validate_digits (b ∷ bs) ≡ ok tt = ground arith in
    let (h, hs) = validate_digits-All (b ∷ bs) d in (h, hs, λ z. no_more bs (ground (arith, z)))
