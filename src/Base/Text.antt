-- ===== src/Base/Text.antt =====
-- Go strings as the lists of their bytes: equality, and the literals of the source.
use Prim.Native.Nat.{ℕ, suc, ◌<◌}
use Prim.Native.Char.{code}
use Prim.Native.String.{String}
use mathlib.Core.Path.{◌≡◌, refl}
use mathlib.Core.Logic.{inl, inr}
use mathlib.Core.Option.{Option, none, some}
use mathlib.Core.Bool.{Bool, true, false, ◌&&◌}
use mathlib.Core.List.{List, [], ◌∷◌, ◌++◌}
use native.Mathlib.Omega.{arith}
use aire_go.Base.Tests.{◌==◌, if◌then◌else◌, Bool-cases, Option-cases, eq→==}
use aire_go.Base.Lists.{length, get_or, All}

-- A literal's bytes; the literals of the source are ASCII.
abbrev pub codes : String → List ℕ
codes String.[] = []
codes (String.◌∷◌ c s) = code c ∷ codes s

unfoldable pub bytes_eq : List ℕ → List ℕ → Bool
bytes_eq [] [] = true
bytes_eq [] (y ∷ ys) = false
bytes_eq (x ∷ xs) [] = false
bytes_eq (x ∷ xs) (y ∷ ys) = (x == y) && bytes_eq xs ys

pub bytes_eq_sound : (xs ys : List ℕ) → bytes_eq xs ys ≡ true → xs ≡ ys
unfolding bytes_eq
bytes_eq_sound [] [] h = refl
bytes_eq_sound [] (y ∷ ys) h = cc
bytes_eq_sound (x ∷ xs) [] h = cc
bytes_eq_sound (x ∷ xs) (y ∷ ys) h = ground (arith, bytes_eq_sound xs ys)

pub bytes_eq_self : (xs : List ℕ) → bytes_eq xs xs ≡ true
unfolding bytes_eq
bytes_eq_self [] = refl
bytes_eq_self (x ∷ xs) = ground (arith, bytes_eq_self xs)

pub bytes_eq_comm : (xs ys : List ℕ) → bytes_eq xs ys ≡ bytes_eq ys xs
unfolding bytes_eq
bytes_eq_comm [] [] = refl
bytes_eq_comm [] (y ∷ ys) = refl
bytes_eq_comm (x ∷ xs) [] = refl
bytes_eq_comm (x ∷ xs) (y ∷ ys) = ground (arith, bytes_eq_comm xs ys)

-- `strings.HasPrefix`, with the prefix first.
unfoldable pub has_prefix : List ℕ → List ℕ → Bool
has_prefix [] s = true
has_prefix (x ∷ xs) [] = false
has_prefix (x ∷ xs) (y ∷ ys) = (x == y) && has_prefix xs ys

-- What follows a prefix that is there.
pub has_prefix-append : (xs ys : List ℕ) → has_prefix xs (xs ++ ys) ≡ true
unfolding has_prefix
has_prefix-append [] ys = refl
has_prefix-append (x ∷ xs) ys = ground (arith, has_prefix-append xs ys)

pub has_prefix_sound : (xs s : List ℕ) → has_prefix xs s ≡ true → (ys : List ℕ) × (s ≡ xs ++ ys)
unfolding has_prefix
has_prefix_sound [] s h = (s, refl)
has_prefix_sound (x ∷ xs) [] h = cc
has_prefix_sound (x ∷ xs) (y ∷ ys) h =
    let (rest, same) = has_prefix_sound xs ys (ground arith) in (rest, ground (arith, same))

-- `strings.IndexByte`, with the byte first.
unfoldable pub index_byte : ℕ → List ℕ → Option ℕ
index_byte c [] = none
index_byte c (x ∷ xs) =
    let rest = index_byte c xs in
    if x == c then some 0 else elim rest [ none ↦ none | some i ↦ some (suc i) ]

pub get_or-index_byte :
    (c : ℕ) (xs : List ℕ) (i : ℕ) → index_byte c xs ≡ some i → (get_or xs i 0 ≡ c) × (i < length xs)
unfolding index_byte
get_or-index_byte c [] i e = cc
get_or-index_byte c (x ∷ xs) i e = elim (Bool-cases (x == c)) [
  | inl t ↦ ground (arith, t)
  | inr f ↦ elim (Option-cases (index_byte c xs)) [
    | inl n ↦ ground (arith, f, n)
    | inr (j, s) ↦
        let (same, lt) = get_or-index_byte c xs j s in
        let next : i ≡ suc j = ground (arith, f, s) in rw next (same, omega arith)
  ]
]

-- `s[:i]` and `s[i+1:]` for the first place `i` of `sep`: `strings.IndexByte` and the two slices.
unfoldable pub cut_at : ℕ → List ℕ → Option (List ℕ × List ℕ)
cut_at sep [] = none
cut_at sep (b ∷ bs) =
    let rest = cut_at sep bs in
    if b == sep
    then some ([], bs)
    else elim rest [ none ↦ none | some (front, back) ↦ some (b ∷ front, back) ]

-- `strings.Split` at a byte: the part up to the first `sep`, and the others.
unfoldable pub split : ℕ → List ℕ → List ℕ × List (List ℕ)
split sep [] = ([], [])
split sep (b ∷ bs) =
    let rest = split sep bs in if b == sep then ([], rest.0 ∷ rest.1) else (b ∷ rest.0, rest.1)

pub cut_at-some :
    (sep : ℕ) (s front back : List ℕ) → cut_at sep s ≡ some (front, back) → s ≡ front ++ sep ∷ back
unfolding cut_at
cut_at-some sep [] front back e = cc
cut_at-some sep (b ∷ bs) front back e = elim (Bool-cases (b == sep)) [
  | inl t ↦ ground (arith, t)
  | inr f ↦ elim (Option-cases (cut_at sep bs)) [
    | inl n ↦ ground (arith, f, n)
    | inr ((front', back'), c) ↦ ground (arith, f, c, cut_at-some sep bs front' back' c)
  ]
]

abbrev pub IsFree : ℕ → List ℕ → Type 0
IsFree sep bs = All (λ b. (b == sep) ≡ false) bs

pub cut_at-front :
    (sep : ℕ) (front back : List ℕ)
    → IsFree sep front
    → cut_at sep (front ++ sep ∷ back) ≡ some (front, back)
unfolding cut_at
cut_at-front sep [] back h = rw (eq→== sep sep refl)
cut_at-front sep (b ∷ bs) back (h, hs) = rw (h, cut_at-front sep bs back hs)

pub cut_at-none : (sep : ℕ) (s : List ℕ) → IsFree sep s → cut_at sep s ≡ none
unfolding cut_at
cut_at-none sep [] h = refl
cut_at-none sep (b ∷ bs) (h, hs) = rw (h, cut_at-none sep bs hs)
