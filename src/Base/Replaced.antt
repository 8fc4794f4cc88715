-- ===== src/Base/Replaced.antt =====
-- One element of a list in place of another, and the sum of a weight over a list.
use Prim.Native.Nat.{ℕ, suc, ◌+◌}
use mathlib.Core.Path.{◌≡◌, refl, ap}
use mathlib.Core.List.{List, [], ◌∷◌}
use native.Mathlib.Omega.{arith}
use aire_go.Base.Lists.{All, length}

module _ {ℓ} {A : Type ℓ} where
  -- `Replaced xs x y ys`: `ys` is `xs` with `y` at one place where `x` was.
  pub data Replaced : List A → A → A → List A → Type ℓ where
    first : {x y : A} {xs : List A} → Replaced (x ∷ xs) x y (y ∷ xs)
    later : {x y z : A} {xs ys : List A} → Replaced xs x y ys → Replaced (z ∷ xs) x y (z ∷ ys)

  -- `Removed xs x ys`: `ys` is `xs` without one `x`.
  pub data Removed : List A → A → List A → Type ℓ where
    front : {x : A} {xs : List A} → Removed (x ∷ xs) x xs
    behind : {x z : A} {xs ys : List A} → Removed xs x ys → Removed (z ∷ xs) x (z ∷ ys)

  pub All-Replaced {κ} :
      (P : A → Type κ) {x y : A} {xs ys : List A} → Replaced xs x y ys → All P xs → P y → All P ys
  All-Replaced P first (p, ps) q = (q, ps)
  All-Replaced P (later r) (p, ps) q = (p, All-Replaced P r ps q)

  pub All-at {κ} : (P : A → Type κ) {x y : A} {xs ys : List A} → Replaced xs x y ys → All P xs → P x
  All-at P first (p, ps) = p
  All-at P (later r) (p, ps) = All-at P r ps

  pub All-Removed {κ} :
      (P : A → Type κ) {x : A} {xs ys : List A} → Removed xs x ys → All P xs → P x × All P ys
  All-Removed P front (p, ps) = (p, ps)
  All-Removed P (behind r) (p, ps) = let (q, qs) = All-Removed P r ps in (q, (p, qs))

  abbrev pub total : (A → ℕ) → List A → ℕ
  total w [] = 0
  total w (x ∷ xs) = w x + total w xs

  pub total-Replaced :
      (w : A → ℕ) {x y : A} {xs ys : List A}
      → Replaced xs x y ys
      → total w ys + w x ≡ total w xs + w y
  total-Replaced w first = omega arith
  total-Replaced w (later r) = omega (arith, total-Replaced w r)

  pub length-Removed : {x : A} {xs ys : List A} → Removed xs x ys → length xs ≡ suc (length ys)
  length-Removed front = refl
  length-Removed (behind r) = ap suc (length-Removed r)
