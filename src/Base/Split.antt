-- ===== src/Base/Split.antt =====
-- `strings.Split` at a byte takes a text apart where the parts were put together, and nowhere else.
use Prim.Native.Nat.{ℕ}
use mathlib.Core.Path.{◌≡◌, refl, sym, ap, ◌∙◌}
use mathlib.Core.Logic.{inl, inr}
use mathlib.Core.List.{List, [], ◌∷◌, ◌++◌}
use aire_go.Base.Tests.{◌==◌, Bool-cases, ==_iff}
use aire_go.Base.Lists.{All}
use aire_go.Base.Text.{IsFree, split}

-- Parts with `sep` between two of them.
abbrev pub join_at : ℕ → List ℕ → List (List ℕ) → List ℕ
join_at sep p [] = p
join_at sep p (q ∷ ps) = p ++ sep ∷ join_at sep q ps

split-part : (sep : ℕ) (p : List ℕ) → IsFree sep p → split sep p ≡ (p, [])
unfolding split
split-part sep [] h = refl
split-part sep (b ∷ bs) (h, hs) = rw (h, split-part sep bs hs)

split-front :
    (sep : ℕ) (p s : List ℕ)
    → IsFree sep p
    → split sep (p ++ sep ∷ s) ≡ (p, (split sep s).0 ∷ (split sep s).1)
unfolding split
split-front sep [] s h = rw ((==_iff sep sep).1 refl) refl
split-front sep (b ∷ bs) s (h, hs) = rw (h, split-front sep bs s hs)

pub split-join_at :
    (sep : ℕ) (p : List ℕ) (ps : List (List ℕ))
    → All (IsFree sep) (p ∷ ps)
    → split sep (join_at sep p ps) ≡ (p, ps)
split-join_at sep p [] (h, _) = split-part sep p h
split-join_at sep p (q ∷ ps) (h, hs) =
    split-front sep p (join_at sep q ps) h ∙ rw (split-join_at sep q ps hs) refl

cons_first-join_at :
    (sep b : ℕ) (p : List ℕ) (ps : List (List ℕ)) → join_at sep (b ∷ p) ps ≡ b ∷ join_at sep p ps
cons_first-join_at sep b p [] = refl
cons_first-join_at sep b p (q ∷ ps) = refl

pub join_at-split : (sep : ℕ) (s : List ℕ) → join_at sep (split sep s).0 (split sep s).1 ≡ s
unfolding split
join_at-split sep [] = refl
join_at-split sep (b ∷ bs) = elim (Bool-cases (b == sep)) [
  | inl t ↦
      let same : b ≡ sep = (==_iff _ _).0 t in
      rw (t, join_at-split sep bs) (ap (λ (c : ℕ). c ∷ bs) (sym same))
  | inr f ↦ rw f (
      cons_first-join_at sep b (split sep bs).0 (split sep bs).1
      ∙ ap (λ (s : List ℕ). b ∷ s) (join_at-split sep bs))
]

pub split-IsFree : (sep : ℕ) (s : List ℕ) → All (IsFree sep) ((split sep s).0 ∷ (split sep s).1)
unfolding split
split-IsFree sep [] = (tt, tt)
split-IsFree sep (b ∷ bs) = elim (Bool-cases (b == sep)) [
  | inl t ↦ rw t (tt, split-IsFree sep bs)
  | inr f ↦ let (h, hs) = split-IsFree sep bs in rw f ((f, h), hs)
]
