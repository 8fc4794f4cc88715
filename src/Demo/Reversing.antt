-- ===== src/Demo/Reversing.antt =====
-- What the loop of `reverseAgent` does, and what the agent answers.
use aire_go.Base.{
  ltb, ge→ltb, lt→ltb, length, length-append, get_or, set, All, Error, ℕ, zero, suc, ◌+◌, ◌-◌, ◌≤◌,
  ◌≡◌, refl, sym, ap, ◌∙◌, ◌⊎◌, inl, inr, false, Option, List, [], ◌∷◌, ◌++◌, append_assoc,
  append-nil, subst, ◌<◌, reverse, reverse-append, arith,
}
use aire_go.Runes.{decode_runes, encode_runes}
use aire_go.Runes.RoundTrip.{IsRune, decode_runes-encode_runes}
use aire_go.Node.{Invoke}
use aire_go.Demo.{send_reply, swap, swap_ends, reverse_runes, reverse_agent}

get_or-append : (xs : List ℕ) (y : ℕ) (ys : List ℕ) → get_or (xs ++ y ∷ ys) (length xs) 0 ≡ y
get_or-append [] y ys = refl
get_or-append (x ∷ xs) y ys = get_or-append xs y ys

set-append : (xs : List ℕ) (y v : ℕ) (ys : List ℕ) → set (xs ++ y ∷ ys) (length xs) v ≡ xs ++ v ∷ ys
unfolding set
set-append [] y v ys = refl
set-append (x ∷ xs) y v ys = ap (λ (l : List ℕ). x ∷ l) (set-append xs y v ys)

last_of : (x : ℕ) (l : List ℕ) → (m : List ℕ) × (y : ℕ) × (x ∷ l ≡ m ++ y ∷ [])
last_of x [] = ([], x, refl)
last_of x (z ∷ l) = let (m, y, e) = last_of z l in (x ∷ m, y, ap (λ (t : List ℕ). x ∷ t) e)

-- The two ends of a list.
ends_of :
    (l : List ℕ) → (length l ≤ 1) ⊎ ((x : ℕ) × (m : List ℕ) × (y : ℕ) × (l ≡ x ∷ (m ++ y ∷ [])))
ends_of [] = inl (omega arith)
ends_of (x ∷ []) = inl (omega arith)
ends_of (x ∷ z ∷ l) = let (m, y, e) = last_of z l in inr (x, m, y, ap (λ (t : List ℕ). x ∷ t) e)

reverse_short : (l : List ℕ) → length l ≤ 1 → reverse l ≡ l
reverse_short [] h = refl
reverse_short (x ∷ []) h = refl
reverse_short (x ∷ y ∷ l) h = absurd (omega arith)

swap-ends :
    (pre m post : List ℕ) (x y : ℕ)
    → swap (length pre) (length pre + suc (length m)) (pre ++ x ∷ (m ++ y ∷ post))
      ≡ pre ++ y ∷ (m ++ x ∷ post)
unfolding swap
swap-ends pre m post x y =
    let first = pre ++ x ∷ m in
    let whole : pre ++ x ∷ (m ++ y ∷ post) ≡ first ++ y ∷ post =
      sym (append_assoc pre (x ∷ m) (y ∷ post)) in
    let size : length pre + suc (length m) ≡ length first = sym (length-append pre (x ∷ m)) in
    let far : get_or (pre ++ x ∷ (m ++ y ∷ post)) (length pre + suc (length m)) 0 ≡ y =
      rw (whole, size) (get_or-append first y post) in
    let near = get_or-append pre x (m ++ y ∷ post) in
    rw (far, near, set-append pre x y (m ++ y ∷ post))
      (let second = pre ++ y ∷ m in
        let again : pre ++ y ∷ (m ++ y ∷ post) ≡ second ++ y ∷ post =
          sym (append_assoc pre (y ∷ m) (y ∷ post)) in
        let size' : length pre + suc (length m) ≡ length second = sym (length-append pre (y ∷ m)) in
        rw (again, size', set-append second y x post) (append_assoc pre (y ∷ m) (x ∷ post)))

reverse_ends : (x y : ℕ) (m : List ℕ) → reverse (x ∷ (m ++ y ∷ [])) ≡ y ∷ (reverse m ++ x ∷ [])
reverse_ends x y m =
    reverse-append (x ∷ []) (m ++ y ∷ [])
    ∙ ap (λ (l : List ℕ). l ++ x ∷ []) (reverse-append m (y ∷ []))

swap_round :
    (fuel i j : ℕ) (r r' : List ℕ)
    → i < j
    → swap i j r ≡ r'
    → swap_ends (suc fuel) i j r ≡ swap_ends fuel (i + 1) (j - 1) r'
unfolding swap_ends
swap_round fuel i j r r' h e = rw (lt→ltb i j h, e) refl

swap_ends-same :
    (fuel i i' j j' : ℕ) (r r' : List ℕ)
    → i ≡ i'
    → j ≡ j'
    → r ≡ r'
    → swap_ends fuel i j r ≡ swap_ends fuel i' j' r'
swap_ends-same fuel i i' j j' r r' a b c = cc

module _ (pre post : List ℕ) where
  -- Between what stands at both sides, the loop reverses what is left.
  abbrev Reverses : ℕ → List ℕ → Type 0
  Reverses fuel mid =
      swap_ends fuel (length pre) (length pre + length mid - 1) (pre ++ (mid ++ post))
      ≡ pre ++ (reverse mid ++ post)

  short-Reverses : (fuel : ℕ) (mid : List ℕ) → length mid ≤ 1 → Reverses fuel mid
  unfolding swap_ends
  short-Reverses zero mid h = ap (λ (l : List ℕ). pre ++ (l ++ post)) (sym (reverse_short mid h))
  short-Reverses (suc fuel) mid h =
      let stop : ltb (length pre) (length pre + length mid - 1) ≡ false =
        ge→ltb _ _ (omega arith) in
      rw (stop, reverse_short mid h) refl

  outer-Reverses :
      (fuel x y : ℕ) (m : List ℕ)
      → swap_ends fuel
          (length (pre ++ y ∷ []))
          (length (pre ++ y ∷ []) + length m - 1)
          ((pre ++ y ∷ []) ++ (m ++ x ∷ post))
        ≡ (pre ++ y ∷ []) ++ (reverse m ++ x ∷ post)
      → Reverses (suc fuel) (x ∷ (m ++ y ∷ []))
  outer-Reverses fuel x y m inner =
      let behind = length-append pre (y ∷ []) in
      let size = length-append m (y ∷ []) in
      let last = length pre + length (x ∷ (m ++ y ∷ [])) - 1 in
      let at_last : last ≡ length pre + suc (length m) = omega (arith, size) in
      let spread : pre ++ (x ∷ (m ++ y ∷ []) ++ post) ≡ pre ++ x ∷ (m ++ y ∷ post) =
        ap (λ (l : List ℕ). pre ++ x ∷ l) (append_assoc m (y ∷ []) post) in
      let swapped : swap (length pre) last (pre ++ (x ∷ (m ++ y ∷ []) ++ post))
          ≡ pre ++ y ∷ (m ++ x ∷ post) =
        rw (at_last, spread) (swap-ends pre m post x y) in
      let closing : (pre ++ y ∷ []) ++ (reverse m ++ x ∷ post)
          ≡ pre ++ (reverse (x ∷ (m ++ y ∷ [])) ++ post) =
        append_assoc pre (y ∷ []) (reverse m ++ x ∷ post)
        ∙ ap (λ (l : List ℕ). pre ++ y ∷ l) (sym (append_assoc (reverse m) (x ∷ []) post))
        ∙ ap (λ (l : List ℕ). pre ++ (l ++ post)) (sym (reverse_ends x y m)) in
      swap_round fuel (length pre) last _ _ (omega (arith, at_last)) swapped
      ∙ swap_ends-same fuel _ _ _ _ _ _ (omega (arith, behind)) (omega (arith, behind, at_last))
          (sym (append_assoc pre (y ∷ []) (m ++ x ∷ post)))
      ∙ inner
      ∙ closing

swap_ends-Reverses :
    (fuel : ℕ) (pre mid post : List ℕ) → length mid ≤ fuel → Reverses pre post fuel mid
swap_ends-Reverses zero pre mid post h = short-Reverses pre post zero mid (omega arith)
swap_ends-Reverses (suc fuel) pre mid post h = elim (ends_of mid) [
  | inl short ↦ short-Reverses pre post (suc fuel) mid short
  | inr (x, m, y, e) ↦
      let size = ap length e ∙ ap suc (length-append m (y ∷ [])) in
      let inner = swap_ends-Reverses fuel (pre ++ y ∷ []) m (x ∷ post) (omega (arith, size)) in
      subst (Reverses pre post (suc fuel)) (sym e) (outer-Reverses pre post fuel x y m inner)
]

-- The loop of `reverseAgent` reverses the code points.
reverse_runes-eq : (r : List ℕ) → reverse_runes r ≡ reverse r
unfolding reverse_runes
reverse_runes-eq r =
    swap_ends-same (length r) 0 0 _ _ _ _ refl (omega arith) (sym (append-nil r))
    ∙ swap_ends-Reverses (length r) [] r [] (omega arith)
    ∙ append-nil (reverse r)

-- `reverseAgent` answers a text with the text of the same code points in the opposite order, whatever
-- the outcome of its `Send` is, if the text is UTF-8: made of code points that have a form.
pub reverse_agent-encode_runes :
    (write_error : Option Error) (inv : Invoke) (rs : List ℕ)
    → All IsRune rs
    → inv.args ≡ encode_runes rs
    → reverse_agent write_error inv ≡ send_reply write_error inv.op (encode_runes (reverse rs))
unfolding reverse_agent
reverse_agent-encode_runes write_error inv rs h e =
    let decoded : decode_runes inv.args ≡ rs = ap decode_runes e ∙ decode_runes-encode_runes rs h in
    ap (λ (l : List ℕ). send_reply write_error inv.op (encode_runes l))
      (ap reverse_runes decoded ∙ reverse_runes-eq rs)
