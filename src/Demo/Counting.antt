-- ===== src/Demo/Counting.antt =====
-- What `wordcountAgent` counts.
use aire_go.Base.{
  length, All, Error, ℕ, ◌+◌, ◌≡◌, refl, sym, ap, ◌∙◌, ◌≢◌, true, false, Option, none, some, List,
  [], ◌∷◌, ◌++◌, append_assoc, append-nil, arith,
}
use aire_go.Digits.Print.{decimal}
use aire_go.Runes.{decode_runes, encode_runes}
use aire_go.Runes.RoundTrip.{IsRune, decode_runes-encode_runes}
use aire_go.Node.{Invoke}
use aire_go.Demo.{is_space, end_word, grow_word, fields_from, fields, send_reply, wordcount_agent}

abbrev pub IsGap : List ℕ → Type 0
IsGap g = All (λ c. is_space c ≡ true) g

abbrev pub IsWord : List ℕ → Type 0
IsWord w = (w ≢ []) × All (λ c. is_space c ≡ false) w

-- A word and the gap behind it.
abbrev pub IsSpaced : List ℕ × List ℕ → Type 0
IsSpaced p = IsWord p.0 × IsGap p.1 × (p.1 ≢ [])

abbrev pub laid_out : List (List ℕ × List ℕ) → List ℕ → List ℕ
laid_out [] rest = rest
laid_out ((w, g) ∷ ps) rest = w ++ (g ++ laid_out ps rest)

fields_from-space :
    (word : Option (List ℕ)) (c : ℕ) (s : List ℕ)
    → is_space c ≡ true
    → fields_from word (c ∷ s) ≡ end_word word ++ fields_from none s
unfolding fields_from
fields_from-space word c s h = rw (h, fields_from) refl

fields_from-letter :
    (word : Option (List ℕ)) (c : ℕ) (s : List ℕ)
    → is_space c ≡ false
    → fields_from word (c ∷ s) ≡ fields_from (some (grow_word word c)) s
unfolding fields_from
fields_from-letter word c s h = rw (h, fields_from) refl

fields_from-gap : (g s : List ℕ) → IsGap g → fields_from none (g ++ s) ≡ fields_from none s
fields_from-gap [] s h = refl
fields_from-gap (c ∷ g) s (h, hs) = fields_from-space none c (g ++ s) h ∙ fields_from-gap g s hs

fields_from-ends :
    (word : List ℕ) (g s : List ℕ)
    → IsGap g
    → g ≢ []
    → fields_from (some word) (g ++ s) ≡ word ∷ fields_from none s
fields_from-ends word [] s h ne = absurd (ne refl)
fields_from-ends word (c ∷ g) s (h, hs) ne =
    fields_from-space (some word) c (g ++ s) h
    ∙ ap (λ (l : List (List ℕ)). word ∷ l) (fields_from-gap g s hs)

fields_from-grow :
    (word w s : List ℕ)
    → All (λ c. is_space c ≡ false) w
    → fields_from (some word) (w ++ s) ≡ fields_from (some (word ++ w)) s
fields_from-grow word [] s h = ap (λ (l : List ℕ). fields_from (some l) s) (sym (append-nil word))
fields_from-grow word (c ∷ w) s (h, hs) =
    fields_from-letter (some word) c (w ++ s) h
    ∙ fields_from-grow (word ++ c ∷ []) w s hs
    ∙ ap (λ (l : List ℕ). fields_from (some l) s) (append_assoc word (c ∷ []) w)

fields_from-word : (w s : List ℕ) → IsWord w → fields_from none (w ++ s) ≡ fields_from (some w) s
fields_from-word [] s (ne, h) = absurd (ne refl)
fields_from-word (c ∷ w) s (ne, (h, hs)) =
    fields_from-letter none c (w ++ s) h ∙ fields_from-grow (c ∷ []) w s hs

-- The last word, with what stands behind it.
fields_from-last :
    (last tail : List ℕ) → IsWord last → IsGap tail → fields_from none (last ++ tail) ≡ last ∷ []
unfolding fields_from
fields_from-last last [] w g = fields_from-word last [] w
fields_from-last last (c ∷ tail) w g =
    fields_from-word last (c ∷ tail) w
    ∙ ap (λ (l : List ℕ). fields_from (some last) l) (sym (append-nil (c ∷ tail)))
    ∙ fields_from-ends last (c ∷ tail) [] g (λ z. cc)

module _ (last tail : List ℕ) (is_last : IsWord last) (is_tail : IsGap tail) where
  length-fields_from :
      (ps : List (List ℕ × List ℕ))
      → All IsSpaced ps
      → length (fields_from none (laid_out ps (last ++ tail))) ≡ length ps + 1
  length-fields_from [] h = ap length (fields_from-last last tail is_last is_tail)
  length-fields_from ((w, g) ∷ ps) ((is_word, is_gap, ne), hs) =
      let rest = laid_out ps (last ++ tail) in
      let found : fields_from none (w ++ (g ++ rest)) ≡ w ∷ fields_from none rest =
        fields_from-word w (g ++ rest) is_word ∙ fields_from-ends w g rest is_gap ne in
      omega (arith, ap length found, length-fields_from ps hs)

  -- `wordcountAgent` answers a text of words with the number of words in decimal, whatever white space of
  -- Unicode stands in front of the first word and behind the last, and whatever white space, at
  -- least one character, stands between two, whatever the outcome of its `Send` is, if the
  -- text is UTF-8 and has a word.
  pub wordcount_agent-laid_out :
      (write_error : Option Error) (inv : Invoke) (lead : List ℕ) (ps : List (List ℕ × List ℕ))
      → IsGap lead
      → All IsSpaced ps
      → All IsRune (lead ++ laid_out ps (last ++ tail))
      → inv.args ≡ encode_runes (lead ++ laid_out ps (last ++ tail))
      → wordcount_agent write_error inv ≡ send_reply write_error inv.op (decimal (length ps + 1))
  unfolding wordcount_agent fields
  wordcount_agent-laid_out write_error inv lead ps g h v e =
      let text = lead ++ laid_out ps (last ++ tail) in
      let decoded : decode_runes inv.args ≡ text =
        ap decode_runes e ∙ decode_runes-encode_runes text v in
      let count : length (fields_from none (decode_runes inv.args)) ≡ length ps + 1 =
        ap (λ (l : List ℕ). length (fields_from none l)) decoded
        ∙ ap length (fields_from-gap lead (laid_out ps (last ++ tail)) g)
        ∙ length-fields_from ps h in
      ap (λ (n : ℕ). send_reply write_error inv.op (decimal n)) count
