-- ===== src/Budget/Meaning.antt =====
-- What a list of BUDGET entries means.
use aire_go.Base.{
  ◌==◌, ==_iff, eq→==, ne→==, Bool-cases, length, All, Result-cases, ok, ℕ, ◌≤◌, ◌≡◌, ◌≢◌, ◌↔◌, sym,
  subst, refl, ◌∙◌, inl, inr, false, some, List, [], ◌∷◌, arith,
}
use aire_go.Base.Int.{of_u64}
use aire_go.Varint.{Bytes, max_varint, read_varint, be_uint64}
use aire_go.Budget.{Entry, Budget, set_field, seen_before, empty_budget, decode_budget}
use aire_go.Budget.Decode.{payload_bytes, IsEntry, apply_entries, decode_budget-payload_bytes}

-- What one entry makes of the budget. A number may have bytes behind its varint.
pub data Sets (fid : ℕ) (value : Bytes) (b : Budget) : Budget → Type 0 where
  tokens_is :
      (v n : ℕ)
      → fid ≡ 1
      → read_varint value ≡ ok (v, n)
      → Sets fid value b (record b { tokens = some v })
  cost_is :
      (v n : ℕ)
      → fid ≡ 2
      → read_varint value ≡ ok (v, n)
      → Sets fid value b (record b { cost_microunits = some v })
  currency_is : fid ≡ 3 → length value ≡ 3 → Sets fid value b (record b { currency = value })
  deadline_is :
      fid ≡ 4
      → length value ≡ 8
      → Sets fid value b (record b { deadline_ms = some (of_u64 (be_uint64 value)) })
  unknown : fid ≢ 1 → fid ≢ 2 → fid ≢ 3 → fid ≢ 4 → Sets fid value b b

-- One entry after the other.
pub data SetsAll : Budget → List Entry → Budget → Type 0 where
  no_more : {b : Budget} → SetsAll b [] b
  first_sets :
      {fid : ℕ} {value : Bytes} {es : List Entry} {b b1 b2 : Budget}
      → Sets fid value b b1
      → SetsAll b1 es b2
      → SetsAll b ((fid, value) ∷ es) b2

-- No identifier is among those before it.
abbrev pub IsNew : List ℕ → List Entry → Type 0
IsNew seen [] = Unit {0}
IsNew seen ((fid, value) ∷ es) = All (λ x. fid ≢ x) seen × IsNew (fid ∷ seen) es

differ : (x y : ℕ) → (x == y) ≡ false → x ≢ y
differ x y f e = cc (eq→== x y e, f)

seen_before-All : (fid : ℕ) (seen : List ℕ) → seen_before fid seen ≡ false → All (λ x. fid ≢ x) seen
unfolding seen_before
seen_before-All fid [] h = tt
seen_before-All fid (x ∷ xs) h = elim (Bool-cases (fid == x)) [
  | inl t ↦ ground (arith, t)
  | inr f ↦ (differ fid x f, seen_before-All fid xs (ground (arith, f)))
]

All-seen_before : (fid : ℕ) (seen : List ℕ) → All (λ x. fid ≢ x) seen → seen_before fid seen ≡ false
unfolding seen_before
All-seen_before fid [] h = refl
All-seen_before fid (x ∷ xs) (h, hs) = rw (ne→== fid x h, All-seen_before fid xs hs) refl

set_field-Sets :
    (fid : ℕ) (value : Bytes) (b b' : Budget) → set_field fid value b ≡ ok b' → Sets fid value b b'
unfolding set_field
set_field-Sets fid value b b' e = elim (Bool-cases (fid == 1)) [
  | inl t ↦ elim (Result-cases (read_varint value)) [
    | inr (inl (x, r)) ↦ ground (arith, t, r)
    | inr (inr r) ↦ ground (arith, t, r)
    | inl ((v, n), r) ↦
        let same : record b { tokens = some v } ≡ b' = ground (arith, t, r) in
        subst (Sets fid value b) same (tokens_is v n ((==_iff _ _).0 t) r)
  ]
  | inr f1 ↦ elim (Bool-cases (fid == 2)) [
    | inl t ↦ elim (Result-cases (read_varint value)) [
      | inr (inl (x, r)) ↦ ground (arith, f1, t, r)
      | inr (inr r) ↦ ground (arith, f1, t, r)
      | inl ((v, n), r) ↦
          let same : record b { cost_microunits = some v } ≡ b' = ground (arith, f1, t, r) in
          subst (Sets fid value b) same (cost_is v n ((==_iff _ _).0 t) r)
    ]
    | inr f2 ↦ elim (Bool-cases (fid == 3)) [
      | inl t ↦ elim (Bool-cases (length value == 3)) [
        | inr l ↦ ground (arith, f1, f2, t, l)
        | inl l ↦
            let same : record b { currency = value } ≡ b' = ground (arith, f1, f2, t, l) in
            subst (Sets fid value b) same (currency_is ((==_iff _ _).0 t) ((==_iff _ _).0 l))
      ]
      | inr f3 ↦ elim (Bool-cases (fid == 4)) [
        | inl t ↦ elim (Bool-cases (length value == 8)) [
          | inr l ↦ ground (arith, f1, f2, f3, t, l)
          | inl l ↦
              let same : record b { deadline_ms = some (of_u64 (be_uint64 value)) } ≡ b' =
                ground (arith, f1, f2, f3, t, l) in
              subst (Sets fid value b) same (deadline_is ((==_iff _ _).0 t) ((==_iff _ _).0 l))
        ]
        | inr f4 ↦
            let same : b ≡ b' = ground (arith, f1, f2, f3, f4) in
            subst (Sets fid value b) same
              (unknown (differ fid 1 f1) (differ fid 2 f2) (differ fid 3 f3) (differ fid 4 f4))
      ]
    ]
  ]
]

Sets-set_field :
    (fid : ℕ) (value : Bytes) (b b' : Budget) → Sets fid value b b' → set_field fid value b ≡ ok b'
unfolding set_field
Sets-set_field fid value b b' (tokens_is v n f r) = rw (f, r) refl
Sets-set_field fid value b b' (cost_is v n f r) = rw (f, r) refl
Sets-set_field fid value b b' (currency_is f l) = rw (f, l) refl
Sets-set_field fid value b b' (deadline_is f l) = rw (f, l) refl
Sets-set_field fid value b b' (unknown n1 n2 n3 n4) =
    rw (ne→== fid 1 n1, ne→== fid 2 n2, ne→== fid 3 n3, ne→== fid 4 n4) refl

apply_entries_sound :
    (es : List Entry) (seen : List ℕ) (b b' : Budget)
    → apply_entries es seen b ≡ ok b'
    → IsNew seen es × SetsAll b es b'
unfolding apply_entries
apply_entries_sound [] seen b b' e =
    let same : b ≡ b' = ground (arith, e) in (tt, subst (SetsAll b []) same no_more)
apply_entries_sound ((fid, value) ∷ es) seen b b' e = elim (Bool-cases (seen_before fid seen)) [
  | inl dup ↦ ground (arith, dup)
  | inr new ↦ elim (Result-cases (set_field fid value b)) [
    | inr (inl (x, r)) ↦ ground (arith, new, r)
    | inr (inr r) ↦ ground (arith, new, r)
    | inl (b1, r) ↦
        let (others, sets) =
          apply_entries_sound es (fid ∷ seen) b1 b' (rw (new, r, apply_entries) at e) in
        ((seen_before-All fid seen new, others), first_sets (set_field-Sets fid value b b1 r) sets)
  ]
]

apply_entries_complete :
    {b b' : Budget} {es : List Entry} (seen : List ℕ)
    → SetsAll b es b'
    → IsNew seen es
    → apply_entries es seen b ≡ ok b'
unfolding apply_entries
apply_entries_complete seen no_more n = refl
apply_entries_complete seen (first_sets {fid} {value} {es} {b} {b1} {b2} s ss) (h, hs) =
    rw (All-seen_before fid seen h, Sets-set_field fid value b b1 s, apply_entries)
      (apply_entries_complete (fid ∷ seen) ss hs)

-- `DecodeBudget` on the wire form of a list of entries, in any order and with any identifiers, where a varint
-- holds the number of the entries and the length of each value, returns a budget exactly if there is
-- an entry, no identifier comes twice, every entry that is known has a value of its form, and the budget
-- is what they make, one after the other, of the empty one: identifiers 1 and 2 set the tokens and the
-- cost to the varint at the front of the value, 3 the currency to a value of three bytes, 4 the
-- deadline to the int64 in a value of eight bytes, and any other sets nothing.
pub decode_budget-SetsAll :
    (es : List Entry) (b : Budget)
    → length es ≤ max_varint
    → All IsEntry es
    → (decode_budget (payload_bytes es) ≡ ok b)
      ↔ ((es ≢ []) × IsNew [] es × SetsAll empty_budget es b)
decode_budget-SetsAll [] b hn h = (
  λ e. cc (decode_budget-payload_bytes [] hn h, e),
  λ (some_entry, _, _). absurd (some_entry refl),
)
decode_budget-SetsAll (x ∷ es) b hn h =
    let decoded = decode_budget-payload_bytes (x ∷ es) hn h in
    let counted : (length (x ∷ es) == 0) ≡ false = ground arith in
    let applied : decode_budget (payload_bytes (x ∷ es)) ≡ apply_entries (x ∷ es) [] empty_budget =
      rw counted at decoded in
    (
      λ e.
          let (new, sets) = apply_entries_sound (x ∷ es) [] empty_budget b (sym applied ∙ e) in
          (λ z. cc, new, sets),
      λ (_, new, sets). applied ∙ apply_entries_complete [] sets new,
    )
