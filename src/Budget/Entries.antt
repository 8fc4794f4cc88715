-- ===== src/Budget/Entries.antt =====
-- The entries that `Encode` writes for a budget, and what `DecodeBudget` makes of each.
use aire_go.Base.{
  ◌==◌, if◌then◌else◌, length, length-append, All, All-append, message, ok, err, ℕ, ◌≤◌, ◌≡◌, refl,
  sym, ap, ◌∙◌, Option, none, some, List, [], ◌∷◌, ◌++◌, append_assoc, append-nil, arith,
}
use aire_go.Base.Int.{ℤ, to_u64}
use aire_go.Varint.{Bytes, max_varint, put_uint64}
use aire_go.Budget.{
  Entry, Budget, add_number, add_currency, add_deadline, budget_entries, write_entries,
  field_tokens, field_cost, field_currency, field_deadline, encode_budget, empty_budget,
  decode_budget,
}
use aire_go.Budget.Decode.{
  IsEntry, entries_bytes, payload_bytes, apply_entries, decode_budget-payload_bytes,
}
use aire_go.Varint.Encode.{encoding, append_varint-encoding, length-encoding}

-- The entries of one field each.
abbrev pub number_entry : ℕ → Option ℕ → List Entry
number_entry fid none = []
number_entry fid (some v) = (fid, encoding v) ∷ []

abbrev pub currency_entry : Bytes → List Entry
currency_entry [] = []
currency_entry (c ∷ cs) = (field_currency, c ∷ cs) ∷ []

abbrev pub deadline_entry : Option ℤ → List Entry
deadline_entry none = []
deadline_entry (some d) = (field_deadline, put_uint64 (to_u64 d)) ∷ []

-- All of them, in the order of the identifiers.
abbrev pub entries_of : Budget → List Entry
entries_of b =
    number_entry field_tokens b.tokens
    ++ (number_entry field_cost b.cost_microunits
        ++ (currency_entry b.currency ++ deadline_entry b.deadline_ms))

abbrev pub IsNumber : Option ℕ → Type 0
IsNumber none = Unit
IsNumber (some v) = v ≤ max_varint

-- `Encode` panics on larger numbers.
abbrev pub IsEncodable : Budget → Type 0
IsEncodable b = IsNumber b.tokens × IsNumber b.cost_microunits × (length b.currency ≤ max_varint)

add_number-entry :
    (fid : ℕ) (o : Option ℕ) (es : List Entry)
    → IsNumber o
    → add_number fid o es ≡ ok (es ++ number_entry fid o)
unfolding add_number
add_number-entry fid none es h = rw append-nil
add_number-entry fid (some v) es h = rw (append_varint-encoding [] v h)

add_currency-entry : (c : Bytes) (es : List Entry) → add_currency c es ≡ es ++ currency_entry c
unfolding add_currency
add_currency-entry [] es = sym (append-nil es)
add_currency-entry (c ∷ cs) es = refl

add_deadline-entry : (d : Option ℤ) (es : List Entry) → add_deadline d es ≡ es ++ deadline_entry d
unfolding add_deadline
add_deadline-entry none es = sym (append-nil es)
add_deadline-entry (some d) es = refl

budget_entries-entries_of : (b : Budget) → IsEncodable b → budget_entries b ≡ ok (entries_of b)
unfolding budget_entries
budget_entries-entries_of b (ht, hc, _) =
    rw
      (
        add_number-entry field_tokens b.tokens [] ht,
        add_number-entry field_cost b.cost_microunits _ hc,
      )
      (simp (add_currency-entry, add_deadline-entry, append_assoc))

write_entries-bytes :
    (es : List Entry) (out : Bytes)
    → All IsEntry es
    → write_entries es out ≡ ok (out ++ entries_bytes es)
unfolding write_entries
write_entries-bytes [] out h = rw append-nil
write_entries-bytes ((fid, value) ∷ es) out (h, hs) =
    rw (append_varint-encoding (out ++ fid ∷ []) (length value) h)
      (write_entries-bytes es _ hs ∙ ap ok (simp append_assoc))

-- Each field has one entry at most, and no value is longer than a varint can say.
number_entry-shape :
    (fid : ℕ) (o : Option ℕ) → (length (number_entry fid o) ≤ 1) × All IsEntry (number_entry fid o)
number_entry-shape fid none = (omega arith, tt)
number_entry-shape fid (some v) = (omega arith, (omega (arith, length-encoding v), tt))

currency_entry-shape :
    (c : Bytes)
    → length c ≤ max_varint
    → (length (currency_entry c) ≤ 1) × All IsEntry (currency_entry c)
currency_entry-shape [] h = (omega arith, tt)
currency_entry-shape (c ∷ cs) h = (omega arith, (h, tt))

deadline_entry-shape :
    (d : Option ℤ) → (length (deadline_entry d) ≤ 1) × All IsEntry (deadline_entry d)
deadline_entry-shape none = (omega arith, tt)
deadline_entry-shape (some d) = (omega arith, (omega arith, tt))

module _ (b : Budget) (h : IsEncodable b) where
  entries_of-IsEntry : All IsEntry (entries_of b)
  entries_of-IsEntry = All-append IsEntry _ _ (number_entry-shape field_tokens b.tokens).1 (
      All-append IsEntry _ _ (number_entry-shape field_cost b.cost_microunits).1 (
        All-append IsEntry _ _ (currency_entry-shape b.currency h.2).1
          (deadline_entry-shape b.deadline_ms).1))

  length-entries_of : length (entries_of b) ≤ 4
  length-entries_of = omega (
    arith,
    length-append (number_entry field_tokens b.tokens) (
        number_entry field_cost b.cost_microunits
        ++ (currency_entry b.currency ++ deadline_entry b.deadline_ms)),
    length-append (number_entry field_cost b.cost_microunits)
        (currency_entry b.currency ++ deadline_entry b.deadline_ms),
    length-append (currency_entry b.currency) (deadline_entry b.deadline_ms),
    (number_entry-shape field_tokens b.tokens).0,
    (number_entry-shape field_cost b.cost_microunits).0,
    (currency_entry-shape b.currency h.2).0,
    (deadline_entry-shape b.deadline_ms).0,
  )

  -- What `Encode` writes, and `DecodeBudget` on it.
  pub encode_budget-payload_bytes : encode_budget b ≡ ok (payload_bytes (entries_of b))
  unfolding encode_budget
  encode_budget-payload_bytes =
      let small : length (entries_of b) ≤ max_varint = omega (arith, length-entries_of) in
      rw (budget_entries-entries_of b h, append_varint-encoding [] (length (entries_of b)) small)
        (write_entries-bytes (entries_of b) _ entries_of-IsEntry)

  pub decode_budget-entries_of : decode_budget (payload_bytes (entries_of b)) ≡ (
      if length (entries_of b) == 0
      then err (message "aire: BUDGET payload has zero entries")
      else apply_entries (entries_of b) [] empty_budget)
  decode_budget-entries_of =
      decode_budget-payload_bytes (entries_of b) (omega (arith, length-entries_of))
        entries_of-IsEntry
