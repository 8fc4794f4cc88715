-- ===== src/Budget/RoundTrip.antt =====
-- `DecodeBudget` on what `Encode` wrote.
use aire_go.Varint.Values.{be_uint64-put_uint64}
use aire_go.Base.{
  eq→==, ne→==, length, ok, ℕ, ◌≤◌, ◌≡◌, refl, ap, ◌∙◌, ◌≢◌, ◌⊎◌, inl, inr, false, Option, none,
  some, List, [], ◌∷◌, ◌++◌, append-nil, arith,
}
use aire_go.Base.Int.{ℤ, to_u64, IsI64, of_u64-to_u64, to_u64-lt}
use aire_go.Varint.{Bytes, max_varint, put_uint64}
use aire_go.Budget.{
  Entry, Budget, field_tokens, field_cost, field_deadline, set_field, seen_before, field_currency,
  empty_budget, encode_budget, decode_budget,
}
use aire_go.Budget.Decode.{apply_entries, payload_bytes}
use aire_go.Varint.RoundTrip.{read_varint-encoding}
use aire_go.Varint.Encode.{encoding}
use aire_go.Budget.Entries.{
  number_entry, currency_entry, deadline_entry, entries_of, IsNumber, IsEncodable,
  encode_budget-payload_bytes, decode_budget-entries_of,
}

apply_entry :
    (fid : ℕ) (value : Bytes) (es : List Entry) (seen : List ℕ) (b b' : Budget)
    → seen_before fid seen ≡ false
    → set_field fid value b ≡ ok b'
    → apply_entries ((fid, value) ∷ es) seen b ≡ apply_entries es (fid ∷ seen) b'
unfolding apply_entries
apply_entry fid value es seen b b' new r = rw (new, r)

set_tokens :
    (v : ℕ) (b : Budget)
    → v ≤ max_varint
    → set_field field_tokens (encoding v) b ≡ ok (record b { tokens = some v })
unfolding set_field
set_tokens v b h = rw (rw append-nil at (read_varint-encoding v [] h))

set_cost :
    (v : ℕ) (b : Budget)
    → v ≤ max_varint
    → set_field field_cost (encoding v) b ≡ ok (record b { cost_microunits = some v })
unfolding set_field
set_cost v b h = rw (rw append-nil at (read_varint-encoding v [] h))

set_deadline :
    (d : ℤ) (b : Budget)
    → IsI64 d
    → set_field field_deadline (put_uint64 (to_u64 d)) b ≡ ok (record b { deadline_ms = some d })
unfolding set_field
set_deadline d b h = rw (be_uint64-put_uint64 (to_u64 d) (to_u64-lt d), of_u64-to_u64 d h)

abbrev pub IsDeadline : Option ℤ → Type 0
IsDeadline none = Unit
IsDeadline (some d) = IsI64 d

-- The identifiers seen behind each field, and the budget so far.
abbrev mark : ℕ → Option ℕ → List ℕ → List ℕ
mark fid none seen = seen
mark fid (some v) seen = fid ∷ seen

abbrev mark_text : Bytes → List ℕ → List ℕ
mark_text [] seen = seen
mark_text (c ∷ cs) seen = field_currency ∷ seen

apply_tokens :
    (es : List Entry) (t : Option ℕ)
    → IsNumber t
    → apply_entries (number_entry field_tokens t ++ es) [] empty_budget
      ≡ apply_entries es (mark field_tokens t []) (record empty_budget { tokens = t })
apply_tokens es none h = refl
apply_tokens es (some v) h =
    apply_entry field_tokens (encoding v) es [] empty_budget _ (unfold seen_before in refl)
      (set_tokens v empty_budget h)

module _ (es : List Entry) (t : Option ℕ) where
  fresh_cost : seen_before field_cost (mark field_tokens t []) ≡ false
  unfolding seen_before
  fresh_cost = ground arith

  apply_cost :
      (c : Option ℕ)
      → IsNumber c
      → let b = record empty_budget { tokens = t } in
        apply_entries (number_entry field_cost c ++ es) (mark field_tokens t []) b
        ≡ apply_entries es
            (mark field_cost c (mark field_tokens t []))
            (record b { cost_microunits = c })
  apply_cost none h = refl
  apply_cost (some v) h =
      let b : Budget = record empty_budget { tokens = t } in
      apply_entry field_cost (encoding v) es (mark field_tokens t []) b _ fresh_cost
        (set_cost v b h)

module _ (es : List Entry) (t c : Option ℕ) where
  abbrev seen_numbers : List ℕ
  seen_numbers = mark field_cost c (mark field_tokens t [])

  abbrev numbers : Budget
  numbers = record empty_budget { tokens = t; cost_microunits = c }

  fresh_currency : seen_before field_currency seen_numbers ≡ false
  unfolding seen_before
  fresh_currency = ground arith

  apply_currency :
      (cur : Bytes)
      → ((cur ≡ []) ⊎ (length cur ≡ 3))
      → apply_entries (currency_entry cur ++ es) seen_numbers numbers
        ≡ apply_entries es (mark_text cur seen_numbers) (record numbers { currency = cur })
  apply_currency [] h = refl
  apply_currency (x ∷ xs) h =
      let three : length (x ∷ xs) ≡ 3 = elim h [ inl e ↦ cc | inr e ↦ e ] in
      apply_entry field_currency (x ∷ xs) es seen_numbers numbers _ fresh_currency
        (unfold set_field in rw (eq→== _ _ three))

  fresh_deadline : (cur : Bytes) → seen_before field_deadline (mark_text cur seen_numbers) ≡ false
  unfolding seen_before
  fresh_deadline [] = ground arith
  fresh_deadline (x ∷ xs) = ground arith

  apply_deadline :
      (cur : Bytes) (d : Option ℤ)
      → IsDeadline d
      → apply_entries
          (deadline_entry d)
          (mark_text cur seen_numbers)
          (record numbers { currency = cur })
        ≡ ok (record numbers { currency = cur; deadline_ms = d })
  apply_deadline cur none h = unfold apply_entries in refl
  apply_deadline cur (some d) h =
      let b : Budget = record numbers { currency = cur } in
      apply_entry field_deadline (put_uint64 (to_u64 d)) [] (mark_text cur seen_numbers) b _
        (fresh_deadline cur) (set_deadline d b h)
      ∙ unfold apply_entries in refl

-- The budgets that survive the wire: at least one field, numbers that a varint holds, a currency
-- of three bytes where there is one, a deadline that is an int64.
pub record IsBudget (b : Budget) : Type 0 where
  pub some_field : b ≢ empty_budget
  pub tokens_fit : IsNumber b.tokens
  pub cost_fits : IsNumber b.cost_microunits
  pub currency_code : (b.currency ≡ []) ⊎ (length b.currency ≡ 3)
  pub deadline_fits : IsDeadline b.deadline_ms

IsBudget-IsEncodable : {b : Budget} → IsBudget b → IsEncodable b
IsBudget-IsEncodable h = (
  h.tokens_fit,
  h.cost_fits,
  elim h.currency_code [ inl e ↦ omega (arith, ap length e) | inr e ↦ omega arith ],
)

apply_entries-entries_of :
    (b : Budget) → IsBudget b → apply_entries (entries_of b) [] empty_budget ≡ ok b
apply_entries-entries_of b h =
    apply_tokens _ b.tokens h.tokens_fit
    ∙ apply_cost _ b.tokens b.cost_microunits h.cost_fits
    ∙ apply_currency _ b.tokens b.cost_microunits b.currency h.currency_code
    ∙ apply_deadline [] b.tokens b.cost_microunits b.currency b.deadline_ms h.deadline_fits

fields_nil :
    (t c : Option ℕ) (cur : Bytes) (d : Option ℤ)
    → let b : Budget = record {
      tokens = t;
      cost_microunits = c;
      currency = cur;
      deadline_ms = d;
    } in
      length (entries_of b) ≡ 0 → b ≡ empty_budget
fields_nil none none [] none e = refl
fields_nil (some t) c cur d e = absurd (omega arith)
fields_nil none (some c) cur d e = absurd (omega arith)
fields_nil none none (x ∷ xs) d e = absurd (omega arith)
fields_nil none none [] (some d) e = absurd (omega arith)

entries_of-nil : (b : Budget) → length (entries_of b) ≡ 0 → b ≡ empty_budget
entries_of-nil b e = fields_nil b.tokens b.cost_microunits b.currency b.deadline_ms e

-- For a budget with at least one field, whose numbers a varint holds, whose currency has three
-- bytes or is absent and whose deadline is an int64: `Encode` succeeds, and `DecodeBudget` returns
-- the same budget.
pub decode_budget-encode_budget :
    (b : Budget)
    → IsBudget b
    → (bytes : Bytes) × (encode_budget b ≡ ok bytes) × (decode_budget bytes ≡ ok b)
decode_budget-encode_budget b h =
    let enc = IsBudget-IsEncodable h in
    (
      payload_bytes (entries_of b),
      encode_budget-payload_bytes b enc,
      decode_budget-entries_of b enc
          ∙ rw (ne→== _ _ (λ e. h.some_field (entries_of-nil b e))) (apply_entries-entries_of b h),
    )
