-- ===== src/Budget.antt =====
-- budget.go: the payload of a BUDGET frame, a list of entries of identifier, length and value.
pub mod Entries
pub mod Decode
pub mod Meaning
pub mod RoundTrip
use aire_go.Base.{
  ltb, ◌==◌, if◌then◌else◌, length, take, drop, Result, ◌>>=◌, map_err, message, wrapf, ok, err, ℕ,
  zero, suc, ◌+◌, ◌-◌, Bool, false, ◌||◌, Option, none, some, List, [], ◌∷◌, ◌++◌,
}
use aire_go.Base.Int.{ℤ, to_u64, of_u64}
use aire_go.Varint.{Bytes, append_varint, read_varint, put_uint64, be_uint64}

abbrev pub field_tokens : ℕ
field_tokens = 0x01

abbrev pub field_cost : ℕ
field_cost = 0x02

abbrev pub field_currency : ℕ
field_currency = 0x03

abbrev pub field_deadline : ℕ
field_deadline = 0x04

-- A nil pointer is `none`; a currency that is absent is the empty string.
pub record Budget : Type 0 where
  pub tokens : Option ℕ
  pub cost_microunits : Option ℕ
  pub currency : Bytes
  pub deadline_ms : Option ℤ

abbrev pub empty_budget : Budget
empty_budget = record { tokens = none; cost_microunits = none; currency = []; deadline_ms = none }

-- `entry` of `Encode`: the field's identifier and its value on the wire.
abbrev pub Entry : Type 0
Entry = ℕ × Bytes

-- The four appends to `entries`.
add_number : ℕ → Option ℕ → List Entry → Result (List Entry)
add_number fid none entries = ok entries
add_number fid (some v) entries = do value ← append_varint [] v; ok (entries ++ (fid, value) ∷ [])

add_currency : Bytes → List Entry → List Entry
add_currency [] entries = entries
add_currency (c ∷ cs) entries = entries ++ (field_currency, c ∷ cs) ∷ []

add_deadline : Option ℤ → List Entry → List Entry
add_deadline none entries = entries
add_deadline (some d) entries = entries ++ (field_deadline, put_uint64 (to_u64 d)) ∷ []

budget_entries : Budget → Result (List Entry)
unfolding add_number add_currency add_deadline
budget_entries b = do
  e1 ← add_number field_tokens b.tokens []
  e2 ← add_number field_cost b.cost_microunits e1
  ok (add_deadline b.deadline_ms (add_currency b.currency e2))

-- The loop that writes the entries.
write_entries : List Entry → Bytes → Result Bytes
write_entries [] out = ok out
write_entries ((fid, value) ∷ es) out = do
  out' ← append_varint (out ++ fid ∷ []) (length value)
  write_entries es (out' ++ value)

unfoldable pub encode_budget : Budget → Result Bytes
unfolding budget_entries write_entries
encode_budget b = do
  entries ← budget_entries b
  out ← append_varint [] (length entries)
  write_entries entries out

-- The switch over the field identifier.
pub set_field : ℕ → Bytes → Budget → Result Budget
set_field fid value b =
    if fid == field_tokens
    then (do
      (v, _) ← map_err (wrapf "aire: BUDGET TOKENS_REMAINING value") (read_varint value)
      ok (record b { tokens = some v }))
    else if fid == field_cost
    then (do
      (v, _) ← map_err (wrapf "aire: BUDGET COST_MICROUNITS value") (read_varint value)
      ok (record b { cost_microunits = some v }))
    else if fid == field_currency
    then if length value == 3
      then ok (record b { currency = value })
      else err (message "aire: BUDGET CURRENCY value length")
    else if fid == field_deadline
    then if length value == 8
      then ok (record b { deadline_ms = some (of_u64 (be_uint64 value)) })
      else err (message "aire: BUDGET DEADLINE_MS value length")
    else ok b

-- The keys of the map `seen`.
pub seen_before : ℕ → List ℕ → Bool
seen_before fid [] = false
seen_before fid (x ∷ xs) = fid == x || seen_before fid xs

-- What the loop carries: the cursor, the budget so far, the identifiers seen.
pub record Progress : Type 0 where
  pub at : ℕ
  pub budget : Budget
  pub seen : List ℕ

-- `payload[pos]`, with the test before it.
field_id : Bytes → Result ℕ
field_id [] = err (message "aire: BUDGET entry: missing FieldID")
field_id (fid ∷ _) = ok fid

-- The body of the loop behind the length, where the value begins at `at`.
take_value : Bytes → ℕ → ℕ → ℕ → Progress → Result Progress
take_value payload fid len at p =
    if ltb (length payload - at) len
    then err (message "aire: BUDGET entry Value: short")
    else if seen_before fid p.seen
    then err (message "aire: BUDGET entry: duplicate FieldID")
    else (do
      b ← set_field fid (take len (drop at payload)) p.budget
      ok (record { at = at + len; budget = b; seen = fid ∷ p.seen }))

pub decode_entry : Bytes → Progress → Result Progress
unfolding field_id take_value
decode_entry payload p = do
  fid ← field_id (drop p.at payload)
  (len, m) ← map_err (wrapf "aire: BUDGET entry Length") (read_varint (drop (p.at + 1) payload))
  take_value payload fid len (p.at + 1 + m) p

-- The loop, by the number of rounds that are left.
pub decode_entries : ℕ → Bytes → Progress → Result Progress
decode_entries zero payload p = ok p
decode_entries (suc n) payload p = do p' ← decode_entry payload p; decode_entries n payload p'

-- What follows the loop.
pub finish : Bytes → Progress → Result Budget
finish payload p =
    if p.at == length payload
    then ok p.budget
    else err (message "aire: BUDGET: trailing bytes after entries")

unfoldable pub decode_budget : Bytes → Result Budget
unfolding decode_entries decode_entry set_field seen_before finish
decode_budget payload = do
  (num, n) ← map_err (wrapf "aire: BUDGET NumEntry") (read_varint payload)
  if num == 0 then err (message "aire: BUDGET payload has zero entries") else do
    p ← decode_entries num payload (record { at = n; budget = empty_budget; seen = [] })
    finish payload p
