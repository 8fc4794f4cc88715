-- ===== src/Budget/Decode.antt =====
-- `DecodeBudget` on a list of entries in any order: it applies them one by one.
use aire_go.Base.{
  ◌==◌, if◌then◌else◌, ge→ltb, eq→==, Bool-cases, length, drop, length-append, length-drop,
  take-append, drop-append, drop_past, All, Result, ◌>>=◌, Result-cases, message, ok, err, ℕ, ◌+◌,
  ◌-◌, ◌≤◌, ◌≡◌, ap, ◌∙◌, inl, inr, List, [], ◌∷◌, ◌++◌, append_assoc, arith,
}
use aire_go.Varint.{Bytes, max_varint}
use aire_go.Budget.{
  Entry, Budget, take_value, set_field, seen_before, Progress, decode_entry, decode_entries, finish,
  field_id, empty_budget, decode_budget,
}
use aire_go.Varint.Encode.{encoding}
use aire_go.Varint.RoundTrip.{read_varint_at, read_varint-encoding}

abbrev pub entry_bytes : Entry → Bytes
entry_bytes (fid, value) = fid ∷ (encoding (length value) ++ value)

abbrev pub entries_bytes : List Entry → Bytes
entries_bytes [] = []
entries_bytes (e ∷ es) = entry_bytes e ++ entries_bytes es

-- The wire form of a BUDGET payload: the number of entries and the entries.
abbrev pub payload_bytes : List Entry → Bytes
payload_bytes es = encoding (length es) ++ entries_bytes es

abbrev pub IsEntry : Entry → Type 0
IsEntry (fid, value) = length value ≤ max_varint

-- What a payload means: each entry sets its field, and no identifier may come twice.
unfoldable pub apply_entries : List Entry → List ℕ → Budget → Result Budget
apply_entries [] seen b = ok b
apply_entries ((fid, value) ∷ es) seen b =
    if seen_before fid seen
    then err (message "aire: BUDGET entry: duplicate FieldID")
    else (do b' ← set_field fid value b; apply_entries es (fid ∷ seen) b')

module _ (payload : Bytes) (p : Progress) (fid : ℕ) (value rest : Bytes) where
  abbrev entry_end : ℕ
  entry_end = p.at + 1 + length (encoding (length value)) + length value

  take_value-entry :
      (at : ℕ)
      → drop at payload ≡ value ++ rest
      → take_value payload fid (length value) at p ≡ (
          if seen_before fid p.seen
          then err (message "aire: BUDGET entry: duplicate FieldID")
          else (do
            b ← set_field fid value p.budget
            ok (record { at = at + length value; budget = b; seen = fid ∷ p.seen })))
  unfolding take_value
  take_value-entry at e =
      let room : length value ≤ length payload - at =
        omega (arith, length-drop at payload, ap length e, length-append value rest) in
      rw (ge→ltb _ _ room, e, take-append)

  decode_entry-entry :
      IsEntry (fid, value)
      → drop p.at payload ≡ entry_bytes (fid, value) ++ rest
      → (decode_entry payload p ≡ (
          if seen_before fid p.seen
          then err (message "aire: BUDGET entry: duplicate FieldID")
          else (do
            b ← set_field fid value p.budget
            ok (record { at = entry_end; budget = b; seen = fid ∷ p.seen }))))
        × (drop entry_end payload ≡ rest)
  unfolding decode_entry field_id
  decode_entry-entry h e =
      let len = encoding (length value) in
      let e1 : drop (p.at + 1) payload ≡ len ++ (value ++ rest) =
        drop_past p.at payload (fid ∷ []) _
          (e ∙ ap (λ (b : Bytes). fid ∷ b) (append_assoc len value rest)) in
      let (r, e2) = read_varint_at (p.at + 1) payload (length value) _ h e1 in
      let e3 = drop_past (p.at + 1 + length len) payload value rest e2 in
      (rw (e, r) (take_value-entry (p.at + 1 + length len) e2), e3)

-- The loop over a list of entries, and the test behind it.
entries-fold :
    (es : List Entry) (payload : Bytes) (p : Progress)
    → All IsEntry es
    → drop p.at payload ≡ entries_bytes es
    → p.at ≤ length payload
    → (decode_entries (length es) payload p >>= finish payload) ≡ apply_entries es p.seen p.budget
unfolding decode_entries apply_entries
entries-fold [] payload p h e le =
    let end : p.at ≡ length payload = omega (arith, ap length e, length-drop p.at payload) in
    unfold finish in rw (eq→== _ _ end)
entries-fold ((fid, value) ∷ es) payload p (h, hs) e le =
    let (step, next) = decode_entry-entry payload p fid value (entries_bytes es) h e in
    let tail = encoding (length value) ++ value in
    let room : entry_end payload p fid value (entries_bytes es) ≤ length payload = omega (
      arith,
      ap length e,
      length-drop p.at payload,
      length-append (fid ∷ tail) (entries_bytes es),
      length-append (encoding (length value)) value,
    ) in
    rw step (elim (Bool-cases (seen_before fid p.seen)) [
      | inl dup ↦ rw dup
      | inr new ↦ rw new (elim (Result-cases (set_field fid value p.budget)) [
        | inl (b, r) ↦ rw r (entries-fold es payload _ hs next room)
        | inr (inl (x, r)) ↦ rw r
        | inr (inr r) ↦ rw r
      ])
    ])

-- `DecodeBudget` on the wire form of a list of entries, in any order and with any identifiers: no
-- entry is an error; otherwise the entries are applied in turn, each setting its field (an unknown
-- identifier sets none), and an identifier that comes a second time is an error.
pub decode_budget-payload_bytes :
    (es : List Entry)
    → length es ≤ max_varint
    → All IsEntry es
    → decode_budget (payload_bytes es) ≡ (
        if length es == 0
        then err (message "aire: BUDGET payload has zero entries")
        else apply_entries es [] empty_budget)
unfolding decode_budget
decode_budget-payload_bytes es hn h =
    rw (read_varint-encoding (length es) (entries_bytes es) hn)
      (elim (Bool-cases (length es == 0)) [
        | inl e ↦ rw e
        | inr e ↦ rw e (
            entries-fold es (payload_bytes es) _ h (drop-append _ _)
              (omega (arith, length-append (encoding (length es)) (entries_bytes es))))
      ])
