-- ===== src/Examples/Payloads.antt =====
-- cancel.go and budget.go at concrete inputs.
use aire_go.Base.{
  take, drop, message, ok, err, ◌≡◌, ◌≢◌, ◌↔◌, refl, inr, none, some, List, [], ◌∷◌, arith,
}
use aire_go.Base.Int.{to_u64, negsuc}
use aire_go.Base.Text.{codes}
use aire_go.Varint.{Bytes, append_varint, read_varint}
use aire_go.Cancel.{Cancel, encode_cancel, decode_cancel}
use aire_go.Budget.{Budget, encode_budget, decode_budget, empty_budget, Entry}
use aire_go.Strings.{append_string}
use aire_go.Budget.Decode.{payload_bytes}
use aire_go.Budget.Meaning.{IsNew, SetsAll, decode_budget-SetsAll}
use aire_go.Budget.RoundTrip.{IsBudget, decode_budget-encode_budget}
use aire_go.Varint.Encode.{encoding}
use aire_go.Digits.{to_digits}
use aire_go.Hello.{version_string}
use aire_go.Digits.Print.{in_base, two_hex}
use aire_go.Cancel.Reason.{reason_string}

abbrev stopped : Cancel
stopped = record { reason = 0x41; detail = codes "stop" }

abbrev stopped_wire : Bytes
stopped_wire = 0x40 ∷ 0x41 ∷ 4 ∷ codes "stop"

encode_stopped : encode_cancel stopped ≡ ok stopped_wire
unfolding encode_cancel append_varint append_string
encode_stopped = refl

-- The form of v0.1.
decode_empty : decode_cancel [] ≡ ok (record { reason = 0; detail = [] })
unfolding decode_cancel
decode_empty = refl

abbrev allowance : Budget
allowance = record {
  tokens = some 1000;
  cost_microunits = none;
  currency = codes "USD";
  deadline_ms = some (negsuc 0);
}

allowance-IsBudget : IsBudget allowance
allowance-IsBudget = record {
  some_field = λ e. cc;
  tokens_fit = omega arith;
  cost_fits = tt;
  currency_code = inr (omega arith);
  deadline_fits = omega arith;
}

encode_allowance :
    encode_budget allowance
    ≡ ok (
        3 ∷ 1 ∷ 2 ∷ 0x43 ∷ 0xE8 ∷ 3 ∷ 3 ∷ 0x55 ∷ 0x53 ∷ 0x44 ∷ 4 ∷ 8 ∷ 255 ∷ 255 ∷ 255 ∷ 255 ∷ 255
        ∷ 255 ∷ 255 ∷ 255 ∷ [])
unfolding encode_budget append_varint to_u64
encode_allowance = refl

decode_budget-encode_budget_example :
    (bytes : Bytes) × (encode_budget allowance ≡ ok bytes) × (decode_budget bytes ≡ ok allowance)
decode_budget-encode_budget_example = decode_budget-encode_budget allowance allowance-IsBudget

-- An unknown field between two known ones, out of order.
abbrev mixed : List Entry
mixed = (0x03, codes "EUR") ∷ (0x7F, 1 ∷ 2 ∷ []) ∷ (0x01, 5 ∷ []) ∷ []

abbrev mixed_budget : Budget
mixed_budget = record empty_budget { tokens = some 5; currency = codes "EUR" }

decode_budget-SetsAll_example :
    (decode_budget (payload_bytes mixed) ≡ ok mixed_budget)
    ↔ ((mixed ≢ []) × IsNew [] mixed × SetsAll empty_budget mixed mixed_budget)
decode_budget-SetsAll_example =
    decode_budget-SetsAll mixed mixed_budget (omega arith)
      (omega arith, (omega arith, (omega arith, tt)))

decode_mixed :
    decode_budget (payload_bytes mixed)
    ≡ ok (record empty_budget { tokens = some 5; currency = codes "EUR" })
unfolding decode_budget read_varint take drop encoding
decode_mixed = refl

decode_duplicate :
    decode_budget (payload_bytes ((9, []) ∷ (9, []) ∷ []))
    ≡ err (message "aire: BUDGET entry: duplicate FieldID")
unfolding decode_budget read_varint take drop encoding
decode_duplicate = refl

vendor_reason : reason_string 0x1AB ≡ codes "vendor(0x1ab)"
unfolding reason_string two_hex in_base to_digits
vendor_reason = refl

reserved_reason : reason_string 7 ≡ codes "reserved(0x07)"
unfolding reason_string two_hex in_base to_digits
reserved_reason = refl

version_printed : version_string (record { major = 0; minor = 12 }) ≡ codes "0.12"
unfolding version_string in_base to_digits
version_printed = refl
