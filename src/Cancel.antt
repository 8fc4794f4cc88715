-- ===== src/Cancel.antt =====
-- cancel.go: the payload of a CANCEL frame.
pub mod Reason
pub mod RoundTrip
use aire_go.Base.{
  ◌==◌, if◌then◌else◌, length, drop, Result, ◌>>=◌, map_err, message, wrapf, ok, err, ℕ, ◌+◌, [],
}
use aire_go.Varint.{Bytes, append_varint, read_varint}
use aire_go.Strings.{append_string, read_string}

abbrev pub user_cancelled : ℕ
user_cancelled = 0x00

pub record Cancel : Type 0 where
  pub reason : ℕ
  pub detail : Bytes

unfoldable pub encode_cancel : Cancel → Result Bytes
encode_cancel c = do out ← append_varint [] c.reason; append_string out c.detail

-- The payload behind the test for the empty form.
decode_cancel_fields : Bytes → Result Cancel
decode_cancel_fields payload = do
  (reason, n) ← map_err (wrapf "aire: CANCEL Reason") (read_varint payload)
  (detail, m) ← map_err (wrapf "aire: CANCEL Detail") (read_string (drop n payload))
  if n + m == length payload
      then ok (record { reason = reason; detail = detail })
      else err (message "aire: CANCEL: trailing bytes after Detail")

unfoldable pub decode_cancel : Bytes → Result Cancel
unfolding decode_cancel_fields
decode_cancel payload =
    if length payload == 0
    then ok (record { reason = user_cancelled; detail = [] })
    else decode_cancel_fields payload
