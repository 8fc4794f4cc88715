-- ===== src/Cancel/Reason.antt =====
-- The names of cancel reasons in cancel.go: `CancelReason.String`.
use aire_go.Base.{leb, ◌==◌, if◌then◌else◌, ℕ, ◌++◌}
use aire_go.Base.Text.{codes}
use aire_go.Varint.{Bytes}
use aire_go.Cancel.{user_cancelled}
use aire_go.Digits.Print.{two_hex}

abbrev pub deadline_exceeded_reason : ℕ
deadline_exceeded_reason = 0x01

abbrev pub budget_exceeded_reason : ℕ
budget_exceeded_reason = 0x02

abbrev pub upstream_cancelled : ℕ
upstream_cancelled = 0x03

abbrev pub resource_exhausted : ℕ
resource_exhausted = 0x04

abbrev pub internal : ℕ
internal = 0x05

unfoldable pub reason_string : ℕ → Bytes
reason_string r =
    if r == user_cancelled
    then codes "USER_CANCELLED"
    else if r == deadline_exceeded_reason
    then codes "DEADLINE_EXCEEDED"
    else if r == budget_exceeded_reason
    then codes "BUDGET_EXCEEDED"
    else if r == upstream_cancelled
    then codes "UPSTREAM_CANCELLED"
    else if r == resource_exhausted
    then codes "RESOURCE_EXHAUSTED"
    else if r == internal
    then codes "INTERNAL"
    else if leb 0x40 r
    then codes "vendor(0x" ++ (two_hex r ++ codes ")")
    else codes "reserved(0x" ++ (two_hex r ++ codes ")")
