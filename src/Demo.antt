-- ===== src/Demo.antt =====
-- The agents of the demo commands cmd/aire-demo and cmd/aire-peers. What they print and how long they
-- sleep is left out.
pub mod Reversing
pub mod Counting
pub mod Atoi
pub mod Streaming
pub mod Client
pub mod Asking
pub mod Coordinator
use aire_go.Base.{
  ltb, leb, ◌==◌, if◌then◌else◌, length, get_or, set, Error, Result, ◌>>=◌, map_err, message, wrapf,
  ok, err, panic, ℕ, zero, suc, ◌+◌, ◌-◌, ◌*◌, ◌^◌, Bool, true, false, ◌&&◌, ◌||◌, Option, none,
  some, List, [], ◌∷◌, ◌++◌,
}
use aire_go.Base.Int.{ℤ, pos, pos_part, sub_ℕ}
use aire_go.Base.Text.{codes}
use aire_go.Varint.{Bytes}
use aire_go.Frame.{Frame, frame_stream}
use aire_go.Digits.Print.{decimal}
use aire_go.Runes.{decode_runes, encode_runes}
use aire_go.Conn.{QuicStream, Conn}
use aire_go.Operation.{Operation, send, recv, close, invoke}
use aire_go.Node.{Invoke, Agent}

-- `AgentFunc`: what the function leaves of the operation, and its error, which the node drops.
abbrev pub AgentFunc : Type 0
AgentFunc = Invoke → Operation × Result (Unit {0})

unfoldable pub as_agent : AgentFunc → Agent
as_agent f inv = (f inv).0

abbrev pub stream_frame : Bytes → Frame
stream_frame payload = record { type = frame_stream; flags = 0; op_id = 0; payload = payload }

-- One `Send` of an agent.
unfoldable pub send_reply : Option Error → Operation → Bytes → Operation × Result (Unit {0})
send_reply write_error op payload = elim (send write_error op (stream_frame payload)) [
  | ok op' ↦ (op', ok tt)
  | err x ↦ (op, err x)
  | panic ↦ (op, panic)
]

-- `if err := … ; err != nil { return err }`, and what follows.
abbrev pub and_then :
    Operation × Result (Unit {0})
    → (Operation → Operation × Result (Unit {0}))
    → Operation × Result (Unit {0})
and_then (op, ok _) k = k op
and_then (op, err x) k = (op, err x)
and_then (op, panic) k = (op, panic)

-- The loop of `reverseAgent` over `i` and `j`; it makes fewer rounds than there are code points. For an empty
-- text `j` is -1 in the source.
unfoldable pub swap : ℕ → ℕ → List ℕ → List ℕ
swap i j r = set (set r i (get_or r j 0)) j (get_or r i 0)

unfoldable pub swap_ends : ℕ → ℕ → ℕ → List ℕ → List ℕ
swap_ends zero i j r = r
swap_ends (suc fuel) i j r =
    let rest = swap_ends fuel (i + 1) (j - 1) (swap i j r) in if ltb i j then rest else r

unfoldable pub reverse_runes : List ℕ → List ℕ
reverse_runes r = swap_ends (length r) 0 (length r - 1) r

unfoldable pub reverse_agent : Option Error → AgentFunc
reverse_agent write_error inv =
    send_reply write_error inv.op (encode_runes (reverse_runes (decode_runes inv.args)))

-- `unicode.IsSpace`
abbrev pub is_space : ℕ → Bool
is_space c =
    (leb 9 c && leb c 13)
    || (c == 0x20
        || (c == 0x85
            || (c == 0xA0
                || (c == 0x1680
                    || ((leb 0x2000 c && leb c 0x200A)
                        || (c == 0x2028
                            || (c == 0x2029 || (c == 0x202F || (c == 0x205F || c == 0x3000)))))))))

-- `strings.Fields` on the code points of a text: `word` is the field that has begun, if any.
abbrev pub end_word : Option (List ℕ) → List (List ℕ)
end_word none = []
end_word (some w) = w ∷ []

abbrev pub grow_word : Option (List ℕ) → ℕ → List ℕ
grow_word none c = c ∷ []
grow_word (some w) c = w ++ c ∷ []

unfoldable pub fields_from : Option (List ℕ) → List ℕ → List (List ℕ)
fields_from word [] = end_word word
fields_from word (c ∷ s) =
    let ends = fields_from none s in
    let goes_on = fields_from (some (grow_word word c)) s in
    if is_space c then end_word word ++ ends else goes_on

unfoldable pub fields : List ℕ → List (List ℕ)
fields s = fields_from none s

unfoldable pub wordcount_agent : Option Error → AgentFunc
wordcount_agent write_error inv =
    send_reply write_error inv.op (decimal (length (fields (decode_runes inv.args))))

-- `strconv.Atoi`
unfoldable pub digits_value : ℕ → Bytes → Option ℕ
digits_value acc [] = some acc
digits_value acc (c ∷ s) =
    let rest = digits_value (acc * 10 + (c - b'0')) s in
    if leb b'0' c && leb c b'9' then rest else none

abbrev bad_syntax : Error
bad_syntax = message "strconv.Atoi: invalid syntax"

abbrev out_of_range : Error
out_of_range = message "strconv.Atoi: value out of range"

abbrev in_range : Bool → ℕ → Result ℤ
in_range negative n =
    if negative
    then if leb n (2 ^ 63) then ok (sub_ℕ 0 n) else err out_of_range
    else if ltb n (2 ^ 63)
    then ok (pos n)
    else err out_of_range

unfoldable pub magnitude : Bool → Bytes → Result ℤ
magnitude negative [] = err bad_syntax
magnitude negative (c ∷ s) = elim (digits_value 0 (c ∷ s)) [
  | none ↦ err bad_syntax
  | some n ↦ in_range negative n
]

unfoldable pub atoi : Bytes → Result ℤ
atoi [] = err bad_syntax
atoi (c ∷ s) =
    if c == b'-'
    then magnitude true s
    else if c == b'+'
    then magnitude false s
    else magnitude false (c ∷ s)

abbrev pub token : ℕ → Bytes
token i = codes "token-" ++ decimal i

-- The loop of `streamAgent` from `i` on, with the rounds left; `write_errors i` is the outcome of the write
-- of token `i`. At the greatest int, where the counter would wrap around, the loop of the source has no end.
unfoldable pub stream_tokens :
    (ℕ → Option Error) → ℕ → ℕ → Operation → Operation × Result (Unit {0})
stream_tokens write_errors zero i op = (op, ok tt)
stream_tokens write_errors (suc rounds) i op =
    and_then (send_reply (write_errors i) op (token i))
      (λ op'. stream_tokens write_errors rounds (i + 1) op')

unfoldable pub stream_agent : (ℕ → Option Error) → AgentFunc
stream_agent write_errors inv = elim (atoi inv.args) [
  | err x ↦ (inv.op, err (wrapf "parse args" x))
  | panic ↦ (inv.op, panic)
  | ok n ↦ stream_tokens write_errors (pos_part n) 1 inv.op
]

-- What the goroutine of `coordinatorAgent` for one target does up to its send on the channel.
unfoldable pub ask : Conn → Result QuicStream → Option Error → Bytes → Bytes → Result Bytes
ask b_conn opened write_error agent_id args = do
  op ← invoke b_conn opened write_error agent_id (codes "go") args
  (f, _) ← recv (close op)
  ok (agent_id ++ b'=' ∷ f.payload)
