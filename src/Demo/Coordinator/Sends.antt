-- ===== src/Demo/Coordinator/Sends.antt =====
-- Sends that succeed, one after another, and the chunks of replies.
use aire_go.Base.{
  Error, Result, Result-cases, ok, err, panic, ◌≡◌, refl, ◌≢◌, inl, inr, Option, none, some, List,
  [], ◌∷◌, ◌++◌, arith,
}
use aire_go.Varint.{Bytes}
use aire_go.Frame.{Frame}
use aire_go.Stream.{send_frame}
use aire_go.Conn.{send_on}
use aire_go.Operation.{Operation, send}
use aire_go.Operation.Frames.{send_all}
use aire_go.Demo.{send_reply, stream_frame}

-- The chunk of a reply, if there is one.
abbrev pub chunk_of : Result Bytes → List Bytes
chunk_of (ok c) = c ∷ []
chunk_of (err x) = []
chunk_of panic = []

abbrev pub all_replies : (Bytes → Result Bytes) → List Bytes → List Bytes
all_replies replies [] = []
all_replies replies (t ∷ ts) = chunk_of (replies t) ++ all_replies replies ts

send-failed : (x : Error) (op op' : Operation) (f : Frame) → send (some x) op f ≢ ok op'
unfolding send send_on
send-failed x op op' f h =
    elim (Result-cases (send_frame (record f { op_id = op.op_id }) op.stream.outbox)) [
      | inl (b, k) ↦ ground (arith, k, h)
      | inr (inl (y, k)) ↦ ground (arith, k, h)
      | inr (inr k) ↦ ground (arith, k, h)
    ]

send_reply-sent :
    (w : Option Error) (op op' : Operation) (c : Bytes)
    → send_reply w op c ≡ (op', ok tt)
    → send w op (stream_frame c) ≡ ok op'
unfolding send_reply
send_reply-sent w op op' c h = elim (Result-cases (send w op (stream_frame c))) [
  | inl (o, k) ↦ let same : o ≡ op' = ground (arith, k, h) in rw (k, same)
  | inr (inl (y, k)) ↦ ground (arith, k, h)
  | inr (inr k) ↦ ground (arith, k, h)
]

pub send_reply-ok :
    (w : Option Error) (op op' : Operation) (c : Bytes)
    → send_reply w op c ≡ (op', ok tt)
    → send none op (stream_frame c) ≡ ok op'
send_reply-ok none op op' c h = send_reply-sent none op op' c h
send_reply-ok (some x) op op' c h =
    absurd (send-failed x op op' (stream_frame c) (send_reply-sent (some x) op op' c h))

pub send_all-append :
    (op op1 op2 : Operation) (fs : List Frame) (f : Frame)
    → send_all op fs ≡ ok op1
    → send none op1 f ≡ ok op2
    → send_all op (fs ++ f ∷ []) ≡ ok op2
unfolding send_all
send_all-append op op1 op2 [] f a b =
    let same : op ≡ op1 = ground (arith, a) in rw (same, b, send_all) refl
send_all-append op op1 op2 (g ∷ fs) f a b = elim (Result-cases (send none op g)) [
  | inr (inl (x, k)) ↦ ground (arith, k)
  | inr (inr k) ↦ ground (arith, k)
  | inl (op', k) ↦ rw (k, send_all) (send_all-append op' op1 op2 fs f (rw (k, send_all) at a) b)
]
