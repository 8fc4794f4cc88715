-- ===== src/Operation/Frames.antt =====
-- What the two ends of an operation exchange.
use aire_go.Base.{
  length, ◌==◌, eq→==, ne→==, ==_iff, Bool-cases, All, Error, root, Result, ◌>>=◌, Result-cases,
  protocol_violation, sentinel, wrapf, ok, err, ℕ, zero, suc, ◌≡◌, refl, sym, ap, ◌∙◌, ◌≢◌, ◌↔◌,
  inl, inr, none, some, List, [], ◌∷◌, ◌++◌, append_assoc, append-nil, map, arith,
}
use aire_go.Varint.{Bytes, IsByte}
use aire_go.Frame.{Frame}
use aire_go.Conn.{send_on, recv_on}
use aire_go.Operation.{recv, send, Operation}
use aire_go.Stream.{read_frame}
use aire_go.Stream.Sequence.{
  IsSendable, all_bytes, all_bytes-IsByte, read_frame-bytes, send_frame-bytes,
}
use aire_go.Frame.Layout.{frame_bytes}

-- The frame as `Send` stamps it.
abbrev pub stamp : Operation → Frame → Frame
stamp op f = record f { op_id = op.op_id }

-- An end of an operation that has other bytes to read.
abbrev pub with_inbox : Operation → Bytes → Operation
with_inbox op inbox = record op { stream = record op.stream { inbox = inbox } }

-- `Recv` returns exactly the next frame of the stream, if there is one, where its OpID is that of
-- the operation, and moves past it.
pub recv-ok_iff :
    (op op' : Operation) (f : Frame)
    → (recv op ≡ ok (f, op')) ↔ (
        (rest : Bytes) × (read_frame op.stream.inbox ≡ ok (f, rest))
        × (f.op_id ≡ op.op_id)
        × (op' ≡ with_inbox op rest))
unfolding recv recv_on
recv-ok_iff op op' f = (
  λ h. elim (Result-cases (read_frame op.stream.inbox)) [
    | inr (inl (x, a)) ↦ ground (arith, a)
    | inr (inr a) ↦ ground (arith, a)
    | inl ((g, rest), a) ↦ elim (Bool-cases (g.op_id == op.op_id)) [
      | inr b ↦ ground (arith, a, b)
      | inl b ↦
          let (same, moved) : (g ≡ f) × (with_inbox op rest ≡ op') = ground (arith, a, b) in
          (rest, (rw same at a), (rw same at ((==_iff _ _).0 b)), sym moved)
    ]
  ],
  λ (rest, a, b, moved). rw (a, eq→== _ _ b, moved) refl,
)

-- A frame of another operation is refused as a protocol violation.
pub recv_foreign :
    (op : Operation) (f : Frame) (rest : Bytes)
    → read_frame op.stream.inbox ≡ ok (f, rest)
    → f.op_id ≢ op.op_id
    → (x : Error) × (recv op ≡ err x) × (root x ≡ some protocol_violation)
unfolding recv recv_on
recv_foreign op f rest a other = (
  wrapf "frame OpID, operation OpID" (sentinel protocol_violation),
  rw (a, ne→== _ _ other) refl,
  refl,
)

-- `Send` for each frame in turn.
unfoldable pub send_all : Operation → List Frame → Result Operation
send_all op [] = ok op
send_all op (f ∷ fs) = do op' ← send none op f; send_all op' fs

-- `Recv`, `n` times.
unfoldable pub recv_all : ℕ → Operation → Result (List Frame × Operation)
recv_all zero op = ok ([], op)
recv_all (suc n) op = do (f, op') ← recv op; (fs, op'') ← recv_all n op'; ok (f ∷ fs, op'')

abbrev pub with_outbox : Operation → Bytes → Operation
with_outbox op outbox = record op { stream = record op.stream { outbox = outbox } }

abbrev pub AllSendable : Operation → List Frame → Type 0
AllSendable op fs = All (λ f. IsSendable (stamp op f)) fs

pub send-bytes :
    (op : Operation) (f : Frame)
    → IsSendable (stamp op f)
    → send none op f ≡ ok (with_outbox op (op.stream.outbox ++ frame_bytes (stamp op f)))
unfolding send send_on
send-bytes op f s = rw (send_frame-bytes (stamp op f) op.stream.outbox s) refl

pub send_all-bytes :
    (op : Operation) (fs : List Frame)
    → AllSendable op fs
    → send_all op fs ≡ ok (with_outbox op (op.stream.outbox ++ all_bytes (map (stamp op) fs)))
unfolding send_all
send_all-bytes op [] h = rw append-nil refl
send_all-bytes op (f ∷ fs) (h, hs) = rw (send-bytes op f h) (
    send_all-bytes (with_outbox op (op.stream.outbox ++ frame_bytes (stamp op f))) fs hs
    ∙ ap (λ (b : Bytes). ok (with_outbox op b))
        (append_assoc op.stream.outbox (frame_bytes (stamp op f)) (all_bytes (map (stamp op) fs))))

recv-bytes :
    (op : Operation) (f : Frame) (rest : Bytes)
    → IsSendable f
    → All IsByte rest
    → f.op_id ≡ op.op_id
    → recv (with_inbox op (frame_bytes f ++ rest)) ≡ ok (f, with_inbox op rest)
recv-bytes op f rest s h same =
    (recv-ok_iff (with_inbox op (frame_bytes f ++ rest)) (with_inbox op rest) f).1
      (rest, read_frame-bytes f rest s h, same, refl)

All-stamp : (p : Operation) (fs : List Frame) → AllSendable p fs → All IsSendable (map (stamp p) fs)
All-stamp p [] h = tt
All-stamp p (f ∷ fs) (h, hs) = (h, All-stamp p fs hs)

recv_all-bytes :
    (p q : Operation) (fs : List Frame)
    → p.op_id ≡ q.op_id
    → AllSendable p fs
    → recv_all (length fs) (with_inbox q (all_bytes (map (stamp p) fs)))
      ≡ ok (map (stamp p) fs, with_inbox q [])
unfolding recv_all
recv_all-bytes p q [] same h = refl
recv_all-bytes p q (f ∷ fs) same (h, hs) =
    let rest = all_bytes (map (stamp p) fs) in
    rw
      (
        recv-bytes q (stamp p f) rest h (all_bytes-IsByte (map (stamp p) fs) (All-stamp p fs hs))
            same,
        recv_all-bytes p q fs same hs,
      )
      refl

-- Whatever frames one end of an operation sends, the other end receives them all, in their order, with
-- nothing left over, each under the OpID of the operation and otherwise unchanged: the two ends
-- have one OpID, the frames are in their machine ranges once they are stamped, no `Write` fails, and
-- nothing was sent before.
pub recv_all-send_all :
    (p q : Operation) (fs : List Frame)
    → p.op_id ≡ q.op_id
    → p.stream.outbox ≡ []
    → AllSendable p fs
    → (p' : Operation) × (send_all p fs ≡ ok p')
      × (recv_all (length fs) (with_inbox q p'.stream.outbox)
          ≡ ok (map (stamp p) fs, with_inbox q []))
recv_all-send_all p q fs same empty h = (
  with_outbox p (all_bytes (map (stamp p) fs)),
  send_all-bytes p fs h
      ∙ ap (λ (b : Bytes). ok (with_outbox p (b ++ all_bytes (map (stamp p) fs)))) empty,
  recv_all-bytes p q fs same h,
)
