-- ===== src/Demo/Coordinator/Forwarding.antt =====
-- What the coordinator has sent when it returns.
use mathlib.Core.List.{perm_middle, Perm}
use mathlib.Core.List.Perm
use aire_go.Base.{
  Error, Result, ok, err, panic, ℕ, ◌≡◌, refl, sym, ap, ◌∙◌, subst, ◌≢◌, Bool, true, false, Option,
  none, some, List, [], ◌∷◌, ◌++◌, append_assoc, append-nil, map, map-append, arith,
}
use aire_go.Base.Replaced.{Replaced, first, later, total}
use aire_go.Varint.{Bytes}
use aire_go.Operation.{Operation}
use aire_go.Operation.Frames.{send_all}
use aire_go.Demo.{send_reply, stream_frame}
use aire_go.Demo.Coordinator.Sends.{chunk_of, all_replies, send_reply-ok, send_all-append}
use aire_go.Demo.Coordinator.{
  Worker, asking, holding, returned, busy, holding-busy, asking-busy, Fanout, targets, fan_out,
  FanoutStep, hears, fails, puts, closes, forwards, breaks, finishes, FanoutSteps, here, next,
}

module _ (replies : Bytes → Result Bytes) (op : Operation) where
  -- What a goroutine is still to put on the channel.
  abbrev pending : Worker → List Bytes
  pending (asking t) = chunk_of (replies t)
  pending (holding c) = c ∷ []
  pending returned = []

  all_pending : List Worker → List Bytes
  all_pending [] = []
  all_pending (w ∷ ws) = pending w ++ all_pending ws

  all_pending-same :
      {x y : Worker} {xs ys : List Worker}
      → Replaced xs x y ys
      → pending x ≡ pending y
      → all_pending xs ≡ all_pending ys
  unfolding all_pending
  all_pending-same (first {xs}) e = ap (λ (l : List Bytes). l ++ all_pending xs) e
  all_pending-same (later {z} r) e = ap (λ (l : List Bytes). pending z ++ l) (all_pending-same r e)

  all_pending-put :
      {c : Bytes} {xs ys : List Worker}
      → Replaced xs (holding c) returned ys
      → Perm (all_pending xs) (c ∷ all_pending ys)
  unfolding all_pending
  all_pending-put first = Perm.refl _
  all_pending-put (later {z} {ys} r) =
      Perm.trans (Perm.append_left (pending z) (all_pending-put r))
        (perm_middle (pending z) (all_pending ys))

  abbrev is_broken : Option (Result (Unit {0})) → Bool
  is_broken none = false
  is_broken (some (ok u)) = false
  is_broken (some (err x)) = true
  is_broken (some panic) = true

  broken : (r : Result (Unit {0})) → r ≢ ok tt → is_broken (some r) ≢ false
  broken (ok u) ne z = ne refl
  broken (err x) ne z = cc
  broken panic ne z = cc

  -- What was sent, what is on the channel and what is to come are the replies.
  record Carries (s : Fanout) : Type 0 where
    sent : List Bytes
    sent_all : send_all op (map stream_frame sent) ≡ ok s.op
    accounted : Perm (sent ++ (s.out ++ all_pending s.workers)) (all_pending (map asking targets))

  record IsForwarding (s : Fanout) : Type 0 where
    carries : is_broken s.handler ≡ false → Carries s
    shut : s.closed ≡ true → total busy s.workers ≡ 0
    through : s.handler ≡ some (ok tt) → (s.out ≡ []) × (s.closed ≡ true)

  none_pending : (ws : List Worker) → total busy ws ≡ 0 → all_pending ws ≡ []
  unfolding all_pending
  none_pending [] h = refl
  none_pending (asking t ∷ ws) h = absurd (omega arith)
  none_pending (holding c ∷ ws) h = absurd (omega arith)
  none_pending (returned ∷ ws) h = none_pending ws (omega (arith, h))

  -- The same chunks, in another place.
  Carries-moved :
      (s t : Fanout)
      → t.op ≡ s.op
      → Perm (t.out ++ all_pending t.workers) (s.out ++ all_pending s.workers)
      → Carries s
      → Carries t
  Carries-moved s t same p q = record {
    sent = q.sent;
    sent_all = q.sent_all ∙ ap (λ (o : Operation). ok o) (sym same);
    accounted = Perm.trans (Perm.append_left q.sent p) q.accounted;
  }

  -- A worker that is replaced by one with the same chunk, or by one that is to give none, like it.
  Carries-same :
      (s : Fanout) {x y : Worker} {after : List Worker}
      → Replaced s.workers x y after
      → pending x ≡ pending y
      → Carries s
      → Carries (record s { workers = after })
  Carries-same s {after} r e q =
      Carries-moved s (record s { workers = after }) refl
        (subst (λ (l : List Bytes). Perm (s.out ++ l) (s.out ++ all_pending s.workers))
          (all_pending-same r e) (Perm.refl _))
        q

  Carries-put :
      (s : Fanout) {c : Bytes} {after : List Worker}
      → Replaced s.workers (holding c) returned after
      → Carries s
      → Carries (record s { workers = after; out = s.out ++ c ∷ [] })
  Carries-put s {c} {after} r q =
      Carries-moved s (record s { workers = after; out = s.out ++ c ∷ [] }) refl
        (subst (λ (l : List Bytes). Perm l (s.out ++ all_pending s.workers))
          (sym (append_assoc s.out (c ∷ []) (all_pending after)))
          (Perm.append_left s.out (Perm.symm (all_pending-put r))))
        q

  Carries-forward :
      (s : Fanout) (c : Bytes) (rest : List Bytes) (w : Option Error) (op' : Operation)
      → s.out ≡ c ∷ rest
      → send_reply w s.op c ≡ (op', ok tt)
      → Carries s
      → Carries (record s { out = rest; op = op' })
  Carries-forward s c rest w op' e done q =
      let frames = map stream_frame q.sent in
      let all =
        send_all-append op s.op op' frames (stream_frame c) q.sent_all
          (send_reply-ok w s.op op' c done) in
      let moved : (q.sent ++ c ∷ []) ++ (rest ++ all_pending s.workers)
          ≡ q.sent ++ (s.out ++ all_pending s.workers) =
        append_assoc q.sent (c ∷ []) (rest ++ all_pending s.workers)
        ∙ ap (λ (l : List Bytes). q.sent ++ (l ++ all_pending s.workers)) (sym e) in
      record {
        sent = q.sent ++ c ∷ [];
        sent_all = ap (send_all op) (map-append stream_frame q.sent (c ∷ [])) ∙ all;
        accounted =
            subst (λ (l : List Bytes). Perm l (all_pending (map asking targets))) (sym moved)
              q.accounted;
      }

  FanoutStep-IsForwarding :
      {s t : Fanout} → FanoutStep replies s t → IsForwarding s → IsForwarding t
  FanoutStep-IsForwarding {s} (hears t c after h r) q = record {
    carries = λ z. Carries-same s r (ap chunk_of h) (q.carries z);
    shut = λ z. absurd (omega (arith, q.shut z, asking-busy r));
    through = q.through;
  }
  FanoutStep-IsForwarding {s} (fails t x after h r) q = record {
    carries = λ z. Carries-same s r (ap chunk_of h) (q.carries z);
    shut = λ z. absurd (omega (arith, q.shut z, asking-busy r));
    through = q.through;
  }
  FanoutStep-IsForwarding {s} (puts c after h r) q = record {
    carries = λ z. Carries-put s r (q.carries z);
    shut = λ z. absurd (omega (arith, q.shut z, holding-busy r));
    through = λ z. absurd (omega (arith, q.shut (q.through z).1, holding-busy r));
  }
  FanoutStep-IsForwarding {s} (closes h k) q = record {
    carries = λ z. Carries-moved s (record s { closed = true }) refl (Perm.refl _) (q.carries z);
    shut = λ z. h;
    through = λ z. ((q.through z).0, refl);
  }
  FanoutStep-IsForwarding {s} (forwards c rest w op' h e done) q = record {
    carries = λ z. Carries-forward s c rest w op' e done (q.carries z);
    shut = q.shut;
    through = λ z. cc (h, z);
  }
  FanoutStep-IsForwarding {s} (breaks c rest w op' r h e done ne) q = record {
    carries = λ z. absurd (broken r ne z);
    shut = q.shut;
    through = λ z. absurd (ne (cc));
  }
  FanoutStep-IsForwarding {s} (finishes h e k) q = record {
    carries = λ z.
        Carries-moved s (record s { handler = some (ok tt) }) refl (Perm.refl _)
          (q.carries (ap is_broken h));
    shut = q.shut;
    through = λ z. (e, k);
  }

  FanoutSteps-IsForwarding :
      {s t : Fanout} {n : ℕ} → FanoutSteps replies s n t → IsForwarding s → IsForwarding t
  FanoutSteps-IsForwarding here q = q
  FanoutSteps-IsForwarding (next r st) q = FanoutStep-IsForwarding st (FanoutSteps-IsForwarding r q)

  fan_out-IsForwarding : IsForwarding (fan_out op)
  unfolding fan_out send_all all_pending
  fan_out-IsForwarding = record {
    carries = λ z. record { sent = []; sent_all = refl; accounted = Perm.refl _ };
    shut = λ z. cc;
    through = λ z. cc;
  }

  -- When the coordinator returns without an error, in whatever order the goroutines ran, it has sent its
  -- client exactly the replies that the other node gave, each once, as the payloads of STREAM frames in
  -- some order, and nothing for a target whose call failed.
  pub coordinator_forwards :
      {s : Fanout} {n : ℕ}
      → FanoutSteps replies (fan_out op) n s
      → s.handler ≡ some (ok tt)
      → (sent : List Bytes) × (send_all op (map stream_frame sent) ≡ ok s.op)
        × Perm sent (all_replies replies targets)
  unfolding all_pending
  coordinator_forwards {s} r done =
      let q = FanoutSteps-IsForwarding r fan_out-IsForwarding in
      let carried = q.carries (ap is_broken done) in
      let (empty, closed) = q.through done in
      let nothing : s.out ++ all_pending s.workers ≡ [] =
        ap (λ (l : List Bytes). l ++ all_pending s.workers) empty
        ∙ none_pending s.workers (q.shut closed) in
      let only : carried.sent ++ (s.out ++ all_pending s.workers) ≡ carried.sent =
        ap (λ (l : List Bytes). carried.sent ++ l) nothing ∙ append-nil carried.sent in
      (
        carried.sent,
        carried.sent_all,
        subst (λ (l : List Bytes). Perm l (all_pending (map asking targets))) only
            carried.accounted,
      )
