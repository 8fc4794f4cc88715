-- ===== src/Examples/Coordinators.antt =====
-- A run of the coordinator in which one of the two calls fails.
use mathlib.Core.List.{Perm}
use aire_go.Base.{
  length, Result, message, ok, err, panic, ◌<◌, ◌≤◌, ◌≡◌, refl, ◌⊎◌, ◌≢◌, ◌==◌, if◌then◌else◌, Bool,
  true, false, none, some, List, [], ◌∷◌, map, arith,
}
use aire_go.Base.Replaced.{Replaced, first, later}
use aire_go.Base.Text.{codes}
use aire_go.Varint.{Bytes, append_varint}
use aire_go.Frame.{encode, append_encode}
use aire_go.Stream.{send_frame}
use aire_go.Conn.{send_on}
use aire_go.Operation.{send}
use aire_go.Operation.Frames.{send_all}
use aire_go.Demo.{stream_frame, send_reply}
use aire_go.Demo.Coordinator.{
  Worker, asking, holding, returned, Fanout, capacity, targets, fan_out, FanoutStep, hears, fails,
  puts, closes, forwards, finishes, FanoutSteps, here, next,
}
use aire_go.Demo.Coordinator.Sends.{all_replies}
use aire_go.Demo.Coordinator.Ending.{IsOver, coordinator_ends}
use aire_go.Demo.Coordinator.Forwarding.{coordinator_forwards}
use aire_go.Examples.Running.{server_end}

-- The shorter name is answered.
abbrev one_reply : Bytes → Result Bytes
one_reply t = if length t == 7 then ok (codes "reverse=ba") else err (message "operation closed")

abbrev at_work : List Worker → List Bytes → Bool → Fanout
at_work workers out closed = record {
  workers = workers;
  out = out;
  closed = closed;
  handler = none;
  op = server_end;
}

abbrev both_ask : Fanout
both_ask = at_work (asking (codes "wordcount") ∷ asking (codes "reverse") ∷ []) [] false

abbrev one_holds : Fanout
one_holds = at_work (asking (codes "wordcount") ∷ holding (codes "reverse=ba") ∷ []) [] false

abbrev one_failed : Fanout
one_failed = at_work (returned ∷ holding (codes "reverse=ba") ∷ []) [] false

abbrev both_back : Bool → Fanout
both_back closed = at_work (returned ∷ returned ∷ []) (codes "reverse=ba" ∷ []) closed

abbrev forwarded : Fanout
forwarded = record (both_back true) {
  out = [];
  op = (send_reply none server_end (codes "reverse=ba")).0;
}

abbrev finished : Fanout
finished = record forwarded { handler = some (ok tt) }

runs_on : FanoutSteps one_reply (fan_out server_end) 3 (both_back false)
unfolding fan_out
runs_on =
    next {t = one_failed}
      (next {t = one_holds}
        (next {t = both_ask} here
          (hears (codes "reverse") (codes "reverse=ba") one_holds.workers refl (later first)))
        (fails (codes "wordcount") (message "operation closed") one_failed.workers refl first))
      (puts (codes "reverse=ba") (returned ∷ returned ∷ []) (omega arith) (later first))

runs_out : FanoutSteps one_reply (fan_out server_end) 6 finished
unfolding send_reply send send_on send_frame encode append_encode append_varint
runs_out =
    next {t = forwarded}
      (next {t = both_back true} (next {t = both_back false} runs_on (closes refl refl))
        (forwards (codes "reverse=ba") [] none forwarded.op refl refl refl))
      (finishes refl refl refl)

calm : (t : Bytes) → one_reply t ≢ panic
calm t e = ground (arith, e)

coordinator_ends_example :
    (3 ≤ 8)
    × (IsOver (both_back false) ⊎ ((t : Fanout) × FanoutStep one_reply (both_back false) t))
    × ((c : Bytes) (w : Worker) (after : List Worker)
        → Replaced (both_back false).workers (holding c) w after
        → length (both_back false).out < capacity)
coordinator_ends_example = coordinator_ends one_reply server_end calm runs_on

coordinator_forwards_example :
    (sent : List Bytes) × (send_all server_end (map stream_frame sent) ≡ ok finished.op)
    × Perm sent (all_replies one_reply targets)
coordinator_forwards_example = coordinator_forwards one_reply server_end runs_out refl
