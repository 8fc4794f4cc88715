-- ===== src/Demo/Coordinator.antt =====
-- `coordinatorAgent` of cmd/aire-peers: a goroutine for each target, the channel of capacity 2 between
-- them and the handler's loop, and the goroutine that closes the channel.
pub mod Sends
pub mod Forwarding
pub mod Ending
use aire_go.Base.{
  length, Error, Result, ok, err, panic, ℕ, suc, ◌+◌, ◌≤◌, ◌<◌, ◌≡◌, ◌≢◌, Bool, true, false, Option,
  none, some, List, [], ◌∷◌, ◌++◌, map, arith,
}
use aire_go.Base.Text.{codes}
use aire_go.Base.Replaced.{Replaced, first, later, total}
use aire_go.Varint.{Bytes}
use aire_go.Operation.{Operation}
use aire_go.Demo.{send_reply}

-- Where the goroutine of a target is: in `Invoke` and `Recv`, at its send on the channel, or returned.
pub data Worker : Type 0 where
  asking : Bytes → Worker
  holding : Bytes → Worker
  returned : Worker

-- What `wg` counts.
abbrev pub busy : Worker → ℕ
busy (asking t) = 1
busy (holding c) = 1
busy returned = 0

pub holding-busy :
    {c : Bytes} {w : Worker} {before after : List Worker}
    → Replaced before (holding c) w after
    → 1 ≤ total busy before
holding-busy first = omega arith
holding-busy (later p) = omega (arith, holding-busy p)

pub asking-busy :
    {t : Bytes} {w : Worker} {before after : List Worker}
    → Replaced before (asking t) w after
    → 1 ≤ total busy before
asking-busy first = omega arith
asking-busy (later p) = omega (arith, asking-busy p)

-- `out` and `closed` are the channel, `handler` is none in the loop over the channel, and then what the
-- handler returned; `op` is the operation that it sends on.
pub record Fanout : Type 0 where
  pub workers : List Worker
  pub out : List Bytes
  pub closed : Bool
  pub handler : Option (Result (Unit {0}))
  pub op : Operation

abbrev pub capacity : ℕ
capacity = 2

abbrev pub targets : List Bytes
targets = codes "wordcount" ∷ codes "reverse" ∷ []

unfoldable pub fan_out : Operation → Fanout
fan_out op = record {
  workers = map asking targets;
  out = [];
  closed = false;
  handler = none;
  op = op;
}

-- `replies` is what `ask` gives for each target; a call that does not come back has no place here.
module _ (replies : Bytes → Result Bytes) where
  -- One step of one goroutine. A `Send` of the handler ends in an error, which it returns, or in a panic.
  pub data FanoutStep (s : Fanout) : Fanout → Type 0 where
    hears :
        (t c : Bytes) (after : List Worker)
        → replies t ≡ ok c
        → Replaced s.workers (asking t) (holding c) after
        → FanoutStep s (record s { workers = after })
    fails :
        (t : Bytes) (x : Error) (after : List Worker)
        → replies t ≡ err x
        → Replaced s.workers (asking t) returned after
        → FanoutStep s (record s { workers = after })
    puts :
        (c : Bytes) (after : List Worker)
        → length s.out < capacity
        → Replaced s.workers (holding c) returned after
        → FanoutStep s (record s { workers = after; out = s.out ++ c ∷ [] })
    closes : total busy s.workers ≡ 0 → s.closed ≡ false → FanoutStep s (record s { closed = true })
    forwards :
        (c : Bytes) (rest : List Bytes) (write_error : Option Error) (op : Operation)
        → s.handler ≡ none
        → s.out ≡ c ∷ rest
        → send_reply write_error s.op c ≡ (op, ok tt)
        → FanoutStep s (record s { out = rest; op = op })
    breaks :
        (c : Bytes) (rest : List Bytes) (write_error : Option Error) (op : Operation)
        (r : Result (Unit {0}))
        → s.handler ≡ none
        → s.out ≡ c ∷ rest
        → send_reply write_error s.op c ≡ (op, r)
        → r ≢ ok tt
        → FanoutStep s (record s { out = rest; op = op; handler = some r })
    finishes :
        s.handler ≡ none
        → s.out ≡ []
        → s.closed ≡ true
        → FanoutStep s (record s { handler = some (ok tt) })

  -- `FanoutSteps s n t`: from `s` to `t` in `n` steps.
  pub data FanoutSteps (s : Fanout) : ℕ → Fanout → Type 0 where
    here : FanoutSteps s 0 s
    next : {n : ℕ} {t u : Fanout} → FanoutSteps s n t → FanoutStep t u → FanoutSteps s (suc n) u
