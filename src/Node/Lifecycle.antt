-- ===== src/Node/Lifecycle.antt =====
-- A `Node` of node.go from `NewNode` to `Stop`: what each part of its methods does, between two points
-- where another goroutine may run, and the steps that are possible.
use aire_go.Base.{
  if◌then◌else◌, Result, message, ok, err, ℕ, suc, Bool, false, true, Option, none, some, [], ◌≡◌,
}
use aire_go.Varint.{Bytes}
use aire_go.Node.{Agent, Agents, register_agent}

-- Where the call of `Stop` is that found the node not stopped: none yet, before `cancel`, before the
-- listener is closed, in `wg.Wait`, or returned.
pub data StopPhase : Type 0 where
  not_stopping cancelling closing waiting returned : StopPhase

-- `binding` says that a call of `Listen` is behind its guards and has not returned, `launching`, that
-- this call has set the field `listener` and has not yet begun the accept loop. `listener` is
-- the field, with whether the listener is open, `cancelled` says that the context is cancelled.
-- The wait group counts the accept loop, and `conns`, the goroutines of connections and operations.
pub record Node : Type 0 where
  pub agents : Agents
  pub started : Bool
  pub stopped : Bool
  pub binding : Bool
  pub launching : Bool
  pub listener : Option Bool
  pub cancelled : Bool
  pub accepting : Bool
  pub conns : ℕ
  pub stopping : StopPhase

unfoldable pub new_node : Node
new_node = record {
  agents = [];
  started = false;
  stopped = false;
  binding = false;
  launching = false;
  listener = none;
  cancelled = false;
  accepting = false;
  conns = 0;
  stopping = not_stopping;
}

-- `Listen` up to the call of the package's `Listen`.
unfoldable pub listen_begin : Node → Result Node
listen_begin n =
    if n.started
    then err (message "aire: Listen: already started")
    else if n.stopped
    then err (message "aire: Listen: node already stopped")
    else ok (record n { started = true; binding = true })

-- The rest of `Listen`: an error is returned as it is.
unfoldable pub listen_failed : Node → Node
listen_failed n = record n { binding = false }

unfoldable pub listen_bound : Node → Node
listen_bound n = record n { launching = true; listener = some true }

-- `wg.Add(1)` and `go n.acceptLoop()`, and the return of `Listen`.
unfoldable pub start_accepting : Node → Node
start_accepting n = record n { binding = false; launching = false; accepting = true }

-- `Stop`: under the lock, `cancel`, `Close` of the listener if there is one, and the return.
unfoldable pub stop_begin : Node → Node
stop_begin n = if n.stopped then n else record n { stopped = true; stopping = cancelling }

unfoldable pub stop_cancel : Node → Node
stop_cancel n = record n { cancelled = true; stopping = closing }

unfoldable pub close_listener : Option Bool → Option Bool
close_listener none = none
close_listener (some _) = some false

unfoldable pub stop_close : Node → Node
stop_close n = record n { listener = close_listener n.listener; stopping = waiting }

unfoldable pub stop_return : Node → Node
stop_return n = record n { stopping = returned }

-- The accept loop, for a connection and for an error; and a goroutine of a connection, which may
-- begin one for an operation, or end.
unfoldable pub accept_conn : Node → Node
accept_conn n = record n { conns = suc n.conns }

unfoldable pub accept_failed : Node → Node
accept_failed n = record n { accepting = false }

-- One step of one goroutine. The accept loop and a goroutine of a connection may end at every moment, since the
-- calls that they wait for may fail for reasons of their own; and a listener may still hand out a
-- connection that it had before it was closed.
pub data Step : Node → Node → Type 0 where
  register :
      (n : Node) (id : Bytes) (a : Option Agent) (agents : Agents)
      → register_agent n.agents id a ≡ ok agents
      → Step n (record n { agents = agents })
  begin_listen : (n m : Node) → listen_begin n ≡ ok m → Step n m
  fail_listen : (n : Node) → n.binding ≡ true → n.launching ≡ false → Step n (listen_failed n)
  bind : (n : Node) → n.binding ≡ true → n.launching ≡ false → Step n (listen_bound n)
  launch : (n : Node) → n.launching ≡ true → Step n (start_accepting n)
  begin_stop : (n : Node) → Step n (stop_begin n)
  cancel : (n : Node) → n.stopping ≡ cancelling → Step n (stop_cancel n)
  close_it : (n : Node) → n.stopping ≡ closing → Step n (stop_close n)
  return_it :
      (n : Node) → n.stopping ≡ waiting → n.accepting ≡ false → n.conns ≡ 0 → Step n (stop_return n)
  accept_it :
      (n : Node) (is_open : Bool)
      → n.accepting ≡ true
      → n.listener ≡ some is_open
      → Step n (accept_conn n)
  end_accepting : (n : Node) → n.accepting ≡ true → Step n (accept_failed n)
  fork : (n : Node) (k : ℕ) → n.conns ≡ suc k → Step n (record n { conns = suc n.conns })
  end_conn : (n : Node) (k : ℕ) → n.conns ≡ suc k → Step n (record n { conns = k })

pub data Steps (n : Node) : Node → Type 0 where
  here : Steps n n
  next : {m k : Node} → Steps n m → Step m k → Steps n k
