-- ===== src/Node/Serving.antt =====
-- A node together with its connections: `acceptLoop` and `handleConn` of node.go, with the state of each
-- connection and the operations on it.
pub mod Accounts
pub mod Drained
use aire_go.Base.{Error, Result, ok, err, ℕ, suc, ◌-◌, ◌≡◌, Bool, true, some, List, [], ◌∷◌}
use aire_go.Base.Replaced.{Replaced, Removed}
use aire_go.Addressing.{Platform}
use aire_go.Keys.{Ed25519}
use aire_go.Handshake.{HandshakeState}
use aire_go.Conn.{QuicStream, ConnConfig, Conn, Draws, accept_connection, close_conn, handshake}
use aire_go.Operation.{Operation, accept_operation}
use aire_go.Node.{handle_operation}
use aire_go.Node.Lifecycle.{Node, new_node, accept_conn, Step}

-- Where `handleConn` is: in `Handshake`, in its loop, or returned.
pub data ConnPhase : Type 0 where
  shaking serving ended : ConnPhase

-- A connection that was accepted, and its operations: those whose goroutine runs, and those that are
-- done, as they were left.
pub record Handled : Type 0 where
  pub conn : Conn
  pub phase : ConnPhase
  pub running : List Operation
  pub done : List Operation

-- `config` is the node's, with the verifier that its connections share.
pub record Server : Type 0 where
  pub node : Node
  pub config : ConnConfig
  pub handled : List Handled

unfoldable pub new_server : ConnConfig → Server
new_server config = record { node = new_node; config = config; handled = [] }

-- `wg.Add(1)` and `wg.Done()` for a goroutine of a connection or an operation.
unfoldable pub add_one : Node → Node
add_one n = record n { conns = suc n.conns }

unfoldable pub done_one : Node → Node
done_one n = record n { conns = n.conns - 1 }

-- The beginning of `handleConn`, the return from it with the deferred `Close`, an operation accepted, and an
-- operation done.
unfoldable pub enter : Conn → Handled
enter c = record { conn = c; phase = shaking; running = []; done = [] }

unfoldable pub start_serving : Handled → Conn → Handled
start_serving h c = record h { conn = c; phase = serving }

unfoldable pub leave : Handled → Conn → Handled
leave h c = record h { conn = close_conn c; phase = ended }

unfoldable pub begin_operation : Handled → Operation → Handled
begin_operation h op = record h { running = op ∷ h.running }

unfoldable pub end_operation : Handled → List Operation → Operation → Handled
end_operation h rest op = record h { running = rest; done = op ∷ h.done }

module _ (platform : Platform) (e : Ed25519) (alloc_limit : ℕ) where
  -- One step of one goroutine; `apart` is one of the node that concerns no connection. A panic ends
  -- the program, and has no step.
  pub data ServerStep (s : Server) : Server → Type 0 where
    apart :
        (n : Node) → Step s.node n → n.conns ≡ s.node.conns → ServerStep s (record s { node = n })
    accepts :
        (c : Conn) (is_open : Bool)
        → s.node.accepting ≡ true
        → s.node.listener ≡ some is_open
        → accept_connection (ok tt) ≡ ok c
        → ServerStep s (record s { node = accept_conn s.node; handled = enter c ∷ s.handled })
    joins :
        (h : Handled) (d : Draws) (c : Conn) (config : ConnConfig) (state : HandshakeState)
        (after : List Handled)
        → h.phase ≡ shaking
        → handshake platform e alloc_limit h.conn s.config d ≡ (c, config, ok state)
        → Replaced s.handled h (start_serving h c) after
        → ServerStep s (record s { config = config; handled = after })
    refused :
        (h : Handled) (d : Draws) (c : Conn) (config : ConnConfig) (x : Error)
        (after : List Handled)
        → h.phase ≡ shaking
        → handshake platform e alloc_limit h.conn s.config d ≡ (c, config, err x)
        → Replaced s.handled h (leave h c) after
        → ServerStep s (record { node = done_one s.node; config = config; handled = after })
    begins :
        (h : Handled) (q : QuicStream) (op : Operation) (after : List Handled)
        → h.phase ≡ serving
        → accept_operation h.conn (ok q) ≡ ok op
        → Replaced s.handled h (begin_operation h op) after
        → ServerStep s (record s { node = add_one s.node; handled = after })
    leaves :
        (h : Handled) (accepted : Result QuicStream) (x : Error) (after : List Handled)
        → h.phase ≡ serving
        → accept_operation h.conn accepted ≡ err x
        → Replaced s.handled h (leave h h.conn) after
        → ServerStep s (record s { node = done_one s.node; handled = after })
    answers :
        (h : Handled) (op op' : Operation) (rest : List Operation) (after : List Handled)
        → Removed h.running op rest
        → handle_operation s.node.agents op ≡ ok op'
        → Replaced s.handled h (end_operation h rest op') after
        → ServerStep s (record s { node = done_one s.node; handled = after })

  pub data ServerSteps (s : Server) : Server → Type 0 where
    at_rest : ServerSteps s s
    onwards : {t u : Server} → ServerSteps s t → ServerStep t u → ServerSteps s u
