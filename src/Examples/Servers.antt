-- ===== src/Examples/Servers.antt =====
-- A node with one connection, on which one operation was begun when `Stop` is called.
use aire_go.Base.{
  All, ok, err, message, wrapf, Option, none, ◌≢◌, ◌≡◌, refl, false, true, some, [], ◌∷◌,
}
use aire_go.Base.Replaced.{first, front}
use aire_go.Handshake.{HandshakeState}
use aire_go.Conn.{QuicStream, accept_connection, recv_on}
use aire_go.Operation.{Operation, recv, accept_operation, accept_stream, close}
use aire_go.Stream.{read_frame, read_full}
use aire_go.Node.{handle_operation}
use aire_go.Node.Lifecycle.{
  Node, new_node, Steps, bind, launch, start_accepting, cancel, listen_begin, listen_bound,
  accept_conn, stop_begin, stop_cancel, stop_close, stop_return, accept_failed, begin_listen,
  close_it, return_it, end_accepting,
}
use aire_go.Node.Serving.{
  Handled, Server, new_server, add_one, done_one, enter, start_serving, leave, begin_operation,
  end_operation, apart, accepts, joins, begins, leaves, answers, ServerSteps, at_rest, onwards,
}
use aire_go.Node.Invariant.{IsListening, IsStopping}
use aire_go.Node.Serving.Accounts.{IsAccounted, handshake-joined}
use aire_go.Node.Serving.Drained.{IsReleased, ServerSteps-IsAccounted, stop_drains}
use aire_go.Examples.Resolving.{toy_platform}
use aire_go.Examples.Keyed.{toy_ed25519}
use aire_go.Examples.Connections.{
  fresh_conn, with_verifier, some_draws, carol_state, once, once_accepted,
}

abbrev bound : Node
bound = listen_bound (record new_node { started = true; binding = true })

abbrev listening : Node
listening = start_accepting bound

abbrev with_node : Node → Server
with_node n = record (new_server with_verifier) { node = n }

abbrev joined : Handled
joined = start_serving (enter fresh_conn) once.0

abbrev idle_stream : QuicStream
idle_stream = record { stream_id = 4; inbox = []; outbox = []; finished = false }

abbrev operation : Operation
operation = record { op_id = 4; stream = idle_stream; conn = some once.0 }

abbrev one_operation : Handled
one_operation = begin_operation joined operation

-- The server while the operation runs.
abbrev busy : Server
busy = record {
  node = add_one (accept_conn listening);
  config = once.1;
  handled = one_operation ∷ [];
}

abbrev before_bind : Node
before_bind = record new_node { started = true; binding = true }

abbrev with_conn : Handled → Server
with_conn h = record (with_node (accept_conn listening)) { handled = h ∷ [] }

abbrev Leads : Server → Server → Type 0
Leads = ServerSteps toy_platform toy_ed25519 100

accepts_one : Leads (new_server with_verifier) (with_conn (enter fresh_conn))
unfolding new_server new_node listen_begin listen_bound start_accepting accept_conn
    accept_connection
accepts_one =
    onwards {t = with_node listening}
      (onwards {t = with_node bound}
        (onwards {t = with_node before_bind}
          (onwards at_rest (apart before_bind (begin_listen new_node before_bind refl) refl))
          (apart bound (bind before_bind refl refl) refl))
        (apart listening (launch bound refl) refl))
      (accepts fresh_conn true refl refl refl)

joins_it : Leads (new_server with_verifier) (record (with_conn joined) { config = once.1 })
unfolding new_server enter
joins_it = onwards accepts_one (
    joins (enter fresh_conn) some_draws once.0 once.1 carol_state (joined ∷ []) refl once_accepted
      first)

once-joined : once.0.state ≡ some carol_state
once-joined =
    handshake-joined toy_platform toy_ed25519 100 fresh_conn once.0 with_verifier once.1 some_draws
      carol_state once_accepted

held :
    {A : Type 0} (o : Option HandshakeState) (state : HandshakeState)
    → o ≡ some state
    → (x y : A) → elim o [ none ↦ x | some _ ↦ y ] ≡ y
held o state h x y = rw h refl

accepts_operation : accept_operation once.0 (ok idle_stream) ≡ ok operation
unfolding accept_operation accept_stream
accepts_operation = held once.0.state carol_state once-joined _ _

accepts_no_more :
    accept_operation once.0 (err (message "closed"))
    ≡ err (wrapf "aire: AcceptStream" (message "closed"))
unfolding accept_operation accept_stream
accepts_no_more = held once.0.state carol_state once-joined _ _

becomes_busy : Leads (new_server with_verifier) busy
unfolding add_one start_serving
becomes_busy =
    onwards joins_it
      (begins joined idle_stream operation (one_operation ∷ []) refl accepts_operation first)

ServerSteps-IsAccounted_example :
    Steps new_node busy.node × IsListening busy.node × IsStopping busy.node × IsAccounted busy
ServerSteps-IsAccounted_example =
    ServerSteps-IsAccounted toy_platform toy_ed25519 100 with_verifier becomes_busy

-- The operation is answered and the connection left while `Stop` is on its way.
abbrev stopping : Server
stopping = record busy { node = stop_begin busy.node }

abbrev answered : Handled
answered = end_operation one_operation [] (close operation)

abbrev waiting_node : Node
waiting_node = accept_failed (stop_close (stop_cancel stopping.node))

abbrev stopped_server : Server
stopped_server = record {
  node = stop_return (done_one (done_one waiting_node));
  config = once.1;
  handled = leave answered once.0 ∷ [];
}

is_answered : handle_operation [] operation ≡ ok (close operation)
unfolding handle_operation recv read_frame read_full close recv_on
is_answered = refl

abbrev from_here : Node → Handled → Server
from_here n h = record { node = n; config = once.1; handled = h ∷ [] }

shuts : Leads stopping (from_here waiting_node one_operation)
unfolding new_node listen_bound start_accepting accept_conn add_one stop_begin stop_cancel
    stop_close accept_failed
shuts =
    let closing = stop_cancel stopping.node in
    onwards {t = from_here (stop_close closing) one_operation}
      (onwards {t = from_here closing one_operation}
        (onwards at_rest (apart closing (cancel stopping.node refl) refl))
        (apart (stop_close closing) (close_it closing refl) refl))
      (apart waiting_node (end_accepting (stop_close closing) refl) refl)

drains : Leads stopping stopped_server
unfolding new_node listen_bound start_accepting accept_conn add_one done_one stop_begin stop_cancel
    stop_close accept_failed stop_return start_serving begin_operation end_operation enter
drains =
    let after_one = done_one waiting_node in
    onwards {t = from_here (done_one after_one) (leave answered once.0)}
      (onwards {t = from_here after_one answered}
        (onwards shuts (
          answers one_operation operation (close operation) [] (answered ∷ []) front is_answered
            first))
        (leaves answered (err (message "closed")) (wrapf "aire: AcceptStream" (message "closed"))
          (leave answered once.0 ∷ []) refl accepts_no_more first))
      (apart (stop_return (done_one after_one)) (return_it (done_one after_one) refl refl refl)
        refl)

stop_drains_example :
    (stopped_server.node.listener ≢ some true)
    × (stopped_server.node.accepting ≡ false)
    × All IsReleased stopped_server.handled
unfolding new_node listen_bound start_accepting accept_conn add_one stop_return
stop_drains_example =
    stop_drains toy_platform toy_ed25519 100 with_verifier becomes_busy refl refl drains refl
