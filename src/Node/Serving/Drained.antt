-- ===== src/Node/Serving/Drained.antt =====
-- The connections of a node and its life: runs of one are runs of the other, and what `Stop` waits for.
use aire_go.Base.{
  Bool-cases, inl, inr, length, All, ℕ, ◌-◌, ◌≤◌, ◌≢◌, ◌≡◌, refl, sym, ap, ◌∙◌, false, true, some,
  List, [], ◌∷◌, arith,
}
use aire_go.Base.Replaced.{total, length-Removed}
use aire_go.Addressing.{Platform}
use aire_go.Keys.{Ed25519}
use aire_go.Conn.{ConnConfig}
use aire_go.Node.Lifecycle.{
  Node, new_node, accept_conn, stop_begin, Step, Steps, here, next, accept_it, begin_stop, fork,
  end_conn, returned,
}
use aire_go.Node.Invariant.{IsListening, IsStopping, Steps-IsConsistent}
use aire_go.Node.Stopping.{stop_closes}
use aire_go.Node.Serving.{
  ConnPhase, shaking, serving, ended, Handled, Server, new_server, add_one, done_one, ServerStep,
  apart, accepts, joins, refused, begins, leaves, answers, ServerSteps, at_rest, onwards,
}
use aire_go.Node.Serving.Accounts.{
  live, live-le, of_phase, IsSound, IsFinished, IsAccounted, ServerStep-IsAccounted,
}

-- The end of a goroutine that is counted.
done_one-Step : (n : Node) → 1 ≤ n.conns → Step n (done_one n)
unfolding done_one
done_one-Step n h = end_conn n (n.conns - 1) (omega arith)

fork-Step : (n : Node) → 1 ≤ n.conns → Step n (add_one n)
unfolding add_one
fork-Step n h = fork n (n.conns - 1) (omega arith)

stop_begin-conns : (n : Node) → (stop_begin n).conns ≡ n.conns
unfolding stop_begin
stop_begin-conns n = ground arith

-- The connection is closed, its goroutines have returned, and each of its operations was closed.
pub record IsReleased (h : Handled) : Type 0 where
  pub phase_ended : h.phase ≡ ended
  pub conn_closed : h.conn.closed ≡ true
  pub none_running : h.running ≡ []
  pub all_finished : All IsFinished h.done

empty_of_length : {A : Type 0} (xs : List A) → length xs ≡ 0 → xs ≡ []
empty_of_length [] h = refl
empty_of_length (x ∷ xs) h = absurd (omega arith)

ended_of_live : (p : ConnPhase) → of_phase p ≡ 0 → p ≡ ended
ended_of_live shaking h = absurd (omega arith)
ended_of_live serving h = absurd (omega arith)
ended_of_live ended h = refl

IsSound-IsReleased : (h : Handled) → live h ≡ 0 → IsSound h → IsReleased h
IsSound-IsReleased h idle q =
    let at_end = ended_of_live h.phase (omega (arith, idle)) in
    record {
      phase_ended = at_end;
      conn_closed = q.released at_end;
      none_running = empty_of_length h.running (omega (arith, idle));
      all_finished = q.finished;
    }

All-IsReleased : (hs : List Handled) → total live hs ≡ 0 → All IsSound hs → All IsReleased hs
All-IsReleased [] z q = tt
All-IsReleased (h ∷ hs) z (q, qs) =
    (IsSound-IsReleased h (omega (arith, z)) q, All-IsReleased hs (omega (arith, z)) qs)

module _ (platform : Platform) (e : Ed25519) (alloc_limit : ℕ) where
  ServerStep-Steps :
      {s t : Server} {n : Node}
      → ServerStep platform e alloc_limit s t
      → IsAccounted s
      → Steps n s.node
      → Steps n t.node
  unfolding accept_conn
  ServerStep-Steps (apart n st same) q r = next r st
  ServerStep-Steps {s} (accepts c is_open on bound k) q r =
      next r (accept_it s.node is_open on bound)
  ServerStep-Steps (joins h d c config state after on shook p) q r = r
  ServerStep-Steps {s} (refused h d c config x after on shook p) q r =
      next r (done_one-Step s.node (omega (arith, q.counted, live-le p, ap of_phase on)))
  ServerStep-Steps {s} (begins h stream op after on got p) q r =
      next r (fork-Step s.node (omega (arith, q.counted, live-le p, ap of_phase on)))
  ServerStep-Steps {s} (leaves h accepted x after on got p) q r =
      next r (done_one-Step s.node (omega (arith, q.counted, live-le p, ap of_phase on)))
  ServerStep-Steps {s} (answers h op op' rest after picked done p) q r =
      next r (done_one-Step s.node (omega (arith, q.counted, live-le p, length-Removed picked)))

  ServerSteps-refine :
      {s t : Server}
      → ServerSteps platform e alloc_limit s t
      → IsAccounted s
      → IsAccounted t × Steps s.node t.node
  ServerSteps-refine at_rest q = (q, here)
  ServerSteps-refine (onwards r st) q =
      let (q', steps) = ServerSteps-refine r q in
      (ServerStep-IsAccounted platform e alloc_limit st q', ServerStep-Steps st q' steps)

  -- At every moment of every run of a node with its connections, from `NewNode` on: the run is one of the
  -- node alone; before `Listen` begins nothing is bound, `Listen` binds one listener at most, without a
  -- listener there is no accept loop and no connection, the context is cancelled only once `Stop` was
  -- called, and a call of `Stop` is on its way or has returned exactly if the node is marked as stopped;
  -- and the wait group counts exactly the goroutines of connections and operations that have not
  -- returned. Of each connection: while it is in `Handshake` it has no operation, in its loop its
  -- handshake is done, each operation that runs names the peer of that handshake, the
  -- connection is closed once its goroutine has returned, and every operation that is done was closed.
  pub ServerSteps-IsAccounted :
      (config : ConnConfig) {s : Server}
      → ServerSteps platform e alloc_limit (new_server config) s
      → Steps new_node s.node × IsListening s.node × IsStopping s.node × IsAccounted s
  unfolding new_server new_node
  ServerSteps-IsAccounted config r =
      let (q, steps) = ServerSteps-refine r (record { counted = refl; sound = tt }) in
      let (l, k) = Steps-IsConsistent steps in (steps, l, k, q)

  -- A `Stop` of a running node that begins while no call of `Listen` is on its way does what it says: once it
  -- has returned, after any steps of the goroutines, the listener is not open, the accept loop has
  -- ended, and every connection that the node ever accepted is closed, its goroutine and those of
  -- its operations have returned, and every operation on it was closed.
  pub stop_drains :
      (config : ConnConfig) {s t : Server}
      → ServerSteps platform e alloc_limit (new_server config) s
      → s.node.stopped ≡ false
      → s.node.binding ≡ false
      → ServerSteps platform e alloc_limit (record s { node = stop_begin s.node }) t
      → t.node.stopping ≡ returned
      → (t.node.listener ≢ some true) × (t.node.accepting ≡ false) × All IsReleased t.handled
  stop_drains config {s} {t} r going no_listen r' done =
      let (_, l, _, q) = ServerSteps-IsAccounted config r in
      let no_launch : s.node.launching ≡ false = elim (Bool-cases s.node.launching) [
        | inr f ↦ f
        | inl t ↦ cc ((l.launches t).0, no_listen)
      ] in
      let began : IsAccounted (record s { node = stop_begin s.node }) =
        ServerStep-IsAccounted platform e alloc_limit
          (apart (stop_begin s.node) (begin_stop s.node) (stop_begin-conns s.node)) q in
      let (q', steps) = ServerSteps-refine r' began in
      let (shut, ended_loop, idle) =
        stop_closes s.node t.node going no_listen no_launch steps done in
      (shut, ended_loop, All-IsReleased t.handled (sym q'.counted ∙ idle) q'.sound)
