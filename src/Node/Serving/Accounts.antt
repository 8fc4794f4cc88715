-- ===== src/Node/Serving/Accounts.antt =====
-- What holds of the connections of a node at every moment, and that the wait group counts their goroutines.
use aire_go.Base.{
  length, All, Result-cases, Option-cases, ok, ℕ, ◌+◌, ◌≤◌, ◌≡◌, refl, sym, ap, ◌∙◌, subst, inl,
  inr, true, some, List, [], arith,
}
use aire_go.Base.Replaced.{
  Replaced, first, later, Removed, All-Replaced, All-at, All-Removed, total, total-Replaced,
  length-Removed,
}
use aire_go.Addressing.{Platform}
use aire_go.Keys.{Ed25519}
use aire_go.Handshake.{HandshakeState}
use aire_go.Conn.{
  QuicStream, ConnConfig, Conn, Draws, close_conn, close_stream, run_with_defaults, handshake,
}
use aire_go.Conn.State.{control_stream, finish_handshake-ok}
use aire_go.Operation.{Operation, peer_node_id_of, accept_operation, accept_stream, close}
use aire_go.Node.{Agents, handle_operation}
use aire_go.Node.Dispatch.{handle_operation_sound}
use aire_go.Node.Lifecycle.{accept_conn}
use aire_go.Node.Serving.{
  ConnPhase, shaking, serving, ended, Handled, Server, add_one, done_one, enter, start_serving,
  leave, begin_operation, end_operation, ServerStep, apart, accepts, joins, refused, begins, leaves,
  answers,
}

-- The goroutines of a connection that have not returned.
abbrev pub of_phase : ConnPhase → ℕ
of_phase shaking = 1
of_phase serving = 1
of_phase ended = 0

abbrev pub live : Handled → ℕ
live h = of_phase h.phase + length h.running

-- The operation belongs to the connection, whose handshake is done, and names its peer.
abbrev pub IsOwn : Conn → Operation → Type 0
IsOwn c op =
    (state : HandshakeState) × (c.state ≡ some state) × (peer_node_id_of op ≡ state.peer_node_id)

abbrev pub IsFinished : Operation → Type 0
IsFinished op = op.stream.finished ≡ true

pub record IsSound (h : Handled) : Type 0 where
  pub unjoined : h.phase ≡ shaking → (h.running ≡ []) × (h.done ≡ [])
  pub joined : h.phase ≡ serving → (state : HandshakeState) × (h.conn.state ≡ some state)
  pub released : h.phase ≡ ended → h.conn.closed ≡ true
  pub own : All (IsOwn h.conn) h.running
  pub finished : All IsFinished h.done

pub record IsAccounted (s : Server) : Type 0 where
  pub counted : s.node.conns ≡ total live s.handled
  pub sound : All IsSound s.handled

accept_operation-IsOwn :
    (c : Conn) (q : QuicStream) (op : Operation) → accept_operation c (ok q) ≡ ok op → IsOwn c op
unfolding accept_operation accept_stream peer_node_id_of
accept_operation-IsOwn c q op h = elim (Option-cases c.state) [
  | inl a ↦ ground (arith, a)
  | inr (state, a) ↦
      let same : record { op_id = q.stream_id; stream = q; conn = some c } ≡ op =
        ground (arith, a) in
      (state, a, rw (sym same) (rw a refl))
]

handle_operation-IsFinished :
    (agents : Agents) (op op' : Operation) → handle_operation agents op ≡ ok op' → IsFinished op'
unfolding close close_stream
handle_operation-IsFinished agents op op' h = elim (handle_operation_sound agents op op' h) [
  | inl d ↦ rw d.result refl
  | inr c ↦ c.finished
]

enter-IsSound : (c : Conn) → IsSound (enter c)
unfolding enter
enter-IsSound c = record {
  unjoined = λ _. (refl, refl);
  joined = λ z. cc;
  released = λ z. cc;
  own = tt;
  finished = tt;
}

module _ (h : Handled) (q : IsSound h) where
  leave-IsSound : IsSound (leave h h.conn)
  unfolding leave close_conn
  leave-IsSound = record {
    unjoined = λ z. cc;
    joined = λ z. cc;
    released = λ _. refl;
    own = q.own;
    finished = q.finished;
  }

  begin_operation-IsSound :
      (op : Operation) → h.phase ≡ serving → IsOwn h.conn op → IsSound (begin_operation h op)
  unfolding begin_operation
  begin_operation-IsSound op on o = record {
    unjoined = λ z. cc (on, z);
    joined = q.joined;
    released = q.released;
    own = (o, q.own);
    finished = q.finished;
  }

  end_operation-IsSound :
      (op op' : Operation) (rest : List Operation)
      → Removed h.running op rest
      → IsFinished op'
      → IsSound (end_operation h rest op')
  unfolding end_operation
  end_operation-IsSound op op' rest r f = record {
    unjoined = λ z. absurd (omega (arith, ap length (q.unjoined z).0, length-Removed r));
    joined = q.joined;
    released = q.released;
    own = (All-Removed (IsOwn h.conn) r q.own).1;
    finished = (f, q.finished);
  }

  module _ (shakes : h.phase ≡ shaking) (c : Conn) where
    -- Nothing has run on a connection whose handshake is not done.
    none_run : (P : Operation → Type 0) → All P h.running
    none_run P = subst (All P) (sym (q.unjoined shakes).0) tt

    refused-IsSound : IsSound (leave h c)
    unfolding leave close_conn
    refused-IsSound = record {
      unjoined = λ z. cc;
      joined = λ z. cc;
      released = λ _. refl;
      own = none_run (IsOwn (close_conn c));
      finished = q.finished;
    }

    start_serving-IsSound :
        (state : HandshakeState) → c.state ≡ some state → IsSound (start_serving h c)
    unfolding start_serving
    start_serving-IsSound state s = record {
      unjoined = λ z. cc;
      joined = λ _. (state, s);
      released = λ z. cc;
      own = none_run (IsOwn c);
      finished = q.finished;
    }

pub handshake-joined :
    (platform : Platform) (e : Ed25519) (alloc_limit : ℕ) (c c' : Conn) (cfg cfg' : ConnConfig)
    (d : Draws) (state : HandshakeState)
    → handshake platform e alloc_limit c cfg d ≡ (c', cfg', ok state)
    → c'.state ≡ some state
unfolding handshake
handshake-joined platform e alloc_limit c c' cfg cfg' d state h = elim (Option-cases c.state) [
  | inr (old, a) ↦ ground (arith, a)
  | inl a ↦ elim (Result-cases (control_stream c d)) [
    | inr (inl (x, b)) ↦ ground (arith, a, b)
    | inr (inr b) ↦ ground (arith, a, b)
    | inl (q, b) ↦
        let ran = run_with_defaults platform e alloc_limit cfg d q in
        let made : c' ≡ record c { ctrl = some ran.0; state = some state } =
          (finish_handshake-ok platform e alloc_limit c c' ran.0 ran.1 cfg' ran.2 state
            (rw (a, b, handshake) at h)).2 in
        ap (λ (k : Conn). k.state) made
  ]
]

-- A live connection is counted.
pub live-le :
    {h h' : Handled} {before after : List Handled}
    → Replaced before h h' after
    → live h ≤ total live before
live-le first = omega arith
live-le (later r) = omega (arith, live-le r)

module _ (platform : Platform) (e : Ed25519) (alloc_limit : ℕ) where
  IsAccounted-after :
      (s t : Server) (h h' : Handled)
      → IsAccounted s
      → Replaced s.handled h h' t.handled
      → t.node.conns + live h ≡ s.node.conns + live h'
      → IsSound h'
      → IsAccounted t
  IsAccounted-after s t h h' q r moved sound = record {
    counted = omega (arith, q.counted, total-Replaced live r, moved);
    sound = All-Replaced IsSound r q.sound sound;
  }

  -- One step of one goroutine keeps the account.
  pub ServerStep-IsAccounted :
      {s t : Server} → ServerStep platform e alloc_limit s t → IsAccounted s → IsAccounted t
  unfolding accept_conn add_one done_one enter start_serving leave begin_operation end_operation
  ServerStep-IsAccounted {s} (apart n st same) q = record {
    counted = same ∙ q.counted;
    sound = q.sound;
  }
  ServerStep-IsAccounted {s} (accepts c is_open on bound k) q = record {
    counted = omega (arith, q.counted);
    sound = (enter-IsSound c, q.sound);
  }
  ServerStep-IsAccounted {s} {t} (joins h d c config state after on shook r) q =
      let sound = All-at IsSound r q.sound in
      IsAccounted-after s t h (start_serving h c) q r (omega (arith, ap of_phase on)) (
        start_serving-IsSound h sound on c state
          (handshake-joined platform e alloc_limit h.conn c s.config config d state shook))
  ServerStep-IsAccounted {s} {t} (refused h d c config x after on shook r) q =
      let sound = All-at IsSound r q.sound in
      IsAccounted-after s t h (leave h c) q r (omega (arith, ap of_phase on, live-le r, q.counted))
        (refused-IsSound h sound on c)
  ServerStep-IsAccounted {s} {t} (begins h stream op after on got r) q =
      let sound = All-at IsSound r q.sound in
      IsAccounted-after s t h (begin_operation h op) q r (omega arith)
        (begin_operation-IsSound h sound op on (accept_operation-IsOwn h.conn stream op got))
  ServerStep-IsAccounted {s} {t} (leaves h accepted x after on got r) q =
      IsAccounted-after s t h (leave h h.conn) q r
        (omega (arith, ap of_phase on, live-le r, q.counted))
        (leave-IsSound h (All-at IsSound r q.sound))
  ServerStep-IsAccounted {s} {t} (answers h op op' rest after picked done r) q =
      IsAccounted-after s t h (end_operation h rest op') q r
        (omega (arith, length-Removed picked, live-le r, q.counted))
        (end_operation-IsSound h (All-at IsSound r q.sound) op op' rest picked
          (handle_operation-IsFinished s.node.agents op op' done))
