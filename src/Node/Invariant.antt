-- ===== src/Node/Invariant.antt =====
-- What holds of a node at every moment.
use aire_go.Base.{
  if◌then◌else◌, Bool-cases, ok, ◌≡◌, refl, sym, ◌∙◌, subst, ◌≢◌, inl, inr, Bool, true, false,
  Option, none, some, arith,
}
use aire_go.Node.Lifecycle.{
  bind, launch, start_accepting, fork, here, next, Step, Steps, cancel, StopPhase, Node, new_node,
  listen_begin, listen_failed, listen_bound, stop_begin, stop_cancel, close_listener, stop_close,
  stop_return, accept_conn, accept_failed, not_stopping, cancelling, closing, waiting, returned,
  register, begin_listen, fail_listen, begin_stop, close_it, return_it, accept_it, end_accepting,
  end_conn,
}
use aire_go.Node.{Agents}

-- `Listen` binds one listener at most, and a node without one serves nothing.
pub record IsListening (n : Node) : Type 0 where
  pub unstarted : n.started ≡ false → (n.binding ≡ false) × (n.listener ≡ none)
  pub one_listener : n.binding ≡ true → n.launching ≡ false → n.listener ≡ none
  pub launches : n.launching ≡ true → (n.binding ≡ true) × (n.listener ≢ none)
  pub serves_nothing : n.listener ≡ none → (n.accepting ≡ false) × (n.conns ≡ 0)

-- Only `Stop` cancels, and the phase says whether it was called.
pub record IsStopping (n : Node) : Type 0 where
  pub cancelled_by_stop : n.cancelled ≡ true → n.stopped ≡ true
  pub running : n.stopped ≡ false → n.stopping ≡ not_stopping
  pub called : n.stopped ≡ true → n.stopping ≢ not_stopping

close_listener-none : (l : Option Bool) → close_listener l ≡ none → l ≡ none
unfolding close_listener
close_listener-none none h = refl
close_listener-none (some b) h = cc

abbrev stop_unless : Node → Bool → Node
stop_unless n b = if b then n else record n { stopped = true; stopping = cancelling }

module _ (n : Node) (q : IsListening n) where
  -- The listening side of `n`, under another stopping side.
  IsListening-same :
      (agents : Agents) (b c : Bool) (phase : StopPhase)
      → IsListening (record n { agents = agents; stopped = b; cancelled = c; stopping = phase })
  IsListening-same agents b c phase = record {
    unstarted = q.unstarted;
    one_listener = q.one_listener;
    launches = q.launches;
    serves_nothing = q.serves_nothing;
  }

  begin_listen-IsListening : (m : Node) → listen_begin n ≡ ok m → IsListening m
  unfolding listen_begin
  begin_listen-IsListening m h = elim (Bool-cases n.started) [
    | inl a ↦ ground (arith, a)
    | inr a ↦ elim (Bool-cases n.stopped) [
      | inl b ↦ ground (arith, a, b)
      | inr b ↦
          let same : record n { started = true; binding = true } ≡ m = ground (arith, a, b) in
          subst IsListening same (record {
            unstarted = λ z. cc;
            one_listener = λ _ _. (q.unstarted a).1;
            launches = λ z. (refl, (q.launches z).1);
            serves_nothing = q.serves_nothing;
          })
    ]
  ]

Step-IsListening : {n m : Node} → Step n m → IsListening n → IsListening m
unfolding listen_failed listen_bound start_accepting stop_begin stop_cancel stop_close stop_return
    accept_conn accept_failed
Step-IsListening (register n id a agents h) q =
    IsListening-same n q agents n.stopped n.cancelled n.stopping
Step-IsListening (begin_listen n m h) q = begin_listen-IsListening n q m h
Step-IsListening (fail_listen n h l) q = record {
  unstarted = λ z. (refl, (q.unstarted z).1);
  one_listener = λ z. cc;
  launches = λ z. cc (l, z);
  serves_nothing = q.serves_nothing;
}
Step-IsListening (bind n h l) q = record {
  unstarted = λ z. ground (arith, q.unstarted z, h);
  one_listener = λ _ z. cc;
  launches = λ _. (h, λ z. cc);
  serves_nothing = λ z. cc;
}
Step-IsListening (launch n h) q = record {
  unstarted = λ z. (refl, (q.unstarted z).1);
  one_listener = λ z. cc;
  launches = λ z. cc;
  serves_nothing = λ z. absurd ((q.launches h).1 z);
}
Step-IsListening (begin_stop n) q = elim (Bool-cases n.stopped) [
  | inl a ↦ subst (λ b. IsListening (stop_unless n b)) (sym a) q
  | inr a ↦
      subst (λ b. IsListening (stop_unless n b)) (sym a)
        (IsListening-same n q n.agents true n.cancelled cancelling)
]
Step-IsListening (cancel n h) q = IsListening-same n q n.agents n.stopped true closing
Step-IsListening (close_it n h) q = record {
  unstarted = λ z. ((q.unstarted z).0, rw (q.unstarted z).1 (unfold close_listener in refl));
  one_listener = λ z l. rw (q.one_listener z l) (unfold close_listener in refl);
  launches = λ z. ((q.launches z).0, λ e. (q.launches z).1 (close_listener-none n.listener e));
  serves_nothing = λ z. q.serves_nothing (close_listener-none n.listener z);
}
Step-IsListening (return_it n h a c) q =
    IsListening-same n q n.agents n.stopped n.cancelled returned
Step-IsListening (accept_it n b h l) q = record {
  unstarted = q.unstarted;
  one_listener = q.one_listener;
  launches = q.launches;
  serves_nothing = λ z. ground (arith, l, z);
}
Step-IsListening (end_accepting n h) q = record {
  unstarted = q.unstarted;
  one_listener = q.one_listener;
  launches = q.launches;
  serves_nothing = λ z. (refl, (q.serves_nothing z).1);
}
Step-IsListening (fork n k h) q = record {
  unstarted = q.unstarted;
  one_listener = q.one_listener;
  launches = q.launches;
  serves_nothing = λ z. ground (arith, q.serves_nothing z, h);
}
Step-IsListening (end_conn n k h) q = record {
  unstarted = q.unstarted;
  one_listener = q.one_listener;
  launches = q.launches;
  serves_nothing = λ z. ground (arith, q.serves_nothing z, h);
}

IsStopping-same :
    (n m : Node)
    → m.stopped ≡ n.stopped
    → m.cancelled ≡ n.cancelled
    → m.stopping ≡ n.stopping
    → IsStopping n
    → IsStopping m
IsStopping-same n m a b c q = record {
  cancelled_by_stop = λ z. a ∙ q.cancelled_by_stop (sym b ∙ z);
  running = λ z. c ∙ q.running (sym a ∙ z);
  called = λ z e. q.called (sym a ∙ z) (sym c ∙ e);
}

-- A later phase of a `Stop` that was called.
IsStopping-later :
    (n m : Node) (phase : StopPhase)
    → IsStopping n
    → n.stopping ≢ not_stopping
    → m.stopped ≡ n.stopped
    → m.stopping ≡ phase
    → phase ≢ not_stopping
    → IsStopping m
IsStopping-later n m phase q past a b ne =
    let on : m.stopped ≡ true = elim (Bool-cases n.stopped) [
      | inl t ↦ a ∙ t
      | inr f ↦ absurd (past (q.running f))
    ] in
    record {
      cancelled_by_stop = λ _. on;
      running = λ z. cc (on, z);
      called = λ _ z. ne (sym b ∙ z);
    }

Step-IsStopping : {n m : Node} → Step n m → IsStopping n → IsStopping m
unfolding listen_begin listen_failed listen_bound start_accepting stop_begin stop_cancel stop_close
    stop_return accept_conn accept_failed
Step-IsStopping (register n id a agents h) q = IsStopping-same n _ refl refl refl q
Step-IsStopping (begin_listen n m h) q = elim (Bool-cases n.started) [
  | inl a ↦ ground (arith, a, h)
  | inr a ↦ elim (Bool-cases n.stopped) [
    | inl b ↦ ground (arith, a, b, h)
    | inr b ↦
        let same : record n { started = true; binding = true } ≡ m = ground (arith, a, b, h) in
        subst IsStopping same (IsStopping-same n _ refl refl refl q)
  ]
]
Step-IsStopping (fail_listen n h l) q = IsStopping-same n _ refl refl refl q
Step-IsStopping (bind n h l) q = IsStopping-same n _ refl refl refl q
Step-IsStopping (launch n h) q = IsStopping-same n _ refl refl refl q
Step-IsStopping (begin_stop n) q = elim (Bool-cases n.stopped) [
  | inl a ↦ subst (λ b. IsStopping (stop_unless n b)) (sym a) q
  | inr a ↦
      subst (λ b. IsStopping (stop_unless n b)) (sym a)
        (record { cancelled_by_stop = λ _. refl; running = λ z. cc; called = λ _ z. cc })
]
Step-IsStopping (cancel n h) q = IsStopping-later n _ closing q (λ z. cc (h, z)) refl refl (λ z. cc)
Step-IsStopping (close_it n h) q =
    IsStopping-later n _ waiting q (λ z. cc (h, z)) refl refl (λ z. cc)
Step-IsStopping (return_it n h a c) q =
    IsStopping-later n _ returned q (λ z. cc (h, z)) refl refl (λ z. cc)
Step-IsStopping (accept_it n b h l) q = IsStopping-same n _ refl refl refl q
Step-IsStopping (end_accepting n h) q = IsStopping-same n _ refl refl refl q
Step-IsStopping (fork n k h) q = IsStopping-same n _ refl refl refl q
Step-IsStopping (end_conn n k h) q = IsStopping-same n _ refl refl refl q

-- At every moment of every run of a node, from `NewNode` on: before `Listen` begins nothing is
-- bound, `Listen` binds one listener at most, without a listener there is no accept loop and no
-- connection, the context is cancelled only once `Stop` was called, and a call of `Stop`
-- is on its way or has returned exactly if the node is marked as stopped.
pub Steps-IsConsistent : {n : Node} → Steps new_node n → IsListening n × IsStopping n
unfolding new_node
Steps-IsConsistent here = (
  record {
    unstarted = λ _. (refl, refl);
    one_listener = λ z. cc;
    launches = λ z. cc;
    serves_nothing = λ _. (refl, refl);
  },
  record { cancelled_by_stop = λ z. cc; running = λ _. refl; called = λ z. cc },
)
Steps-IsConsistent (next r st) =
    let (l, s) = Steps-IsConsistent r in (Step-IsListening st l, Step-IsStopping st s)
