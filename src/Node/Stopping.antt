-- ===== src/Node/Stopping.antt =====
-- What `Stop` leaves behind.
use aire_go.Base.{
  if◌then◌else◌, ◌≡◌, refl, sym, ap, ◌∙◌, subst, ◌≢◌, Bool, true, false, Option, none, some, arith,
}
use aire_go.Node.Lifecycle.{
  bind, launch, start_accepting, fork, Steps, cancelling, here, next, StopPhase, Node, listen_begin,
  listen_failed, listen_bound, stop_begin, stop_cancel, close_listener, stop_close, stop_return,
  accept_conn, accept_failed, Step, waiting, returned, register, begin_listen, fail_listen,
  begin_stop, cancel, close_it, return_it, accept_it, end_accepting, end_conn,
}

abbrev is_closed : StopPhase → Bool
is_closed waiting = true
is_closed returned = true
is_closed _ = false

-- A node that is being stopped while no `Listen` is on its way.
record IsQuiet (n : Node) : Type 0 where
  is_stopped : n.stopped ≡ true
  no_binding : n.binding ≡ false
  no_launch : n.launching ≡ false
  shut : is_closed n.stopping ≡ true → n.listener ≢ some true
  idle : n.stopping ≡ returned → (n.accepting ≡ false) × (n.conns ≡ 0)

close_listener-shut : (l : Option Bool) → close_listener l ≢ some true
unfolding close_listener
close_listener-shut none = λ z. cc
close_listener-shut (some b) = λ z. cc

IsQuiet-same :
    (n m : Node)
    → m.stopped ≡ n.stopped
    → m.binding ≡ n.binding
    → m.launching ≡ n.launching
    → m.stopping ≡ n.stopping
    → m.listener ≡ n.listener
    → (m.stopping ≡ returned → (m.accepting ≡ false) × (m.conns ≡ 0))
    → IsQuiet n
    → IsQuiet m
IsQuiet-same n m a b l c d idle q = record {
  is_stopped = a ∙ q.is_stopped;
  no_binding = b ∙ q.no_binding;
  no_launch = l ∙ q.no_launch;
  shut = λ z e. q.shut (ap is_closed (sym c) ∙ z) (sym d ∙ e);
  idle = idle;
}

Step-IsQuiet : {n m : Node} → Step n m → IsQuiet n → IsQuiet m
unfolding listen_begin listen_failed listen_bound start_accepting stop_begin stop_cancel
    close_listener stop_close stop_return accept_conn accept_failed
Step-IsQuiet (register n id a agents h) q = IsQuiet-same n _ refl refl refl refl refl q.idle q
Step-IsQuiet (begin_listen n m h) q = ground (arith, q.is_stopped, h)
Step-IsQuiet (fail_listen n h l) q =
    IsQuiet-same n _ refl (sym q.no_binding) refl refl refl q.idle q
Step-IsQuiet (bind n h l) q = ground (arith, q.no_binding, h)
Step-IsQuiet (launch n h) q = ground (arith, q.no_launch, h)
Step-IsQuiet (begin_stop n) q =
    subst (λ b. IsQuiet (if b then n else record n { stopped = true; stopping = cancelling }))
      (sym q.is_stopped) q
Step-IsQuiet (cancel n h) q = record {
  is_stopped = q.is_stopped;
  no_binding = q.no_binding;
  no_launch = q.no_launch;
  shut = λ z. cc;
  idle = λ z. cc;
}
Step-IsQuiet (close_it n h) q = record {
  is_stopped = q.is_stopped;
  no_binding = q.no_binding;
  no_launch = q.no_launch;
  shut = λ _. close_listener-shut n.listener;
  idle = λ z. cc;
}
Step-IsQuiet (return_it n h a c) q = record {
  is_stopped = q.is_stopped;
  no_binding = q.no_binding;
  no_launch = q.no_launch;
  shut = λ _. q.shut (rw h refl);
  idle = λ _. (a, c);
}
Step-IsQuiet (accept_it n b h l) q =
    IsQuiet-same n _ refl refl refl refl refl (λ z. ground (arith, q.idle z, h)) q
Step-IsQuiet (end_accepting n h) q =
    IsQuiet-same n _ refl refl refl refl refl (λ z. (refl, (q.idle z).1)) q
Step-IsQuiet (fork n k h) q =
    IsQuiet-same n _ refl refl refl refl refl (λ z. ground (arith, q.idle z, h)) q
Step-IsQuiet (end_conn n k h) q =
    IsQuiet-same n _ refl refl refl refl refl (λ z. ground (arith, q.idle z, h)) q

Steps-IsQuiet : {n m : Node} → Steps n m → IsQuiet n → IsQuiet m
Steps-IsQuiet here q = q
Steps-IsQuiet (next r st) q = Step-IsQuiet st (Steps-IsQuiet r q)

begin-IsQuiet :
    (n : Node)
    → n.stopped ≡ false
    → n.binding ≡ false
    → n.launching ≡ false
    → IsQuiet (stop_begin n)
unfolding stop_begin
begin-IsQuiet n going no_listen no_launch =
    rw (going, stop_begin)
      (record {
        is_stopped = refl;
        no_binding = no_listen;
        no_launch = no_launch;
        shut = λ z. cc;
        idle = λ z. cc;
      })

-- A `Stop` of a running node that begins while no call of `Listen` is on its way does what it
-- says: whatever the goroutines do in the meantime and afterwards, once it has returned, the listener is
-- not open, the accept loop has ended and no goroutine of a connection or an operation is
-- left, and it stays so.
pub stop_closes :
    (n m : Node)
    → n.stopped ≡ false
    → n.binding ≡ false
    → n.launching ≡ false
    → Steps (stop_begin n) m
    → m.stopping ≡ returned
    → (m.listener ≢ some true) × (m.accepting ≡ false) × (m.conns ≡ 0)
stop_closes n m going no_listen no_launch r done =
    let q = Steps-IsQuiet r (begin-IsQuiet n going no_listen no_launch) in
    (q.shut (rw done refl), (q.idle done).0, (q.idle done).1)

-- A node whose `Stop` and `Listen` have both returned, and whose listener is open all the same.
pub record IsLeaked (n : Node) : Type 0 where
  pub is_stopped : n.stopped ≡ true
  pub stop_returned : n.stopping ≡ returned
  pub listen_returned : n.binding ≡ false
  pub loop_begun : n.launching ≡ false
  pub still_open : n.listener ≡ some true

IsLeaked-same :
    (n m : Node)
    → m.stopped ≡ n.stopped
    → m.stopping ≡ n.stopping
    → m.binding ≡ n.binding
    → m.launching ≡ n.launching
    → m.listener ≡ n.listener
    → IsLeaked n
    → IsLeaked m
IsLeaked-same n m a b c l d q = record {
  is_stopped = a ∙ q.is_stopped;
  stop_returned = b ∙ q.stop_returned;
  listen_returned = c ∙ q.listen_returned;
  loop_begun = l ∙ q.loop_begun;
  still_open = d ∙ q.still_open;
}

Step-IsLeaked : {n m : Node} → Step n m → IsLeaked n → IsLeaked m
unfolding listen_begin listen_failed listen_bound start_accepting stop_begin stop_cancel stop_close
    stop_return accept_conn accept_failed
Step-IsLeaked (register n id a agents h) q = IsLeaked-same n _ refl refl refl refl refl q
Step-IsLeaked (begin_listen n m h) q = ground (arith, q.is_stopped, h)
Step-IsLeaked (fail_listen n h l) q =
    IsLeaked-same n _ refl refl (sym q.listen_returned) refl refl q
Step-IsLeaked (bind n h l) q = ground (arith, q.listen_returned, h)
Step-IsLeaked (launch n h) q = ground (arith, q.loop_begun, h)
Step-IsLeaked (begin_stop n) q =
    subst (λ b. IsLeaked (if b then n else record n { stopped = true; stopping = cancelling }))
      (sym q.is_stopped) q
Step-IsLeaked (cancel n h) q = ground (arith, q.stop_returned, h)
Step-IsLeaked (close_it n h) q = ground (arith, q.stop_returned, h)
Step-IsLeaked (return_it n h a c) q = IsLeaked-same n _ refl (sym q.stop_returned) refl refl refl q
Step-IsLeaked (accept_it n b h l) q = IsLeaked-same n _ refl refl refl refl refl q
Step-IsLeaked (end_accepting n h) q = IsLeaked-same n _ refl refl refl refl refl q
Step-IsLeaked (fork n k h) q = IsLeaked-same n _ refl refl refl refl refl q
Step-IsLeaked (end_conn n k h) q = IsLeaked-same n _ refl refl refl refl refl q

Steps-IsLeaked : {n m : Node} → Steps n m → IsLeaked n → IsLeaked m
Steps-IsLeaked here q = q
Steps-IsLeaked (next r st) q = Step-IsLeaked st (Steps-IsLeaked r q)

-- Where `Stop` begins while a call of `Listen` is on its way and has not set the listener, with no
-- accept loop and no connection there is, it can return before that: then `Listen` returns without an error, and the
-- listener stays open for good, for `Stop` does nothing a second time.
pub stop_during_listen :
    (n : Node)
    → n.stopped ≡ false
    → n.binding ≡ true
    → n.launching ≡ false
    → n.accepting ≡ false
    → n.conns ≡ 0
    → (m : Node) × Steps n m × IsLeaked m × ((k : Node) → Steps m k → IsLeaked k)
unfolding stop_begin stop_cancel stop_close stop_return listen_bound start_accepting
stop_during_listen n going listening unbound quiet idle =
    let n1 = record n { stopped = true; stopping = cancelling } in
    let first : Steps n n1 =
      subst (λ m. Steps n m) (rw (going, stop_begin) refl) (next here (begin_stop n)) in
    let n2 = stop_cancel n1 in
    let n3 = stop_close n2 in
    let n4 = stop_return n3 in
    let n5 = listen_bound n4 in
    let path =
      next
        (next (next (next first (cancel n1 refl)) (close_it n2 refl))
          (return_it n3 refl quiet idle))
        (bind n4 listening unbound) in
    let n6 = start_accepting n5 in
    let launched : Steps n n6 = next path (launch n5 refl) in
    let leaked : IsLeaked n6 = record {
      is_stopped = refl;
      stop_returned = refl;
      listen_returned = refl;
      loop_begun = refl;
      still_open = refl;
    } in
    (n6, launched, leaked, λ k r. Steps-IsLeaked r leaked)
