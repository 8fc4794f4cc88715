-- ===== src/Demo/Coordinator/Ending.antt =====
-- That the coordinator and its goroutines come to an end.
use aire_go.Base.{
  Bool-cases, Option-cases, length, length-append, Result, Result-cases, err, panic, ℕ, ◌+◌, ◌≤◌,
  ◌<◌, ◌≡◌, refl, ap, ◌≢◌, ◌⊎◌, inl, inr, Bool, true, false, Option, none, some, List, [], ◌∷◌,
  arith,
}
use aire_go.Base.Replaced.{Replaced, first, later, total, total-Replaced}
use aire_go.Varint.{Bytes}
use aire_go.Operation.{Operation}
use aire_go.Demo.{send_reply}
use aire_go.Demo.Coordinator.{
  Worker, asking, holding, returned, busy, holding-busy, Fanout, capacity, fan_out, FanoutStep,
  hears, fails, puts, closes, forwards, breaks, finishes, FanoutSteps, here, next,
}

-- Each goroutine that has not returned has its place in the channel.
abbrev IsRoomy : Fanout → Type 0
IsRoomy s = length s.out + total busy s.workers ≤ capacity

-- The goroutines have returned, the channel is closed and the handler has ended.
pub record IsOver (s : Fanout) : Type 0 where
  pub all_returned : total busy s.workers ≡ 0
  pub channel_closed : s.closed ≡ true
  pub handler_ended : s.handler ≢ none

-- The steps that are left at most.
abbrev work : Worker → ℕ
work (asking t) = 3
work (holding c) = 2
work returned = 0

abbrev if_open : Bool → ℕ
if_open true = 0
if_open false = 1

abbrev if_looping : Option (Result (Unit {0})) → ℕ
if_looping none = 1
if_looping (some r) = 0

abbrev steps_left : Fanout → ℕ
steps_left s = total work s.workers + (length s.out + (if_open s.closed + if_looping s.handler))

-- A worker that is busy, if there is one, can be replaced where it stands.
busy_one :
    (ws : List Worker)
    → (total busy ws ≡ 0)
      ⊎ ((w : Worker) × (busy w ≡ 1)
          × ((y : Worker) → (after : List Worker) × Replaced ws w y after))
busy_one [] = inl refl
busy_one (asking t ∷ ws) = inr (asking t, refl, λ y. (y ∷ ws, first))
busy_one (holding c ∷ ws) = inr (holding c, refl, λ y. (y ∷ ws, first))
busy_one (returned ∷ ws) = elim (busy_one ws) [
  | inl z ↦ inl (omega (arith, z))
  | inr (w, one, place) ↦ inr (w, one, λ y. let (after, r) = place y in (returned ∷ after, later r))
]

List-cases : {A : Type 0} (l : List A) → (l ≡ []) ⊎ ((x : A) × (xs : List A) × (l ≡ x ∷ xs))
List-cases [] = inl refl
List-cases (x ∷ xs) = inr (x, xs, refl)

module _ (replies : Bytes → Result Bytes) where
  FanoutStep-IsRoomy : {s t : Fanout} → FanoutStep replies s t → IsRoomy s → IsRoomy t
  FanoutStep-IsRoomy (hears t c after h r) q = omega (arith, q, total-Replaced busy r)
  FanoutStep-IsRoomy (fails t x after h r) q = omega (arith, q, total-Replaced busy r)
  FanoutStep-IsRoomy {s} (puts c after h r) q =
      omega (arith, q, total-Replaced busy r, length-append s.out (c ∷ []))
  FanoutStep-IsRoomy (closes h k) q = q
  FanoutStep-IsRoomy (forwards c rest w op h e sent) q = omega (arith, q, ap length e)
  FanoutStep-IsRoomy (breaks c rest w op r h e sent ne) q = omega (arith, q, ap length e)
  FanoutStep-IsRoomy (finishes h e k) q = q

  FanoutStep-steps_left : {s t : Fanout} → FanoutStep replies s t → steps_left t + 1 ≤ steps_left s
  FanoutStep-steps_left (hears t c after h r) = omega (arith, total-Replaced work r)
  FanoutStep-steps_left (fails t x after h r) = omega (arith, total-Replaced work r)
  FanoutStep-steps_left {s} (puts c after h r) =
      omega (arith, total-Replaced work r, length-append s.out (c ∷ []))
  FanoutStep-steps_left (closes h k) = omega (arith, ap if_open k)
  FanoutStep-steps_left (forwards c rest w op h e sent) = omega (arith, ap length e)
  FanoutStep-steps_left (breaks c rest w op r h e sent ne) =
      omega (arith, ap length e, ap if_looping h)
  FanoutStep-steps_left (finishes h e k) = omega (arith, ap if_looping h)

  busy_step :
      (s : Fanout) (w : Worker)
      → ((t : Bytes) → replies t ≢ panic)
      → busy w ≡ 1
      → ((y : Worker) → (after : List Worker) × Replaced s.workers w y after)
      → IsRoomy s
      → (t : Fanout) × FanoutStep replies s t
  busy_step s (asking t) calm one place q = elim (Result-cases (replies t)) [
    | inl (c, e) ↦ let (after, r) = place (holding c) in (_, hears t c after e r)
    | inr (inl (x, e)) ↦ let (after, r) = place returned in (_, fails t x after e r)
    | inr (inr e) ↦ absurd (calm t e)
  ]
  busy_step s (holding c) calm one place q =
      let (after, r) = place returned in
      (_, puts c after (omega (arith, q, total-Replaced busy r)) r)
  busy_step s returned calm one place q = absurd (omega arith)

  handler_step :
      (s : Fanout) → s.closed ≡ true → s.handler ≡ none → (t : Fanout) × FanoutStep replies s t
  handler_step s shut looping = elim (List-cases s.out) [
    | inl e ↦ (_, finishes looping e shut)
    | inr (c, rest, e) ↦
        let sent = send_reply none s.op c in
        elim (Result-cases sent.1) [
          | inl (u, k) ↦ (
            _,
            forwards c rest none sent.0 looping e (ap (λ (r : Result (Unit {0})). (sent.0, r)) k),
          )
          | inr (inl (x, k)) ↦ (
            _,
            breaks c rest none sent.0 (err x) looping e
                (ap (λ (r : Result (Unit {0})). (sent.0, r)) k) (λ z. cc),
          )
          | inr (inr k) ↦ (
            _,
            breaks c rest none sent.0 panic looping e
                (ap (λ (r : Result (Unit {0})). (sent.0, r)) k) (λ z. cc),
          )
        ]
  ]

  IsOver-or_on :
      (s : Fanout)
      → ((t : Bytes) → replies t ≢ panic)
      → IsRoomy s
      → IsOver s ⊎ ((t : Fanout) × FanoutStep replies s t)
  IsOver-or_on s calm q = elim (busy_one s.workers) [
    | inr (w, one, place) ↦ inr (busy_step s w calm one place q)
    | inl idle ↦ elim (Bool-cases s.closed) [
      | inr unshut ↦ inr (_, closes idle unshut)
      | inl shut ↦ elim (Option-cases s.handler) [
        | inl looping ↦ inr (handler_step s shut looping)
        | inr (r, e) ↦
            inl (record {
              all_returned = idle;
              channel_closed = shut;
              handler_ended = λ z. cc (e, z);
            })
      ]
    ]
  ]

  FanoutSteps-IsRoomy :
      {s t : Fanout} {n : ℕ}
      → FanoutSteps replies s n t
      → IsRoomy s
      → IsRoomy t × (n + steps_left t ≤ steps_left s)
  FanoutSteps-IsRoomy here q = (q, omega arith)
  FanoutSteps-IsRoomy (next r st) q =
      let (q', left) = FanoutSteps-IsRoomy r q in
      (FanoutStep-IsRoomy st q', omega (arith, left, FanoutStep-steps_left st))

  -- The coordinator ends, with all its goroutines, in whatever order they run: from its beginning on there are
  -- at most 8 steps; as long as it is not over, with all goroutines returned, the channel closed and
  -- the handler ended, some goroutine can go on; and a goroutine at its send on the channel finds
  -- room, also where the handler has returned and nobody receives. No call to the other node panics.
  pub coordinator_ends :
      (op : Operation) {s : Fanout} {n : ℕ}
      → ((t : Bytes) → replies t ≢ panic)
      → FanoutSteps replies (fan_out op) n s
      → (n ≤ 8)
        × (IsOver s ⊎ ((t : Fanout) × FanoutStep replies s t))
        × ((c : Bytes) (w : Worker) (after : List Worker)
            → Replaced s.workers (holding c) w after
            → length s.out < capacity)
  unfolding fan_out
  coordinator_ends op {s} calm r =
      let (q, left) = FanoutSteps-IsRoomy r (omega arith) in
      (
        omega (arith, left),
        IsOver-or_on s calm q,
        λ c w after place. omega (arith, q, holding-busy place),
      )
