-- ===== src/Demo/Streaming.antt =====
-- What the client of `streamAgent` receives.
use aire_go.Base.{
  length, length-append, All-append, Error, Result, Result-cases, wrapf, ok, err, ℕ, zero, suc, ◌+◌,
  ◌-◌, ◌^◌, ◌≤◌, ◌<◌, ◌≡◌, refl, sym, ap, ◌∙◌, subst, ◌⊎◌, inl, inr, Option, none, some, List, [],
  ◌∷◌, map, arith,
}
use aire_go.Base.Int.{pos}
use aire_go.Base.Text.{codes}
use aire_go.Varint.{IsByte, max_varint}
use aire_go.Frame.{Frame}
use aire_go.Digits.Print.{decimal}
use aire_go.Digits.Decimal.{length-decimal, decimal-All}
use aire_go.Stream.Sequence.{IsSendable, send_frame-bytes}
use aire_go.Conn.{send_on}
use aire_go.Operation.{Operation, send}
use aire_go.Operation.Frames.{
  stamp, with_inbox, send_all, recv_all, AllSendable, recv_all-send_all, send_all-bytes,
}
use aire_go.Node.{Invoke}
use aire_go.Demo.Atoi.{atoi-decimal}
use aire_go.Demo.{stream_frame, send_reply, and_then, atoi, token, stream_tokens, stream_agent}

-- Tokens from `i` on.
abbrev pub tokens : ℕ → ℕ → List Frame
tokens i zero = []
tokens i (suc m) = stream_frame (token i) ∷ tokens (i + 1) m

token-IsSendable :
    (op : Operation) (i : ℕ)
    → op.op_id ≤ max_varint
    → i < 2 ^ 63
    → IsSendable (stamp op (stream_frame (token i)))
token-IsSendable op i fits h = record {
  type_byte = omega arith;
  flags_byte = omega arith;
  op_range = fits;
  size_range =
      omega (arith, length-append (codes "token-") (decimal i), length-decimal 18 i (omega arith));
  content_bytes =
      All-append IsByte (codes "token-") (decimal i) (omega arith)
        (decimal-All IsByte (λ d lt. omega arith) i);
}

tokens-AllSendable :
    (op : Operation) (i m : ℕ)
    → op.op_id ≤ max_varint
    → i + m ≤ 2 ^ 63
    → AllSendable op (tokens i m)
tokens-AllSendable op i zero fits h = tt
tokens-AllSendable op i (suc m) fits h =
    (token-IsSendable op i fits (omega arith), tokens-AllSendable op (i + 1) m fits (omega arith))

send-fails :
    (op : Operation) (f : Frame) (x : Error)
    → IsSendable (stamp op f)
    → send (some x) op f ≡ err (wrapf "aire: SendFrame" x)
unfolding send send_on
send-fails op f x s = rw (send_frame-bytes (stamp op f) op.stream.outbox s) refl

-- Whether the loop of the agent ended by itself, or by a `Send` that failed.
abbrev pub Ends : ℕ → ℕ → (ℕ → Option Error) → Type 0
Ends m n write_errors = (m ≡ n) ⊎ ((m < n) × ((x : Error) × (write_errors (m + 1) ≡ some x)))

Ends-le : (m n : ℕ) (write_errors : ℕ → Option Error) → Ends m n write_errors → m ≤ n
Ends-le m n write_errors (inl e) = omega arith
Ends-le m n write_errors (inr (less, w)) = omega arith

abbrev pub NoError : (ℕ → Option Error) → ℕ → ℕ → Type 0
NoError write_errors i m = (k : ℕ) → i ≤ k → k < i + m → write_errors k ≡ none

module _ (write_errors : ℕ → Option Error) where
  sent-reply :
      (i : ℕ) (op op' : Operation)
      → write_errors i ≡ none
      → send none op (stream_frame (token i)) ≡ ok op'
      → send_reply (write_errors i) op (token i) ≡ (op', ok tt)
  unfolding send_reply
  sent-reply i op op' e s = rw (e, s, send_reply) refl

  -- `m` rounds of the loop, none of whose writes fails.
  stream_tokens-rounds :
      (rounds m i : ℕ) (op op' : Operation)
      → NoError write_errors i m
      → send_all op (tokens i m) ≡ ok op'
      → stream_tokens write_errors (m + rounds) i op ≡ stream_tokens write_errors rounds (i + m) op'
  unfolding stream_tokens send_all
  stream_tokens-rounds rounds zero i op op' fine e =
      let same : op ≡ op' = ground (arith, e) in
      let none_yet : zero + rounds ≡ rounds = omega arith in
      let here : i ≡ i + zero = omega arith in
      ap (λ (k : ℕ). stream_tokens write_errors k i op) none_yet
      ∙ ap (λ (k : ℕ). stream_tokens write_errors rounds k op) here
      ∙ ap (λ (o : Operation). stream_tokens write_errors rounds (i + zero) o) same
  stream_tokens-rounds rounds (suc m) i op op' fine e =
      elim (Result-cases (send none op (stream_frame (token i)))) [
        | inr (inl (x, a)) ↦ ground (arith, a)
        | inr (inr a) ↦ ground (arith, a)
        | inl (op1, a) ↦
            let others : send_all op1 (tokens (i + 1) m) ≡ ok op' = rw (a, send_all) at e in
            let sent = sent-reply i op op1 (fine i (omega arith) (omega arith)) a in
            let one_more : suc m + rounds ≡ suc (m + rounds) = omega arith in
            let next : i + 1 + m ≡ i + suc m = omega arith in
            ap (λ (k : ℕ). stream_tokens write_errors k i op) one_more
            ∙ ap
                (λ (r : Operation × Result (Unit {0})).
                  and_then r (λ o. stream_tokens write_errors (m + rounds) (i + 1) o))
                sent
            ∙ stream_tokens-rounds rounds m (i + 1) op1 op'
                (λ k l h. fine k (omega arith) (omega arith)) others
            ∙ ap (λ (k : ℕ). stream_tokens write_errors rounds k op') next
      ]

  failed-reply :
      (i : ℕ) (op : Operation) (x : Error)
      → IsSendable (stamp op (stream_frame (token i)))
      → write_errors i ≡ some x
      → send_reply (write_errors i) op (token i) ≡ (op, err (wrapf "aire: SendFrame" x))
  unfolding send_reply
  failed-reply i op x s e = rw (e, send-fails op (stream_frame (token i)) x s, send_reply) refl

  -- The next write fails.
  stream_tokens-fails :
      (rounds i : ℕ) (op : Operation) (x : Error)
      → IsSendable (stamp op (stream_frame (token i)))
      → write_errors i ≡ some x
      → stream_tokens write_errors (suc rounds) i op ≡ (op, err (wrapf "aire: SendFrame" x))
  unfolding stream_tokens
  stream_tokens-fails rounds i op x s e =
      ap
        (λ (r : Operation × Result (Unit {0})).
          and_then r (λ o. stream_tokens write_errors rounds (i + 1) o))
        (failed-reply i op x s e)

  -- The token that the agent was to send next.
  abbrev Left : ℕ → ℕ → Operation × Result (Unit {0}) → Operation → Type 0
  Left m n r op' =
      (r.0 ≡ op') × (((m ≡ n) × (r.1 ≡ ok tt)) ⊎ ((m < n) × ((x : Error) × (r.1 ≡ err x))))

  stream_tokens-Left :
      (n m : ℕ) (op op' : Operation)
      → n < 2 ^ 63
      → op'.op_id ≤ max_varint
      → NoError write_errors 1 m
      → Ends m n write_errors
      → send_all op (tokens 1 m) ≡ ok op'
      → Left m n (stream_tokens write_errors n 1 op) op'
  unfolding stream_tokens
  stream_tokens-Left n m op op' small fits fine (inl e) sent =
      let all = stream_tokens-rounds 0 m 1 op op' fine sent in
      let rounds : m + 0 ≡ n = omega (arith, e) in
      let ran : stream_tokens write_errors n 1 op ≡ (op', ok tt) =
        ap (λ (k : ℕ). stream_tokens write_errors k 1 op) (sym rounds) ∙ all in
      (
        ap (λ (r : Operation × Result (Unit {0})). r.0) ran,
        inl (e, ap (λ (r : Operation × Result (Unit {0})). r.1) ran),
      )
  stream_tokens-Left n m op op' small fits fine (inr (less, (x, e))) sent =
      let rest = n - m - 1 in
      let all = stream_tokens-rounds (suc rest) m 1 op op' fine sent in
      let rounds : m + suc rest ≡ n = omega (arith, less) in
      let at_next : 1 + m ≡ m + 1 = omega arith in
      let fails =
        stream_tokens-fails rest (m + 1) op' x (token-IsSendable op' (m + 1) fits (omega arith))
          e in
      let ran : stream_tokens write_errors n 1 op ≡ (op', err (wrapf "aire: SendFrame" x)) =
        ap (λ (k : ℕ). stream_tokens write_errors k 1 op) (sym rounds)
        ∙ all
        ∙ ap (λ (k : ℕ). stream_tokens write_errors (suc rest) k op') at_next
        ∙ fails in
      (
        ap (λ (r : Operation × Result (Unit {0})). r.0) ran,
        inr (less, (_, ap (λ (r : Operation × Result (Unit {0})). r.1) ran)),
      )

length-tokens : (i m : ℕ) → length (tokens i m) ≡ m
length-tokens i zero = refl
length-tokens i (suc m) = ap suc (length-tokens (i + 1) m)

send_all-op_id :
    (op op' : Operation) (fs : List Frame)
    → AllSendable op fs
    → send_all op fs ≡ ok op'
    → op.op_id ≡ op'.op_id
send_all-op_id op op' fs h sent = ground (arith, send_all-bytes op fs h, sent)

stream_agent-run :
    (write_errors : ℕ → Option Error) (inv : Invoke) (n : ℕ)
    → atoi inv.args ≡ ok (pos n)
    → stream_agent write_errors inv ≡ stream_tokens write_errors n 1 inv.op
unfolding stream_agent
stream_agent-run write_errors inv n h = rw (h, stream_agent) refl

-- What the client at `q` receives of the agent's tokens, and how the agent ends.
abbrev pub Receives : Operation → Operation → ℕ → ℕ → Operation × Result (Unit {0}) → Type 0
Receives op q m n r =
    (recv_all m (with_inbox q r.0.stream.outbox)
      ≡ ok (map (stamp op) (tokens 1 m), with_inbox q []))
    × (((m ≡ n) × (r.1 ≡ ok tt)) ⊎ ((m < n) × ((x : Error) × (r.1 ≡ err x))))

-- Where the client of `streamAgent` asks for `n` tokens, it receives "token-1" to "token-m" in their order and
-- nothing else, each under the OpID of the operation, where `m` is the number of tokens before the
-- first `Send` whose write fails, or `n` if none fails. The agent ends without an error if it has
-- sent all `n`, and with an error if not. The argument is the number in decimal, below the greatest
-- int, the two ends have one OpID, which a varint holds, and nothing was sent before.
pub stream_agent-tokens :
    (write_errors : ℕ → Option Error) (inv : Invoke) (q : Operation) (n m : ℕ)
    → inv.args ≡ decimal n
    → n + 1 < 2 ^ 63
    → NoError write_errors 1 m
    → Ends m n write_errors
    → inv.op.op_id ≡ q.op_id
    → inv.op.op_id ≤ max_varint
    → inv.op.stream.outbox ≡ []
    → Receives inv.op q m n (stream_agent write_errors inv)
stream_agent-tokens write_errors inv q n m asked small fine ends same fits empty =
    let number : atoi inv.args ≡ ok (pos n) = ap atoi asked ∙ atoi-decimal n (omega arith) in
    let enough : m ≤ n = Ends-le m n write_errors ends in
    let sendable = tokens-AllSendable inv.op 1 m fits (omega arith) in
    let (op', sent, received) = recv_all-send_all inv.op q (tokens 1 m) same empty sendable in
    let id = send_all-op_id inv.op op' (tokens 1 m) sendable sent in
    let (got, ended) =
      stream_tokens-Left write_errors n m inv.op op' (omega arith) (omega (arith, id)) fine ends
        sent in
    let heard =
      ap (λ (o : Operation). recv_all m (with_inbox q o.stream.outbox)) got
      ∙ ap (λ (k : ℕ). recv_all k (with_inbox q op'.stream.outbox)) (sym (length-tokens 1 m))
      ∙ received in
    subst (Receives inv.op q m n) (sym (stream_agent-run write_errors inv n number)) (heard, ended)
