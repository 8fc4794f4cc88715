-- ===== src/Node/Dispatch.antt =====
-- From the `Invoke` of a client to the agent of the node.
use aire_go.Base.{
  ◌==◌, ==_iff, Bool-cases, Option-cases, Result-cases, ok, ◌≡◌, refl, sym, subst, ◌⊎◌, inl, inr,
  true, some, arith,
}
use aire_go.Operation.{recv, close, Operation, peer_node_id_of}
use aire_go.Varint.{Bytes}
use aire_go.Frame.{Frame, frame_invoke}
use aire_go.Invoke.{decode_invoke_payload}
use aire_go.Conn.{close_stream}
use aire_go.Node.{Invoke, Agent, Agents, agent_of, dispatch, handle_operation}
use aire_go.Stream.{read_frame}
use aire_go.Operation.Frames.{with_inbox, recv-ok_iff}

-- What an agent is given.
abbrev pub invocation : Operation → Bytes × Bytes × Bytes → Invoke
invocation op (agent_id, op_name, args) = record {
  agent_id = agent_id;
  operation = op_name;
  args = args;
  op = op;
  peer_node_id = peer_node_id_of op;
}

-- The first frame was an INVOKE for an agent of the node, which was run on what it says.
pub record IsDispatched (agents : Agents) (op op' : Operation) : Type 0 where
  pub first : Frame
  pub rest : Bytes
  pub received : read_frame op.stream.inbox ≡ ok (first, rest)
  pub is_invoke : first.type ≡ frame_invoke
  pub own : first.op_id ≡ op.op_id
  pub fields : Bytes × Bytes × Bytes
  pub payload_read : decode_invoke_payload first.payload ≡ ok fields
  pub agent : Agent
  pub known : agent_of fields.0 agents ≡ some agent
  pub result : op' ≡ close (agent (invocation (with_inbox op rest) fields))

-- The operation was closed, and nothing was sent on it.
pub record IsClosed (op op' : Operation) : Type 0 where
  pub silent : op'.stream.outbox ≡ op.stream.outbox
  pub finished : op'.stream.finished ≡ true

close-IsClosed : (op : Operation) (inbox : Bytes) → IsClosed op (close (with_inbox op inbox))
unfolding close close_stream
close-IsClosed op inbox = record { silent = refl; finished = refl }

module _ (agents : Agents) (op op' : Operation) (f : Frame) (rest : Bytes)
    (received : read_frame op.stream.inbox ≡ ok (f, rest)) (own : f.op_id ≡ op.op_id)
    (is_invoke : f.type ≡ frame_invoke) where
  dispatch-cases :
      dispatch agents (with_inbox op rest) f.payload ≡ ok op'
      → IsDispatched agents op op' ⊎ IsClosed op op'
  unfolding dispatch
  dispatch-cases h = elim (Result-cases (decode_invoke_payload f.payload)) [
    | inr (inl (x, a)) ↦
        let same : close (with_inbox op rest) ≡ op' = ground (arith, a, h) in
        inr (subst (IsClosed op) same (close-IsClosed op rest))
    | inr (inr a) ↦ ground (arith, a, h)
    | inl ((agent_id, op_name, args), a) ↦ elim (Option-cases (agent_of agent_id agents)) [
      | inl b ↦
          let same : close (with_inbox op rest) ≡ op' = ground (arith, a, b, h) in
          inr (subst (IsClosed op) same (close-IsClosed op rest))
      | inr (agent, b) ↦
          let same : close (agent (invocation (with_inbox op rest) (agent_id, op_name, args)))
              ≡ op' =
            ground (arith, a, b, h) in
          inl (record {
            first = f;
            rest = rest;
            received = received;
            is_invoke = is_invoke;
            own = own;
            fields = (agent_id, op_name, args);
            payload_read = a;
            agent = agent;
            known = b;
            result = sym same;
          })
    ]
  ]

-- When `handleOperation` returns, either an agent was run or the operation was closed with nothing
-- sent. An agent is run only if the first frame on the operation is an INVOKE with the OpID of the
-- operation, whose payload decodes and names that agent, and it is given the fields of the payload
-- and the NodeID of the connection's handshake; the operation is closed behind it.
pub handle_operation_sound :
    (agents : Agents) (op op' : Operation)
    → handle_operation agents op ≡ ok op'
    → IsDispatched agents op op' ⊎ IsClosed op op'
unfolding handle_operation
handle_operation_sound agents op op' h = elim (Result-cases (recv op)) [
  | inr (inl (x, a)) ↦
      let same : close op ≡ op' = ground (arith, a, h) in
      inr (subst (IsClosed op) same (close-IsClosed op op.stream.inbox))
  | inr (inr a) ↦ ground (arith, a, h)
  | inl ((f, op1), a) ↦
      let (rest, received, own, moved) = (recv-ok_iff op op1 f).0 a in
      elim (Bool-cases (f.type == frame_invoke)) [
        | inr b ↦
            let same : close op1 ≡ op' = ground (arith, a, b, h) in
            inr (subst (IsClosed op) same (rw (sym moved) at (close-IsClosed op rest)))
        | inl b ↦
            let run : dispatch agents op1 f.payload ≡ ok op' = ground (arith, a, b, h) in
            dispatch-cases agents op op' f rest received own ((==_iff _ _).0 b) (rw moved at run)
      ]
]
