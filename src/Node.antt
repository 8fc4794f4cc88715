-- ===== src/Node.antt =====
-- The agents of a `Node`, in node.go, and what it does with an operation that a peer opened. An agent is
-- the application's: it is given the invocation, and what it leaves of the operation is its value.
pub mod Agents
pub mod Dispatch
pub mod Invocation
pub mod Lifecycle
pub mod Stopping
pub mod Invariant
pub mod Serving
use aire_go.Base.{
  ◌==◌, if◌then◌else◌, length, Result, message, ok, err, panic, not, Option, none, some, List, [],
  ◌∷◌,
}
use aire_go.Operation.{recv, close, Operation, peer_node_id_of}
use aire_go.Base.Text.{bytes_eq}
use aire_go.Varint.{Bytes}
use aire_go.Invoke.{decode_invoke_payload}
use aire_go.Frame.{frame_invoke}

pub record Invoke : Type 0 where
  pub agent_id : Bytes
  pub operation : Bytes
  pub args : Bytes
  pub op : Operation
  pub peer_node_id : Bytes

-- `Agent.Handle`; its error is dropped.
abbrev pub Agent : Type 0
Agent = Invoke → Operation

-- The map `agents`; no ID stands in it twice.
abbrev pub Agents : Type 0
Agents = List (Bytes × Agent)

unfoldable pub agent_of : Bytes → Agents → Option Agent
agent_of id [] = none
agent_of id ((x, a) ∷ agents) =
    let rest = agent_of id agents in if bytes_eq x id then some a else rest

-- `RegisterAgent`; the agent may be nil.
unfoldable pub register_agent : Agents → Bytes → Option Agent → Result Agents
register_agent agents id none =
    if length id == 0
    then err (message "aire: RegisterAgent: empty ID")
    else err (message "aire: RegisterAgent: nil Agent")
register_agent agents id (some a) =
    if length id == 0
    then err (message "aire: RegisterAgent: empty ID")
    else elim (agent_of id agents) [
      | some _ ↦ err (message "aire: RegisterAgent: already registered")
      | none ↦ ok ((id, a) ∷ agents)
    ]

-- The part of `handleOperation` behind the check of the frame's type.
unfoldable pub dispatch : Agents → Operation → Bytes → Result Operation
dispatch agents op payload = elim (decode_invoke_payload payload) [
  | err _ ↦ ok (close op)
  | panic ↦ panic
  | ok (agent_id, op_name, args) ↦ elim (agent_of agent_id agents) [
    | none ↦ ok (close op)
    | some agent ↦ ok (
        close (
          agent (record {
            agent_id = agent_id;
            operation = op_name;
            args = args;
            op = op;
            peer_node_id = peer_node_id_of op;
          })))
  ]
]

-- The operation when `handleOperation` returns.
unfoldable pub handle_operation : Agents → Operation → Result Operation
handle_operation agents op = elim (recv op) [
  | err _ ↦ ok (close op)
  | panic ↦ panic
  | ok (f, op') ↦
      if not (f.type == frame_invoke) then ok (close op') else dispatch agents op' f.payload
]
