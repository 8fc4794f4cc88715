-- ===== src/Node/Agents.antt =====
-- Which agents a node knows.
use aire_go.Base.{
  if◌then◌else◌, Option-cases, ok, ◌≡◌, refl, sym, ◌≢◌, inl, inr, Option, none, some, [], ◌∷◌,
  arith,
}
use aire_go.Varint.{Bytes}
use aire_go.Node.{Agent, Agents, agent_of, register_agent}
use aire_go.Base.Text.{bytes_eq}

-- What follows a successful `RegisterAgent`.
pub record IsRegistered (agents agents' : Agents) (id : Bytes) (a : Option Agent) : Type 0 where
  pub some_id : id ≢ []
  pub not_nil : a ≢ none
  pub was_free : agent_of id agents ≡ none
  pub now : (x : Bytes) → agent_of x agents' ≡ (if bytes_eq id x then a else agent_of x agents)

agent_of-cons :
    (agents : Agents) (id : Bytes) (agent : Agent) (x : Bytes)
    → agent_of x ((id, agent) ∷ agents) ≡ (if bytes_eq id x then some agent else agent_of x agents)
unfolding agent_of
agent_of-cons agents id agent x = refl

-- `RegisterAgent` succeeds only for an ID that is not empty, an agent that is not nil, and an ID that
-- no agent had; afterwards that ID has the agent, and every other ID the agent it had.
pub register_agent-IsRegistered :
    (agents agents' : Agents) (id : Bytes) (a : Option Agent)
    → register_agent agents id a ≡ ok agents'
    → IsRegistered agents agents' id a
unfolding register_agent
register_agent-IsRegistered agents agents' [] none h = ground arith
register_agent-IsRegistered agents agents' [] (some agent) h = ground arith
register_agent-IsRegistered agents agents' (c ∷ id) none h = ground arith
register_agent-IsRegistered agents agents' (c ∷ id) (some agent) h =
    elim (Option-cases (agent_of (c ∷ id) agents)) [
      | inr (old, a) ↦ ground (arith, a)
      | inl a ↦
          let whole : ((c ∷ id, agent) ∷ agents) ≡ agents' = ground (arith, a) in
          record {
            some_id = λ z. cc;
            not_nil = λ z. cc;
            was_free = a;
            now = λ x. rw (sym whole) (agent_of-cons agents (c ∷ id) agent x);
          }
    ]
