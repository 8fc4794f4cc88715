-- ===== src/Examples/Lifecycles.antt =====
-- A node in the middle of `Listen`.
use aire_go.Base.{refl, true}
use aire_go.Node.Lifecycle.{Steps, Node, new_node}
use aire_go.Node.Stopping.{IsLeaked, stop_during_listen}

abbrev while_listening : Node
while_listening = record new_node { started = true; binding = true }

stop_during_listen_example :
    (m : Node) × Steps while_listening m × IsLeaked m × ((k : Node) → Steps m k → IsLeaked k)
unfolding new_node
stop_during_listen_example = stop_during_listen while_listening refl refl refl refl refl
