-- ===== src/Examples.antt =====
-- Concrete runs of the code, and the theorems at concrete inputs.
mod Resolving
mod Keyed
mod Connections
mod Running
mod Lifecycles
mod Wire
mod Payloads
mod Peers
mod Signatures
mod Meetings
mod Servers
mod Demos
mod Coordinators
mod Nodes
mod Hellos
mod Layouts
mod Names
mod Invocations
