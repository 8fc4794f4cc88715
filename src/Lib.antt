-- ===== src/Lib.antt =====
-- aire-go is the Go reference implementation of AIRE, a protocol for agents over QUIC. A node
-- speaks frames on streams. A frame (frame.go) has a type, flags, an operation's identifier and
-- a payload; its numbers are QUIC varints. A connection begins with an exchange of HELLO frames
-- (handshake.go), whose signature block (identity.go) is verified against a clock and a replay
-- cache, and whose capabilities (capability.go) are negotiated. CANCEL (cancel.go) and BUDGET
-- (budget.go) payloads control a running operation. Streams (conn.go) carry the frames, and an
-- operation (operation.go) is one stream. A node (node.go) listens, and hands each operation
-- that a peer opens to the agent that its INVOKE frame names. A peer's identity is a DID
-- (identity.go), and addressing.go finds the address behind a DID or a handle.
--
-- What models what, by files of this directory:
--
-- - Base: helpers. Base/Results has `Result`, what a Go function ends in (a value, an error or
--   a panic), and the sentinel errors of the package; an error's text is its constant part.
--   Base/Int has int64 and its conversions, Base/Lists slices, Base/Text byte strings.
-- - Varint: frame.go, AppendVarint (`append_varint`) and ReadVarint (`read_varint`).
-- - Frame: frame.go, Encode, AppendEncode and Decode (`encode`, `append_encode`, `decode`).
-- - Strings: handshake.go, appendString and readString.
-- - Stream: conn.go, readFrame, readVarintFrom, SendFrame and RecvFrame (`read_frame`,
--   `read_varint_from`, `send_frame`). A stream is the list of the bytes that are still to
--   come.
-- - Cancel: cancel.go, Cancel, Encode and DecodeCancel; Cancel/Reason has CancelReason.String.
-- - Budget: budget.go, Budget, Encode and DecodeBudget. `Budget.Decode` states it against a
--   specification on lists of entries.
-- - Capability: capability.go, indexCapabilities and NegotiateCapabilities. A map is the list
--   of its values.
-- - CapabilityName: capability.go, ValidateCapabilityName with its helpers, and
--   IsReservedNamespace. CapabilityName/Grammar has the grammar as a predicate.
-- - Signature: identity.go, SignatureBlock, its encoding, DecodeSignatureBlock and
--   signedMessageBytes.
-- - Hello: handshake.go, encodeHelloInner and decodeHelloPayloadV02 (`encode_hello_inner`,
--   `decode_hello_payload`). `alloc_limit` is the number of capabilities that `make` can
--   reserve room for, beyond which it panics.
-- - Handshake: handshake.go, buildSignedHello and runHandshake (`build_signed_hello`,
--   `run_handshake`) for a node whose signer and verifier are set. `accept_hello` is the part
--   behind the first frame of the peer. The random nonce and the clock are arguments.
--   Handshake/Exchange lets two nodes run against each other.
-- - Conn: conn.go and handshake.go, Conn and Conn.Handshake (`handshake`), with the defaults
--   that runHandshake takes for a nil signer or verifier. What quic-go, the random generator
--   and the clock give is an argument. The configuration is passed explicitly, since a
--   handshake changes the caller's verifier. Conn/Meeting joins two connections, each with a
--   did:key.
-- - Operation: operation.go, and Conn.Invoke of node.go (`new_operation`, `accept_operation`,
--   `send`, `recv`, `invoke`).
-- - Node: node.go, RegisterAgent and handleOperation (`register_agent`, `handle_operation`),
--   where an agent is a function from the invocation to what it leaves of the operation.
--   Node/Lifecycle has Listen, Stop and the accept loop, cut where another goroutine may run,
--   and `Step`, one step of one goroutine; the goroutines of connections are counted.
--   Node/Serving has them: `ServerStep` is one step of a node with the state of each connection
--   that it accepted and the operations on it, and each run is a run of `Step`.
-- - Invoke: node.go, encodeInvokePayload and decodeInvokePayload.
-- - Digits, Base58: identity.go, base58btcEncode and base58btcDecode, with the numbers of
--   math/big. The digits of a number are taken with the number itself as fuel, which is enough
--   since each division lowers it.
-- - Keys: identity.go, the multibase form of a public key, MakeDIDKey, ParseDIDKey, DIDKeyVMID
--   and the did:key signer; Keys/ResolveKey has Verifier.ResolveKey. Package crypto/ed25519 is
--   a record of functions, and a result that needs a key to verify what it signs says so.
-- - Runes: Go's conversions between a string and its code points, which cmd/aire-peers uses.
-- - Demo: the agents of cmd/aire-demo and cmd/aire-peers (`stream_agent`, `reverse_agent`,
--   `wordcount_agent`). The outcome of each `Write` is an argument. Demo/Client is the client
--   of cmd/aire-demo (`stream_client`). Demo/Asking has the call of one node's agent by
--   another's, and Demo/Coordinator coordinatorAgent, as steps of its goroutines over the
--   channel between them. The loop that reverses takes the length as fuel, which is enough
--   since each round leaves two code points fewer.
-- - Url: what addressing.go uses of packages net/url and strings; Url/Escape has the
--   percent-encoding of an identifier's parts.
-- - Addressing: addressing.go, the texts and documents; Addressing/Resolve has Resolver.Resolve
--   (`resolve`) and what it calls. The client, the lookup, encoding/json and url.Parse are
--   arguments. Addressing/WebLocation has the layout of did:web identifiers and of the URLs
--   they stand for.
-- - Verifier: identity.go, Verifier and Verify (`verify`). The state is passed explicitly,
--   since the cache changes on error paths too. The clock is an argument in nanoseconds.
--   Verifier/Time has the int64 arithmetic of package time, Verifier/ReplayCache the map of
--   maps.
-- - Examples: tests, and an example for each result.
--
-- A byte is a number, below 256 where a lemma needs it; 64-bit words wrap around where the
-- source lets them. A loop over a counter that the input names is recursion on that counter, so
-- no fuel is needed, but for the digits, the code points of a string, the white space that is
-- trimmed and the loop that reverses: the length or the number is fuel enough, since each round
-- leaves less of it. In Verifier and Handshake the resolution of keys and the Ed25519 check are
-- parameters, which Keys and Conn fill.
--
-- Not modelled: TLS and the QUIC connection itself (conn.go), whose outcomes are arguments;
-- what a failed read or write leaves on a stream; a call that waits and never comes back, since
-- an outcome is an argument and a step of a goroutine is one that happens; contexts and
-- timeouts, but for the one that Stop cancels; locks, where the part under a lock is one step;
-- a handshake and the handling of an operation are one step each among the goroutines of a
-- node; methodOf (addressing.go), which only serves an error text; accessors of addresses and
-- contexts; of the commands under cmd the rest of the main functions, what they print and how
-- long they sleep.
pub mod Base
pub mod Varint
pub mod Strings
pub mod Frame
pub mod Stream
pub mod Cancel
pub mod Budget
pub mod Capability
pub mod Signature
pub mod Verifier
pub mod Hello
pub mod Handshake
pub mod CapabilityName
pub mod Invoke
pub mod Digits
pub mod Base58
pub mod Keys
pub mod Url
pub mod Addressing
pub mod Conn
pub mod Operation
pub mod Node
pub mod Runes
pub mod Demo
mod Examples
