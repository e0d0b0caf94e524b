-- ===== src/Lib.antt =====
-- Verification library of MyOwnMesh, a peer-to-peer mesh daemon written in Rust.
--
-- The parts that are modelled and how they meet:
--
-- Governance.antt, Governance/Quorum.antt, Governance/Log.antt and Governance/MemberLog.antt model
-- crates/myownmesh-core/src/network_state.rs. The signed log of a network is replayed by
-- `verify_log`, which checks each entry's signatures (`verify_transition_signatures`) and its quorum
-- (`verify_quorum`) against the state before it and applies it (`apply_transition`). The member tier
-- is a second log that every owner and controller writes; `member_log_verdict` projects it,
-- `merge_member_logs` joins two copies, `split_member_tier` makes both logs of a legacy one. Ed25519,
-- the payload that is signed and the JSON text of an entry are parameters. A `BTreeMap` is a list of
-- entries in the order of the keys (Base/TreeMap.antt), a string the list of its bytes.
--
-- Connection.antt models the state of one peer link, crates/myownmesh-core/src/engine/connection.rs,
-- with the candidate counts of transport/diag.rs and the feature test of protocol/features.rs. Its
-- counters are natural numbers: wrap-around of a `u32` count is not modelled.
--
-- Reliable.antt models crates/myownmesh-core/src/engine/reliable.rs: the outboxes and receive marks
-- of all peers as one state, a function for each operation, and `step` and `run` for sequences of
-- events. Which frames the transport takes, the random stream number and the time are arguments of
-- the events. The lock is held in one piece by each modelled operation, except that a flush of the
-- source releases it between frames: interleavings inside one flush are not modelled, nor is the
-- wrap-around of the 64-bit sequence number.
--
-- Replay.antt models `ReplayWindow` of crates/myownmesh-core/src/transport/rtp_replay.rs on 16-bit
-- sequence numbers with their wrap-around; the theorems are about the window of 8192 packets that
-- transport/webrtc.rs installs.
--
-- Topology.antt and its children model crates/myownmesh-core/src/topology: the star, the hubs, the
-- ring and the full mesh, and the selector that a configured mode stands for (Topology/Selector.antt),
-- with `pubkey_part` of signing.rs. The eight digest bytes of a rendezvous score are a parameter. The
-- loop of the ring's selection runs on fuel, as many turns as the ring has members.
--
-- Ladder.antt models the two passes of crates/myownmesh-core/src/engine/ladder.rs over the peers: it
-- uses the selector of Topology/Selector.antt and the link state of Connection.antt. Sending the
-- shelve frames, and opening and closing sessions, are results of the passes and not modelled.
--
-- Clock.antt models the clock-skew watch of crates/myownmesh-core/src/engine/heartbeat.rs and the
-- wake detector of engine/wake.rs.
--
-- Governance/Proposals.antt, with Governance/Proposals/Local.antt and Governance/Proposals/Inbound.antt,
-- models the proposals of crates/myownmesh-core/src/engine/governance.rs: what this device does
-- (`propose`, `sign_proposal`, `deny_proposal`, `withdraw_proposal`, `spawn_split`), what messages of
-- peers do (`on_propose`, `on_ack` by its decision, `on_split`), and `try_ratify` up to the end of its
-- write lock, which checks by Governance/Log.antt and Governance/Quorum.antt and writes both logs. The
-- outcome of the custody check and of saving, the clock, random ids and our own signature are arguments.
-- The broadcasts of summaries are not modelled. Governance/Adoption.antt models `adopt_transition_log` up
-- to the end of its write lock, and Roster/Ratified.antt what the roster makes of a ratified transition.
--
-- Custody.antt models the custody lock of crates/myownmesh-core/src/custody.rs, which Custody/Authoring.antt
-- puts in front of `propose` and `sign_proposal`, the two operations that ask it. HMAC, digests and base32 are an interface (`Crypto`).
--
-- Roster.antt models the operations in memory of crates/myownmesh-core/src/roster.rs and the mirror of
-- the signed roles on the roster, `mirror_roles_to_roster` of engine/governance.rs.
--
-- Routing.antt, Routing/Frames.antt and Routing/Sending.antt model
-- crates/myownmesh-core/src/engine/routing.rs: the wrapper of a routed frame and the ring of seen ids,
-- `on_relay_frame`, and `send_routed` and `broadcast_flood`; Routing/Relay.antt models the relay of
-- services/relay.rs. JSON is an interface with the laws of its
-- accessors (`Json`); whether `send_to_peer` succeeds is a function of the peer. The state is held in one
-- piece by a handler; in the source it is released while a frame is delivered or sent.
--
-- Reconcile.antt models crates/myownmesh-core/src/engine/reconcile.rs and all that writes the topology
-- at runtime: the start, the command `SetTopology`, and the ends of `try_ratify` and of
-- `adopt_transition_log`, which it takes from Governance/Adoption.antt. A ratified owner-tier transition is
-- an event of its sequences, the quorum being the matter of Governance/Proposals.antt.
--
-- Policy.antt models the update policy, crates/myownmesh-updater/src/policy.rs.
--
-- MediaQueue.antt models the bounded media queue of crates/myownmesh/src/ipc/media_queue.rs.
--
-- Base.antt and its children hold what the parts share. Tests.antt and its children apply the theorems
-- to concrete inputs.
--
-- Not modelled: the asynchronous driver and the session lifecycle, the handshake, ICE
-- recovery, signaling, services, the command line and the user interface, which are I/O around
-- other libraries or await a model; vendored libraries.
pub mod Base
pub mod Routing
pub mod Custody
pub mod Roster
pub mod Reconcile
pub mod Governance
pub mod Connection
pub mod Reliable
pub mod Replay
pub mod Topology
pub mod Ladder
pub mod Clock
pub mod Policy
pub mod MediaQueue
pub mod Tests
