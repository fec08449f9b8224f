-- ===== src/Lib.antt =====
-- DoomDraft: a collaborative text editor over a replicated log.
--
-- An edit is an operation on a text (pset4/doc_ops.cc). It is stored, written out as text, under a
-- key of its document in a versioned key-value store (pset4/pancydb.cc, pset4/pancy_msgs.hh), and
-- the text of a document is what replaying its operations in the order of their versions gives
-- (pset4/doc_state.cc). Each replica (pset4/pt-paxos.cc) keeps a copy of the store and applies to
-- it the requests of a log, which an elected leader replicates; a slot that a majority holds is
-- committed.
--
-- Base: shared names, Boolean tests, lists over the native numbers, 64-bit words (Base/Words).
-- OrdMap, Keys: std::map as an association list in the order of its keys; byte strings as keys.
-- Decimal: std::to_string, std::format and std::from_chars on unsigned numbers.
-- DocOps: doc_op, apply_op, transform, transform_seq; DocOps/Serial: serialize and deserialize,
--   exceptions as values. DocOps/Convergence, Deletes, Inserts, Diamond, Sequence and RoundTrip
--   hold the proofs.
-- DocState: op_key, parse_op_suffix, read_ops, reconstruct; DocState/Keying, Order,
--   Stored and Replay.
-- Msgs, Db: the requests, and `process` and the direct interface of pancydb; the store is passed
--   along as a value, and a pointer to a cell is the cell together with the write through it. The
--   three answers to a write share one record. Db/Invariant, Refinement and Readback.
--   Db/Diff is `diff`.
-- Editor: the editor of pset4/collab_model.cc; random edits, the answers of the replicas and the
--   leaders they redirect to are inputs.
-- Paxos/State, Log, Role, Leader, Election, Follower, Acks, Run: pt_paxos_replica. A handler takes
--   the replica and gives the next one with the messages it hands to its channels, in order;
--   `run_round` is one round of `run` for one event. A coroutine that awaits a send does not let
--   another handler of the same replica run, because `run` awaits each handler.
-- Paxos/Cluster: pt_paxos_instance as a step relation. Every message ever sent may be delivered
--   any number of times, in any order, or never; fail_replica, recover_replica and the partitions
--   only change losses (Paxos/Links, Paxos/Schedules), so each of their runs is one of these.
-- Paxos/Ballot, Quiet, Moves, Handled, Votes, Elected, Promises, Safety: elections.
--   Paxos/Commit: what is committed. Paxos/Applied and Heartbeat: what is run on the store.
-- ClientModel: the queue of responses that simulated clients share (pset4/client_model.hh).
-- Lockseq: keys and `check` of pset4/lockseq_model.cc; Lockseq/Client: a client, whose four phases
--   are a step relation over the answers it gets.
-- Http: the server of pset4/http_server.cc, which takes operations and cursors of browsers, commits
--   them through the replicas, and sends what was committed to every browser. Http/Text, Json,
--   Registry, Request and Frames: bytes in and out. Http/Cache: per_doc_cache and
--   server_cache_state. Http/Submit: submit_put; what arrives in each try is an input. Http/Handlers:
--   a handler that commits is two functions, before and after its wait, since other handlers run
--   in between. Http/Stream: handle_stream_doc, a round at a time, on a connection that may break.
--   Http/Server: handle_connection, poll_doc_cache, run_http_server; Http/Server/Reached has the
--   states that they reach. `fail_replica` is a parameter.
-- Examples: the theorems at concrete inputs.
--
-- Bounds. Positions, rounds and slots are 64-bit and wrap around as in the source, where sums
-- appear; the theorems name the sums that must not wrap. Versions are signed counters whose
-- overflow the source leaves undefined, and are unbounded. Loops are structural, or run on fuel:
-- apply_committed_entries on the distance from the last applied slot to the commit index, and
-- flush_pending_client_requests on the number of queued requests, of which each round takes one
-- at least. Times are milliseconds; election timeouts are arbitrary.
--
-- Submissions make at most 12 tries, which is the fuel of try_put; lines of a header and items of
-- the registry run on a round for each byte. Numbers of a JSON body are unbounded: int64_t overflow
-- is undefined in the source.
--
-- Not modelled: the coroutine runtime and its HTTP and timer code (cotamer), the simulator's
-- channels and random source (pset4/netsim.hh, pset4/random_source.hh), sockets, files, logging
-- and formatting, and the test drivers. pset4/pt-collab.cc holds a second copy of the replica,
-- which is not modelled apart.
mod Base
pub mod OrdMap
pub mod Keys
pub mod Decimal
pub mod DocOps
pub mod Msgs
pub mod Db
pub mod DocState
pub mod Editor
pub mod Paxos
pub mod Http
pub mod ClientModel
pub mod Lockseq
mod Examples
