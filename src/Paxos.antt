-- ===== src/Paxos.antt =====
-- pset4/pt-paxos.cc: one replica of the replicated log, its handlers and its main loop.
-- pset4/pt-collab.cc holds a second copy of the replica.
pub mod State
pub mod Log
pub mod Role
pub mod Leader
pub mod Election
pub mod Follower
pub mod Acks
pub mod Run
pub mod Ballot
pub mod Quiet
pub mod Moves
pub mod Handled
pub mod Votes
pub mod Cluster
pub mod Elected
pub mod Promises
pub mod Links
pub mod Schedules
pub mod Safety
pub mod Commit
pub mod Applied
pub mod Heartbeat
