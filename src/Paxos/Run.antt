-- ===== src/Paxos/Run.antt =====
-- The dispatcher and the main loop `run`, one round for each event that wakes the replica.
use doom_draft.Base.{
  ℕ, Bool, true, false, ◌&&◌, not, List, Option, none, some, leb, if◌then◌else◌, is_empty,
}
use doom_draft.Msgs.{Request}
use doom_draft.Paxos.State.{PaxosMessage, probe, prepare, propose, ack, Send, Replica, is_leader}
use doom_draft.Paxos.Leader.{broadcast_propose, flush_pending_client_requests}
use doom_draft.Paxos.Election.{start_probe_round, handle_probe, handle_prepare}
use doom_draft.Paxos.Follower.{handle_propose}
use doom_draft.Paxos.Acks.{handle_ack, handle_client_request}

unfoldable pub handle_replica_message : Replica → PaxosMessage → Replica × List Send
handle_replica_message r (probe msg) = handle_probe r msg
handle_replica_message r (prepare msg) = handle_prepare r msg
handle_replica_message r (propose msg) = handle_propose r msg
handle_replica_message r (ack msg) = handle_ack r msg

-- What `cot::first` returns: a client request, a message of a replica, or the end of the wait.
pub data Wake : Type 0 where
  got_request : Request → Wake
  got_message : PaxosMessage → Wake
  timed_out : Wake

abbrev pub deadline_passed : ℕ → Option ℕ → Bool
deadline_passed now none = false
deadline_passed now (some deadline) = leb deadline now

abbrev pub has_deadline : Option ℕ → Bool
has_deadline none = false
has_deadline (some deadline) = true

-- What the replica does when its wait runs out: a leader flushes its batch, if one is waiting, or
-- sends a heartbeat, and any other replica starts an election.
unfoldable pub on_timeout : ℕ → Replica → Replica × List Send
on_timeout now r =
    if is_leader r.role
    then (if not (is_empty r.pending_client_requests) && has_deadline r.client_batch_deadline
        then flush_pending_client_requests now r
        else broadcast_propose r)
    else start_probe_round r

-- The flush at the head of the loop, which takes no event.
unfoldable pub flush_due : ℕ → Replica → Bool
flush_due now r =
    is_leader r.role
    && not (is_empty r.pending_client_requests)
    && deadline_passed now r.client_batch_deadline

unfoldable pub on_wake : ℕ → Replica → Wake → Replica × List Send
unfolding on_timeout
on_wake now r (got_request req) = handle_client_request now r req
on_wake now r (got_message msg) = handle_replica_message r msg
on_wake now r timed_out = on_timeout now r

-- One round of the loop: a batch that is due goes first, and leaves the event for a later round.
unfoldable pub run_round : ℕ → Replica → Wake → Replica × List Send
unfolding flush_due on_wake
run_round now r w = if flush_due now r then flush_pending_client_requests now r else on_wake now r w
