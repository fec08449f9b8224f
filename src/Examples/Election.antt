-- ===== src/Examples/Election.antt =====
-- An election among three replicas, and a leader that commits.
use doom_draft.Base.{ℕ, ◌+◌, ◌≡◌, min, refl, [], ◌∷◌, inl, inr, arith}
use doom_draft.OrdMap.{find}
use doom_draft.Msgs.{get_request}
use doom_draft.Paxos.State.{
  Replica, LogEntry, ProposeMessage, PaxosMessage, probe, leader, new_replica, last_log_index,
}
use doom_draft.Paxos.Log.{round_at, leader_is_up_to_date, prefix_matches}
use doom_draft.Paxos.Role.{become_follower, become_leader, initialize}
use doom_draft.Paxos.Leader.{
  update_commit_index, apply_committed_entries, send_propose_to, propose_below, broadcast_propose,
}
use doom_draft.Paxos.Election.{
  send_to_peers, lead, probe_sends, start_probe_round, answer_probe, handle_probe, count_true,
  handle_prepare,
}
use doom_draft.Paxos.Follower.{handle_propose}
use doom_draft.Paxos.Run.{
  got_message, timed_out, handle_replica_message, on_timeout, flush_due, on_wake, run_round,
}
use doom_draft.Paxos.Elected.{promise_of}
use doom_draft.Paxos.Cluster.{Cluster, after, new_cluster, Delivered, Reach, here, next, turn}
use doom_draft.Paxos.Safety.{one_leader_per_round}
use doom_draft.Paxos.Commit.{Commits, update_commit_index-Commits}
use doom_draft.Paxos.Applied.{AppliedThrough, apply_committed-Applied}
use doom_draft.Paxos.Heartbeat.{heartbeat-commits}

abbrev draws : ℕ → ℕ → ℕ
draws i k = 150 + i + k

-- Replica 0 leads round 0; the others have heard nothing.
abbrev start : Cluster
start = new_cluster 3 0 draws

-- Replica 1 stands for round 1, replica 2 promises, and the promise arrives.
abbrev stood : Cluster
stood = after start 1 (run_round 400 (start.replicas 1) timed_out)

abbrev probe_1 : PaxosMessage
probe_1 = probe (record { round = 1; leader = 1; last_log_index = 0; last_log_round = 0 })

abbrev promised : Cluster
promised = after stood 2 (run_round 410 (stood.replicas 2) (got_message probe_1))

abbrev won : Cluster
won = after promised 1 (run_round 420 (promised.replicas 1) (got_message (promise_of 2 1)))

stood_reached : Reach 3 start stood
unfolding new_cluster initialize new_replica become_leader
stood_reached = next here (turn 1 400 timed_out (omega arith) tt (omega arith) refl)

probe_sent : Delivered stood 2 (got_message probe_1)
unfolding new_cluster initialize new_replica become_leader run_round flush_due on_wake on_timeout
    start_probe_round lead probe_sends send_to_peers round_at
probe_sent = inr (inl refl)

promise_sent : Delivered promised 1 (got_message (promise_of 2 1))
unfolding new_cluster initialize new_replica become_leader run_round flush_due on_wake on_timeout
    start_probe_round lead probe_sends send_to_peers handle_replica_message handle_probe
    answer_probe become_follower leader_is_up_to_date round_at
promise_sent = inl refl

won_reached : Reach 3 start won
unfolding new_cluster initialize new_replica become_leader run_round flush_due on_wake on_timeout
    start_probe_round
won_reached =
    next
      (next stood_reached
        (turn 2 410 (got_message probe_1) (omega arith) probe_sent (omega arith) refl))
      (turn 1 420 (got_message (promise_of 2 1)) (omega arith) promise_sent (omega arith) refl)

won_leads : (won.replicas 1).role ≡ leader
unfolding new_cluster initialize new_replica become_leader run_round flush_due on_wake on_timeout
    start_probe_round lead probe_sends send_to_peers handle_replica_message handle_probe
    answer_probe become_follower leader_is_up_to_date round_at handle_prepare count_true
    broadcast_propose propose_below send_propose_to
won_leads = refl

one_leader_per_round_example : ◌≡◌ {A = ℕ} 1 1
one_leader_per_round_example =
    one_leader_per_round 3 0 draws won 1 1 won_reached (omega arith) (omega arith) won_leads
      won_leads refl

-- A leader of round 2 with two entries, the second of its own round, and one peer that has both.
abbrev entry : ℕ → ℕ → LogEntry
entry slot round = record {
  slot = slot;
  round = round;
  req = get_request (record { serial = slot; key = 107 ∷ [] });
}

abbrev two_entries : Replica → Replica
two_entries r = record r {
  current_round = 2;
  log = (1, entry 1 1) ∷ (2, entry 2 2) ∷ [];
  next_slot = 3;
  match_index = 2 ∷ 2 ∷ 0 ∷ [];
}

abbrev leading : Replica
leading = record (two_entries (new_replica 0 3 (draws 0))) { role = leader }

update_commit_index-Commits_example : Commits leading 2 (update_commit_index leading)
unfolding new_replica
update_commit_index-Commits_example =
    update_commit_index-Commits leading refl (omega arith) (omega arith)

abbrev committed_two : Replica
committed_two = record (two_entries (new_replica 1 3 (draws 1))) { commit_index = 2 }

apply_committed-Applied_example :
    AppliedThrough 2 committed_two (apply_committed_entries committed_two).0
unfolding new_replica
apply_committed-Applied_example = apply_committed-Applied committed_two (omega arith) (omega arith)

-- It matches through slot 1; the entry of slot 2 is its own.
abbrev heartbeat : ProposeMessage
heartbeat = record {
  round = 3;
  leader = 0;
  prev_log_index = 1;
  prev_log_round = 1;
  decide_through = 2;
  trim_through = 0;
  entries = [];
}

abbrev following : Replica
following = two_entries (new_replica 1 3 (draws 1))

heartbeat-commits_example :
    AppliedThrough
      (min heartbeat.decide_through (last_log_index following))
      following
      (handle_propose following heartbeat).0
unfolding new_replica prefix_matches find
heartbeat-commits_example =
    heartbeat-commits following heartbeat (omega arith) refl refl (omega arith) (omega arith)
      (omega arith) (omega arith)
