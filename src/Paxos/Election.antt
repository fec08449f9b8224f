-- ===== src/Paxos/Election.antt =====
-- Election rounds: `start_probe_round`, `handle_probe` and `handle_prepare`.
use doom_draft.Base.{
  ℕ, zero, suc, Bool, true, false, ◌&&◌, ◌||◌, not, List, [], ◌∷◌, ◌++◌, Option, none, some, ◌==◌,
  ltb, if◌then◌else◌, get_or, set, replicate, add64,
}
use doom_draft.Paxos.State.{
  ProbeMessage, PrepareMessage, PaxosMessage, probe, prepare, candidate, Send, to_replica, Replica,
  is_candidate, has_quorum, last_log_index, reset_election_timeout, ◌▷◌,
}
use doom_draft.Paxos.Log.{last_log_round, leader_is_up_to_date}
use doom_draft.Paxos.Role.{become_follower, become_leader}
use doom_draft.Paxos.Leader.{broadcast_propose}

-- The same message to every peer below `s`.
unfoldable pub send_to_peers : PaxosMessage → ℕ → ℕ → List Send
send_to_peers msg index zero = []
send_to_peers msg index (suc s) =
    let sends = send_to_peers msg index s in
    if s == index then sends else sends ++ to_replica s msg ∷ []

-- A new leader starts with a heartbeat.
unfoldable pub lead : Replica → Replica × List Send
unfolding become_leader
lead r = broadcast_propose (become_leader r)

-- The candidate's state once it has promised itself.
abbrev pub as_candidate : Replica → Replica
as_candidate r = reset_election_timeout (record r {
  role = candidate;
  current_round = add64 r.current_round 1;
  leader_index = r.index;
  promised_leader = some r.index;
  prepare_ok = set (replicate r.nreplicas false) r.index true;
})

-- The candidate's request for promises, with the end of its log.
unfoldable pub probe_sends : Replica → List Send
unfolding send_to_peers
probe_sends r =
    send_to_peers
      (probe (record {
        round = r.current_round;
        leader = r.index;
        last_log_index = last_log_index r;
        last_log_round = last_log_round r;
      }))
      r.index r.nreplicas

unfoldable pub start_probe_round : Replica → Replica × List Send
unfolding probe_sends lead
start_probe_round r =
    let r' = as_candidate r in
    let led = (r', probe_sends r') ▷ lead in if has_quorum r' 1 then led else (r', probe_sends r')

abbrev pub prepare_to : Replica → ℕ → Bool → List Send
prepare_to r dest promised =
    to_replica dest
      (prepare (record { round = r.current_round; server = r.index; promised = promised }))
    ∷ []

-- No other leader was promised this round.
abbrev pub may_promise : Option ℕ → ℕ → Bool
may_promise none leader = true
may_promise (some l) leader = l == leader

abbrev pub promise : Replica → ℕ → Replica
promise r leader =
    reset_election_timeout (record r { promised_leader = some leader; leader_index = leader })

-- The answer once the round is not stale.
unfoldable pub answer_probe : ProbeMessage → Replica → Replica × List Send
unfolding leader_is_up_to_date
answer_probe msg r =
    if may_promise r.promised_leader msg.leader
      && leader_is_up_to_date r msg.last_log_index msg.last_log_round
    then (promise r msg.leader, prepare_to r msg.leader true)
    else (r, prepare_to r msg.leader false)

unfoldable pub handle_probe : Replica → ProbeMessage → Replica × List Send
unfolding become_follower answer_probe
handle_probe r msg =
    let r' =
      if ltb r.current_round msg.round then become_follower r msg.round r.leader_index else r in
    if ltb msg.round r.current_round
    then (r, prepare_to r msg.leader false)
    else answer_probe msg r'

-- The promises counted.
unfoldable pub count_true : List Bool → ℕ
count_true [] = 0
count_true (true ∷ l) = suc (count_true l)
count_true (false ∷ l) = count_true l

unfoldable pub handle_prepare : Replica → PrepareMessage → Replica × List Send
unfolding become_follower count_true lead
handle_prepare r msg =
    let r' = record r { prepare_ok = set r.prepare_ok msg.server true } in
    if ltb r.current_round msg.round
    then (become_follower r msg.round r.leader_index, [])
    else if not (is_candidate r.role)
        || not (msg.round == r.current_round)
        || not msg.promised
        || get_or r.prepare_ok msg.server true
    then (r, [])
    else if has_quorum r' (count_true r'.prepare_ok)
    then lead r'
    else (r', [])
