-- ===== src/Paxos/Role.antt =====
-- Becoming a follower or the leader.
use doom_draft.Base.{ℕ, false, [], none, some, ltb, ◌==◌, if◌then◌else◌, set, replicate, add64}
use doom_draft.Paxos.State.{Replica, follower, leader, last_log_index, reset_election_timeout}

-- A higher round ends any promise.
abbrev pub enter_round : Replica → ℕ → Replica
enter_round r round =
    if ltb r.current_round round
    then record r { current_round = round; promised_leader = none }
    else r

unfoldable pub become_follower : Replica → ℕ → ℕ → Replica
become_follower r round leader_hint =
    let r' = enter_round r round in
    reset_election_timeout (record r' {
      role = follower;
      leader_index = leader_hint;
      prepare_ok = replicate r'.nreplicas false;
      pending_clients = [];
      pending_client_requests = [];
      pending_client_serials = [];
      client_batch_deadline = none;
    })

unfoldable pub become_leader : Replica → Replica
become_leader r =
    let last = last_log_index r in
    record r {
      role = leader;
      leader_index = r.index;
      promised_leader = some r.index;
      prepare_ok = replicate r.nreplicas false;
      match_index = set (replicate r.nreplicas 0) r.index last;
      next_index = set (replicate r.nreplicas (add64 last 1)) r.index (add64 last 1);
    }

-- `initialize`, apart from the wiring of ports and channels.
unfoldable pub initialize : Replica → ℕ → Replica
unfolding become_leader
initialize r initial_leader =
    let r' = record r { leader_index = initial_leader; role = follower } in
    if r.index == initial_leader then become_leader r' else r'
