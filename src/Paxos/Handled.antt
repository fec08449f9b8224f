-- ===== src/Paxos/Handled.antt =====
-- Every handler of a replica makes one move of its ballot, and sends promises only for it.
use doom_draft.Base.{
  ℕ, zero, suc, ◌≡◌, refl, ◌∙◌, ap, true, [], ◌∷◌, ◌++◌, some, not, ◌||◌, ◌&&◌, leb, ltb, ◌==◌, set,
  get_or, if_both, if_cases, subst, if◌then◌else◌, leb→le, ltb→lt, arith,
}
use doom_draft.Paxos.State.{
  Replica, ReplicaRole, follower, candidate, leader, ProbeMessage, PrepareMessage, ProposeMessage,
  AckMessage, probe, to_replica, is_candidate, is_leader, has_quorum, last_log_index,
}
use doom_draft.Paxos.Log.{prefix_matches, leader_is_up_to_date, last_log_round}
use doom_draft.Paxos.Role.{become_follower, become_leader}
use doom_draft.Paxos.Election.{
  send_to_peers, probe_sends, lead, as_candidate, start_probe_round, may_promise, answer_probe,
  handle_probe, count_true, handle_prepare,
}
use doom_draft.Paxos.Follower.{handle_propose, accept_entries, finish_propose}
use doom_draft.Paxos.Acks.{handle_ack, ack_success, ack_failure}
use doom_draft.Paxos.Ballot.{Ballot, ballot, accept_entries-ballot}
use doom_draft.Paxos.Quiet.{
  NoPrepare, Quiet, broadcast-Quiet, finish_propose-Quiet, ack_success-Quiet, ack_failure-Quiet,
  NoPrepare-append,
}
use doom_draft.Paxos.Moves.{
  enter, win, majority, Move, stay, step_down, vote, vote_newer, stand, stand_alone, count, elect,
  NoPrepare-Casts, Effect, Quiet-Effect,
}

pub become_follower-ballot :
    (r : Replica) (round hint : ℕ) → ballot (become_follower r round hint) ≡ enter (ballot r) round
unfolding become_follower
become_follower-ballot r round hint = ground arith

send_to_peers-NoPrepare :
    (m : ProbeMessage) (index s : ℕ) → NoPrepare (send_to_peers (probe m) index s)
unfolding send_to_peers
send_to_peers-NoPrepare m index zero = tt
send_to_peers-NoPrepare m index (suc s) =
    if_both NoPrepare (s == index) (send_to_peers-NoPrepare m index s) (
      NoPrepare-append (send_to_peers (probe m) index s) (to_replica s (probe m) ∷ [])
        (send_to_peers-NoPrepare m index s) tt)

lead-Quiet : (r : Replica) → Quiet (win (ballot r)) (lead r)
unfolding lead become_leader
lead-Quiet r = broadcast-Quiet (become_leader r)

probe_sends-NoPrepare : (r : Replica) → NoPrepare (probe_sends r)
unfolding probe_sends
probe_sends-NoPrepare r =
    send_to_peers-NoPrepare
      (record {
        round = r.current_round;
        leader = r.index;
        last_log_index = last_log_index r;
        last_log_round = last_log_round r;
      })
      r.index r.nreplicas

pub start_probe-Effect :
    (Heard : ℕ → ℕ → Type 0) (r : Replica) → Effect Heard (ballot r) (start_probe_round r)
unfolding start_probe_round
start_probe-Effect Heard r =
    let r' = as_candidate r in
    let (k, n) = lead-Quiet r' in
    let sent = probe_sends-NoPrepare r' in
    if_cases (Effect Heard (ballot r)) (leb (majority (ballot r)) 1)
      (λ q. (
        stand_alone (leb→le (majority (ballot r)) 1 q) k,
        NoPrepare-Casts (ballot (lead r').0) (probe_sends r' ++ (lead r').1)
            (NoPrepare-append (probe_sends r') (lead r').1 sent n),
      ))
      (λ q. (stand refl, NoPrepare-Casts (ballot r') (probe_sends r') sent))

answer_probe-Effect :
    (Heard : ℕ → ℕ → Type 0) (b : Ballot) (msg : ProbeMessage) (r : Replica)
    → Move Heard b (ballot r)
    → ((l : ℕ)
        → may_promise r.promised_leader l ≡ true
        → Move Heard b (record (ballot r) { promised = some l }))
    → Effect Heard b (answer_probe msg r)
unfolding answer_probe
answer_probe-Effect Heard b msg r move promise_move =
    if_cases (Effect Heard b)
      (may_promise r.promised_leader msg.leader
        && leader_is_up_to_date r msg.last_log_index msg.last_log_round)
      (λ e. (promise_move msg.leader (ground arith), (λ f. (refl, refl, refl), tt)))
      (λ e. (move, (λ f. cc, tt)))

pub handle_probe-Effect :
    (Heard : ℕ → ℕ → Type 0) (r : Replica) (msg : ProbeMessage)
    → Effect Heard (ballot r) (handle_probe r msg)
unfolding handle_probe
handle_probe-Effect Heard r msg =
    if_cases (Effect Heard (ballot r)) (ltb msg.round r.current_round)
      (λ stale. (stay refl, (λ f. cc, tt)))
      (λ live.
        if_cases (λ r'. Effect Heard (ballot r) (answer_probe msg r'))
          (ltb r.current_round msg.round)
          (λ newer.
            let e = become_follower-ballot r msg.round r.leader_index in
            answer_probe-Effect Heard (ballot r) msg (become_follower r msg.round r.leader_index)
              (step_down msg.round (ground arith) e)
              (λ l h.
                vote_newer msg.round l (ltb→lt _ _ newer)
                  (ap (λ (b : Ballot). record b { promised = some l }) e)))
          (λ same. answer_probe-Effect Heard (ballot r) msg r (stay refl) (λ l h. vote l h refl)))

counted-Effect :
    (Heard : ℕ → ℕ → Type 0) (r : Replica) (s : ℕ)
    → Heard s r.current_round
    → r.role ≡ candidate
    → let r' = record r { prepare_ok = set r.prepare_ok s true } in
      Effect Heard
        (ballot r)
        (if has_quorum r' (count_true r'.prepare_ok) then lead r' else (r', []))
counted-Effect Heard r s heard c =
    let r' = record r { prepare_ok = set r.prepare_ok s true } in
    let (k, n) = lead-Quiet r' in
    if_cases (Effect Heard (ballot r)) (has_quorum r' (count_true r'.prepare_ok))
      (λ q. (elect s heard c (leb→le _ _ q) k, NoPrepare-Casts (ballot (lead r').0) (lead r').1 n))
      (λ q. (count s heard c refl, tt))

is_candidate_role : (role : ReplicaRole) → is_candidate role ≡ true → role ≡ candidate
is_candidate_role leader h = cc
is_candidate_role candidate h = refl
is_candidate_role follower h = cc

pub handle_prepare-Effect :
    (Heard : ℕ → ℕ → Type 0) (r : Replica) (msg : PrepareMessage)
    → (msg.promised ≡ true → Heard msg.server msg.round)
    → Effect Heard (ballot r) (handle_prepare r msg)
unfolding handle_prepare
handle_prepare-Effect Heard r msg heard =
    if_cases (Effect Heard (ballot r)) (ltb r.current_round msg.round)
      (λ newer. (
        step_down msg.round (ground arith) (become_follower-ballot r msg.round r.leader_index),
        tt,
      ))
      (λ live.
        if_cases (Effect Heard (ballot r))
          (not (is_candidate r.role)
            || not (msg.round == r.current_round)
            || not msg.promised
            || get_or r.prepare_ok msg.server true)
          (λ ignored. (stay refl, tt))
          (λ fresh.
            let same : msg.round ≡ r.current_round = ground arith in
            let promised : msg.promised ≡ true = ground arith in
            let c : is_candidate r.role ≡ true = ground arith in
            counted-Effect Heard r msg.server (subst (Heard msg.server) same (heard promised))
              (is_candidate_role r.role c)))

pub handle_propose-Effect :
    (Heard : ℕ → ℕ → Type 0) (r : Replica) (msg : ProposeMessage)
    → Effect Heard (ballot r) (handle_propose r msg)
unfolding handle_propose
handle_propose-Effect Heard r msg =
    let r' = become_follower r msg.round msg.leader in
    let e = become_follower-ballot r msg.round msg.leader in
    let a = accept_entries r' msg.prev_log_index msg.entries in
    if_cases (Effect Heard (ballot r)) (ltb msg.round r.current_round) (λ stale. (stay refl, tt))
      (λ live.
        if_both (Effect Heard (ballot r))
          (not (prefix_matches r' msg.prev_log_index msg.prev_log_round))
          (step_down msg.round (ground arith) e, tt)
          (let (k, n) = finish_propose-Quiet msg a in
            (
              step_down msg.round (ground arith)
                  (k ∙ accept_entries-ballot r' msg.prev_log_index msg.entries ∙ e),
              NoPrepare-Casts (ballot (finish_propose msg a).0) (finish_propose msg a).1 n,
            )))

pub handle_ack-Effect :
    (Heard : ℕ → ℕ → Type 0) (r : Replica) (msg : AckMessage)
    → Effect Heard (ballot r) (handle_ack r msg)
unfolding handle_ack
handle_ack-Effect Heard r msg =
    if_cases (Effect Heard (ballot r)) (ltb r.current_round msg.round)
      (λ newer. (
        step_down msg.round (ground arith) (become_follower-ballot r msg.round r.leader_index),
        tt,
      ))
      (λ live.
        if_both (Effect Heard (ballot r))
          (not (is_leader r.role) || not (msg.round == r.current_round)) (stay refl, tt)
          (if_both (Effect Heard (ballot r)) msg.success
            (Quiet-Effect Heard (ballot r) (ack_success r msg) (ack_success-Quiet r msg))
            (Quiet-Effect Heard (ballot r) (ack_failure r msg) (ack_failure-Quiet r msg))))
