-- ===== src/Paxos/Elected.antt =====
-- At most one leader for each round.
use doom_draft.Base.{
  ℕ, ◌+◌, ◌≤◌, ◌<◌, ◌≡◌, ◌≢◌, refl, sym, ◌∙◌, subst, Bool, true, false, List, some, ◌⊎◌, inl, inr,
  length, get_or, set, replicate, if_cases, if_both, not, ◌&&◌, is_empty, word, arith,
}
use doom_draft.Paxos.State.{
  Replica, follower, candidate, leader, PaxosMessage, probe, prepare, propose, ack, Send,
  to_replica, is_leader,
}
use doom_draft.Paxos.Leader.{flush_pending_client_requests, broadcast_propose}
use doom_draft.Paxos.Election.{count_true, may_promise}
use doom_draft.Paxos.Run.{
  Wake, has_deadline, got_request, got_message, timed_out, run_round, on_wake, on_timeout,
  flush_due, handle_replica_message,
}
use doom_draft.Paxos.Acks.{handle_client_request}
use doom_draft.Paxos.Ballot.{Ballot, ballot}
use doom_draft.Paxos.Quiet.{flush_pending-Quiet, broadcast-Quiet, client_request-Quiet}
use doom_draft.Paxos.Moves.{
  Move, stay, step_down, vote, vote_newer, stand, stand_alone, count, elect, enter, stand_for, win,
  majority, Effect, Quiet-Effect,
}
use doom_draft.Paxos.Handled.{
  start_probe-Effect, handle_probe-Effect, handle_prepare-Effect, handle_propose-Effect,
  handle_ack-Effect,
}
use doom_draft.Paxos.Votes.{
  length-set, length-replicate, get_or-set-true, get_or-replicate-false, count-set-true,
}
use doom_draft.Paxos.Cluster.{Cluster, In, Delivered}

abbrev pub promise_of : ℕ → ℕ → PaxosMessage
promise_of s round = prepare (record { round = round; server = s; promised = true })

-- The promises that have been sent to a replica.
abbrev pub Heard : List Send → ℕ → ℕ → ℕ → Type 0
Heard sent i s round = In (to_replica i (promise_of s round)) sent

timeout-Effect :
    (Hear : ℕ → ℕ → Type 0) (now : ℕ) (r : Replica) → Effect Hear (ballot r) (on_timeout now r)
unfolding on_timeout
timeout-Effect Hear now r =
    if_both (Effect Hear (ballot r)) (is_leader r.role)
      (if_both (Effect Hear (ballot r))
        (not (is_empty r.pending_client_requests) && has_deadline r.client_batch_deadline)
        (Quiet-Effect Hear (ballot r) (flush_pending_client_requests now r)
          (flush_pending-Quiet now r))
        (Quiet-Effect Hear (ballot r) (broadcast_propose r) (broadcast-Quiet r)))
      (start_probe-Effect Hear r)

on_wake-Effect :
    (c : Cluster) (i now : ℕ) (r : Replica) (w : Wake)
    → Delivered c i w
    → Effect (Heard c.sent i) (ballot r) (on_wake now r w)
unfolding on_wake handle_replica_message
on_wake-Effect c i now r (got_request req) d =
    Quiet-Effect (Heard c.sent i) (ballot r) (handle_client_request now r req)
      (client_request-Quiet now r req)
on_wake-Effect c i now r (got_message (probe m)) d = handle_probe-Effect (Heard c.sent i) r m
on_wake-Effect c i now r (got_message (prepare m)) d =
    handle_prepare-Effect (Heard c.sent i) r m
      λ e. subst (λ b. In (to_replica i (prepare (record m { promised = b }))) c.sent) e d
on_wake-Effect c i now r (got_message (propose m)) d = handle_propose-Effect (Heard c.sent i) r m
on_wake-Effect c i now r (got_message (ack m)) d = handle_ack-Effect (Heard c.sent i) r m
on_wake-Effect c i now r timed_out d = timeout-Effect (Heard c.sent i) now r

pub run_round-Effect :
    (c : Cluster) (i now : ℕ) (r : Replica) (w : Wake)
    → Delivered c i w
    → Effect (Heard c.sent i) (ballot r) (run_round now r w)
unfolding run_round
run_round-Effect c i now r w d =
    if_cases (Effect (Heard c.sent i) (ballot r)) (flush_due now r)
      (λ e.
        Quiet-Effect (Heard c.sent i) (ballot r) (flush_pending_client_requests now r)
          (flush_pending-Quiet now r))
      (λ e. on_wake-Effect c i now r w d)

-- A vote of `s` for `i`: the replica's own, or a promise that was sent to it.
abbrev pub Backed : List Send → ℕ → ℕ → ℕ → Type 0
Backed sent i round s = (s ≡ i) ⊎ Heard sent i s round

abbrev pub BackedBy : List Send → Ballot → List Bool → Type 0
BackedBy sent b votes =
    (length votes ≡ b.nreplicas)
    × ((s : ℕ) → get_or votes s false ≡ true → Backed sent b.index b.round s)

-- What holds of each replica, `first` being the initial leader.
pub record Node (first : ℕ) (sent : List Send) (b : Ballot) : Type 0 where
  pub member : b.index < b.nreplicas
  pub own : b.role ≢ follower → b.promised ≡ some b.index
  pub started : b.role ≡ candidate → 0 < b.round
  pub counted : b.role ≡ candidate → BackedBy sent b b.prepare_ok
  pub elected :
      b.role ≡ leader
      → ((b.round ≡ 0) × (b.index ≡ first))
        ⊎ ((votes : List Bool) × (0 < b.round)
            × BackedBy sent b votes
            × (majority b ≤ count_true votes))

stand_for-BackedBy :
    (sent : List Send) (b : Ballot) → BackedBy sent (stand_for b) (stand_for b).prepare_ok
stand_for-BackedBy sent b = (
  length-set (replicate b.nreplicas false) b.index true ∙ length-replicate b.nreplicas false,
  λ s h. elim (get_or-set-true (replicate b.nreplicas false) b.index s h) [
    | inl e ↦ inl e
    | inr e ↦ absurd (cc (e, get_or-replicate-false b.nreplicas s))
  ],
)

more-BackedBy :
    (sent : List Send) (b : Ballot) (votes : List Bool) (s : ℕ)
    → Heard sent b.index s b.round
    → BackedBy sent b votes
    → BackedBy sent b (set votes s true)
more-BackedBy sent b votes s heard (l, h) = (
  length-set votes s true ∙ l,
  λ t g. elim (get_or-set-true votes s t g) [ inl e ↦ inr (rw e heard) | inr e ↦ h t e ],
)

follower-Node :
    (first : ℕ) (sent : List Send) (b : Ballot)
    → b.role ≡ follower
    → b.index < b.nreplicas
    → Node first sent b
follower-Node first sent b f m = record {
  member = m;
  own = λ h. absurd (h f);
  started = λ h. cc;
  counted = λ h. absurd (cc (f, h));
  elected = λ h. absurd (cc (f, h));
}

enter_member :
    (b : Ballot) (round : ℕ)
    → b.index < b.nreplicas
    → (enter b round).index < (enter b round).nreplicas
enter_member b round m = ground arith

vote-Node :
    (first : ℕ) (sent : List Send) (b : Ballot) (l : ℕ)
    → may_promise b.promised l ≡ true
    → Node first sent b
    → Node first sent (record b { promised = some l })
vote-Node first sent b l h n = record {
  member = n.member;
  own = λ f. ground (arith, n.own f, h);
  started = n.started;
  counted = n.counted;
  elected = n.elected;
}

stand-Node :
    (first : ℕ) (sent : List Send) (b : Ballot)
    → b.round + 1 < word
    → Node first sent b
    → Node first sent (stand_for b)
stand-Node first sent b w n = record {
  member = n.member;
  own = λ f. refl;
  started = λ c. omega arith;
  counted = λ c. stand_for-BackedBy sent b;
  elected = λ l. cc;
}

win-Node :
    (first : ℕ) (sent : List Send) (b : Ballot) (votes : List Bool)
    → b.index < b.nreplicas
    → 0 < b.round
    → BackedBy sent b votes
    → majority b ≤ count_true votes
    → Node first sent (win b)
win-Node first sent b votes m p h q = record {
  member = m;
  own = λ f. refl;
  started = λ c. cc;
  counted = λ c. absurd (cc c);
  elected = λ l. inr (votes, p, h, q);
}

count-Node :
    (first : ℕ) (sent : List Send) (b : Ballot) (s : ℕ)
    → Heard sent b.index s b.round
    → b.role ≡ candidate
    → Node first sent b
    → Node first sent (record b { prepare_ok = set b.prepare_ok s true })
count-Node first sent b s heard c n = record {
  member = n.member;
  own = n.own;
  started = n.started;
  counted = λ _. more-BackedBy sent b b.prepare_ok s heard (n.counted c);
  elected = λ l. absurd (cc (c, l));
}

pub Move-Node :
    (first : ℕ) (sent : List Send) (b b' : Ballot)
    → b.round + 1 < word
    → Move (Heard sent b.index) b b'
    → Node first sent b
    → Node first sent b'
Move-Node first sent b b' w (stay e) n = subst (Node first sent) (sym e) n
Move-Node first sent b b' w (step_down round h e) n =
    subst (Node first sent) (sym e)
      (follower-Node first sent (enter b round) refl (enter_member b round n.member))
Move-Node first sent b b' w (vote l h e) n =
    subst (Node first sent) (sym e) (vote-Node first sent b l h n)
Move-Node first sent b b' w (vote_newer round l h e) n = subst (Node first sent) (sym e) (
    follower-Node first sent (record (enter b round) { promised = some l }) refl
      (enter_member b round n.member))
Move-Node first sent b b' w (stand e) n =
    subst (Node first sent) (sym e) (stand-Node first sent b w n)
Move-Node first sent b b' w (stand_alone q e) n =
    let votes = (stand_for b).prepare_ok in
    let one =
      count-set-true (replicate b.nreplicas false) b.index
        (rw (length-replicate b.nreplicas false) n.member) in
    subst (Node first sent) (sym e) (
      win-Node first sent (stand_for b) votes n.member (omega arith) (stand_for-BackedBy sent b)
        (omega (arith, one)))
Move-Node first sent b b' w (count s heard c e) n =
    subst (Node first sent) (sym e) (count-Node first sent b s heard c n)
Move-Node first sent b b' w (elect s heard c q e) n = subst (Node first sent) (sym e) (
    win-Node first sent b (set b.prepare_ok s true) n.member (n.started c)
      (more-BackedBy sent b b.prepare_ok s heard (n.counted c)) q)
