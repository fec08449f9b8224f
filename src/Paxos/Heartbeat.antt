-- ===== src/Paxos/Heartbeat.antt =====
-- What a heartbeat, a propose message without entries, commits.
use mathlib.Core.Path.{ap₂}
use doom_draft.Base.{
  ℕ, min, ◌-◌, ◌≤◌, ◌<◌, ◌≡◌, refl, sym, subst, ◌∙◌, ap, true, List, [], if_both, if_cases, ltb,
  not, word, arith, sub64,
}
use doom_draft.Paxos.State.{LogEntry, Replica, ProposeMessage, last_log_index, Send}
use doom_draft.Paxos.Log.{prefix_matches, trim_log_prefix}
use doom_draft.Paxos.Role.{become_follower}
use doom_draft.Paxos.Leader.{apply_committed_entries}
use doom_draft.Paxos.Follower.{
  matched, accept_entries, learn_commit, learn_trim, acknowledge, finish_propose, handle_propose,
}
use doom_draft.Paxos.Applied.{
  Machine, machine, run_requests, requests_after, AppliedThrough, apply_committed-Applied,
}

-- What applying reads: the indices, the log and the store are those of another replica.
record Same (r r' : Replica) : Type 0 where
  commit : r'.commit_index ≡ r.commit_index
  applied : r'.last_applied ≡ r.last_applied
  slots : r'.next_slot ≡ r.next_slot
  log : r'.log ≡ r.log
  machines : machine r' ≡ machine r

become_follower-Same : (r : Replica) (round hint : ℕ) → Same r (become_follower r round hint)
unfolding become_follower
become_follower-Same r round hint = record {
  commit = ground arith;
  applied = ground arith;
  slots = ground arith;
  log = ground arith;
  machines = if_both (λ (q : Replica). machine q ≡ machine r) (ltb r.current_round round) refl refl;
}

become_follower-prefix :
    (r : Replica) (round hint i k : ℕ)
    → prefix_matches (become_follower r round hint) i k ≡ prefix_matches r i k
unfolding become_follower prefix_matches
become_follower-prefix r round hint i k =
    if_both (λ (q : Replica). prefix_matches q i k ≡ prefix_matches r i k)
      (ltb r.current_round round) refl refl

learn_trim-AppliedThrough :
    (slot through : ℕ) (r r' : Replica)
    → AppliedThrough slot r r'
    → AppliedThrough slot r (learn_trim r' through)
unfolding trim_log_prefix
learn_trim-AppliedThrough slot through r r' h =
    if_both (AppliedThrough slot r) (ltb r'.trim_through through) h h

Same-AppliedThrough :
    (slot : ℕ) (r f r' : Replica) → Same r f → AppliedThrough slot f r' → AppliedThrough slot r r'
Same-AppliedThrough slot r f r' s (c, a, m) = (
  c,
  a,
  m
      ∙ ap
          (λ (p : Machine × List (ℕ × LogEntry)).
            run_requests p.0 (requests_after p.1 f.last_applied (slot - f.last_applied)))
          (ap₂ (λ (x : Machine) (l : List (ℕ × LogEntry)). (x, l)) s.machines s.log)
      ∙ ap (λ (k : ℕ). run_requests (machine r) (requests_after r.log k (slot - k))) s.applied,
)

finish-AppliedThrough :
    (msg : ProposeMessage) (r : Replica) (k slot : ℕ)
    → slot ≡ min msg.decide_through (last_log_index r)
    → r.last_applied ≤ r.commit_index
    → r.commit_index < msg.decide_through
    → r.commit_index ≤ last_log_index r
    → msg.decide_through < word
    → AppliedThrough slot r (finish_propose msg (matched r k)).0
unfolding finish_propose acknowledge
finish-AppliedThrough msg r k slot e h d l w =
    let later : ltb r.commit_index msg.decide_through ≡ true = ground arith in
    let learned : learn_commit r msg.decide_through ≡ record r { commit_index = slot } =
      rw later (ap (λ (n : ℕ). record r { commit_index = n }) (sym e)) in
    let r1 = record r { commit_index = slot } in
    learn_trim-AppliedThrough slot msg.trim_through r
      (apply_committed_entries (learn_commit r msg.decide_through)).0
      (subst (λ (q : Replica). AppliedThrough slot r (apply_committed_entries q).0) (sym learned)
        (apply_committed-Applied r1 (omega (arith, e)) (omega (arith, e))))

-- A follower that gets a heartbeat of its round or a later one, whose prefix it matches, commits
-- up to `decide_through`, or to the end of its log if that comes first, wherever the matched prefix
-- ends. It has then run the requests that its log has in the slots after those it had applied, in
-- order, where a request whose serial was answered is not run again.
pub heartbeat-commits :
    (r : Replica) (msg : ProposeMessage)
    → r.current_round ≤ msg.round
    → prefix_matches r msg.prev_log_index msg.prev_log_round ≡ true
    → msg.entries ≡ []
    → r.last_applied ≤ r.commit_index
    → r.commit_index < msg.decide_through
    → r.commit_index ≤ last_log_index r
    → msg.decide_through < word
    → AppliedThrough (min msg.decide_through (last_log_index r)) r (handle_propose r msg).0
unfolding handle_propose accept_entries
heartbeat-commits r msg round same none_new h d l w =
    let f = become_follower r msg.round msg.leader in
    let s = become_follower-Same r msg.round msg.leader in
    let slot = min msg.decide_through (last_log_index r) in
    let last : last_log_index f ≡ last_log_index r = ap (λ n. sub64 n 1) s.slots in
    let P = λ (q : Replica × List Send). AppliedThrough slot r q.0 in
    if_cases P (ltb msg.round r.current_round) (λ stale. absurd (ground (arith, stale)))
      (λ live.
        if_cases P (not (prefix_matches f msg.prev_log_index msg.prev_log_round))
          (λ no_match. absurd (
            cc (
              no_match,
              ap not (
                  become_follower-prefix r msg.round msg.leader msg.prev_log_index
                    msg.prev_log_round
                  ∙ same),
            )))
          (λ prefix.
            subst (λ es. P (finish_propose msg (accept_entries f msg.prev_log_index es)))
              (sym none_new)
              (Same-AppliedThrough slot r f (finish_propose msg (matched f msg.prev_log_index)).0 s
                (finish-AppliedThrough msg f msg.prev_log_index slot
                  (ap (min msg.decide_through) (sym last)) (omega (arith, s.applied, s.commit))
                  (omega (arith, s.commit)) (omega (arith, last, s.commit)) w))))
