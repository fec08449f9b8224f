-- ===== src/Paxos/Ballot.antt =====
-- The part of a replica that elections are about; replication leaves it alone.
use doom_draft.Base.{
  ℕ, zero, suc, ◌≡◌, refl, ◌∙◌, Bool, List, [], ◌∷◌, Option, leb, ltb, length, if_both, take, drop,
  min, arith,
}
use doom_draft.OrdMap.{find}
use doom_draft.Msgs.{Request}
use doom_draft.Paxos.State.{
  ReplicaRole, Replica, LogEntry, AckMessage, slot_ord, contains, append_batch_size, is_leader,
  last_log_index,
}
use doom_draft.Paxos.Log.{trim_log_prefix}
use doom_draft.Paxos.Leader.{
  commit_loop, update_commit_index, update_trim_watermark, take_batch, match_self, execute,
  append_request, append_requests,
}
use doom_draft.Paxos.Follower.{
  append_missing, discard_from, conflicts, learn_trim, learn_commit, Accepted, matched, refused,
  accept_entries,
}
use doom_draft.Paxos.Acks.{note_match}

pub record Ballot : Type 0 where
  pub index : ℕ
  pub nreplicas : ℕ
  pub role : ReplicaRole
  pub round : ℕ
  pub promised : Option ℕ
  pub prepare_ok : List Bool

abbrev pub ballot : Replica → Ballot
ballot r = record {
  index = r.index;
  nreplicas = r.nreplicas;
  role = r.role;
  round = r.current_round;
  promised = r.promised_leader;
  prepare_ok = r.prepare_ok;
}

pub trim-ballot : (r : Replica) → ballot (trim_log_prefix r) ≡ ballot r
unfolding trim_log_prefix
trim-ballot r = refl

pub commit_loop-ballot : (r : Replica) (idx : ℕ) → ballot (commit_loop r idx) ≡ ballot r
unfolding commit_loop
commit_loop-ballot r zero = refl
commit_loop-ballot r (suc idx) = ground (arith, commit_loop-ballot r idx)

pub update_commit-ballot : (r : Replica) → ballot (update_commit_index r) ≡ ballot r
unfolding update_commit_index
update_commit-ballot r =
    if_both (λ r'. ballot r' ≡ ballot r) (is_leader r.role)
      (commit_loop-ballot r (last_log_index r)) refl

pub update_trim-ballot : (r : Replica) → ballot (update_trim_watermark r) ≡ ballot r
unfolding update_trim_watermark
update_trim-ballot r = ground arith

pub execute-ballot : (r : Replica) (req : Request) → ballot (execute r req) ≡ ballot r
unfolding execute
execute-ballot r req = ground arith

pub append_requests-ballot :
    (r : Replica) (reqs : List Request) → ballot (append_requests r reqs) ≡ ballot r
unfolding append_requests
append_requests-ballot r [] = refl
append_requests-ballot r (req ∷ reqs) = append_requests-ballot (append_request r req) reqs

pub take_batch-ballot : (r : Replica) → ballot (take_batch r) ≡ ballot r
unfolding take_batch
take_batch-ballot r =
    let batch = min (length r.pending_client_requests) append_batch_size in
    append_requests-ballot
      (record r { pending_client_requests = drop batch r.pending_client_requests })
      (take batch r.pending_client_requests)

pub match_self-ballot : (r : Replica) → ballot (match_self r) ≡ ballot r
unfolding match_self
match_self-ballot r = refl

pub append_missing-ballot : (r : Replica) (e : LogEntry) → ballot (append_missing r e) ≡ ballot r
append_missing-ballot r e = if_both (λ r'. ballot r' ≡ ballot r) (contains e.slot r.log) refl refl

pub learn_trim-ballot : (r : Replica) (through : ℕ) → ballot (learn_trim r through) ≡ ballot r
learn_trim-ballot r through =
    if_both (λ r'. ballot r' ≡ ballot r) (ltb r.trim_through through) (trim-ballot _) refl

pub learn_commit-ballot : (r : Replica) (through : ℕ) → ballot (learn_commit r through) ≡ ballot r
learn_commit-ballot r through =
    if_both (λ r'. ballot r' ≡ ballot r) (ltb r.commit_index through) refl refl

pub note_match-ballot : (r : Replica) (msg : AckMessage) → ballot (note_match r msg) ≡ ballot r
unfolding note_match
note_match-ballot r msg = refl

abbrev pub accepted_ballot : Accepted → Ballot
accepted_ballot (matched r m) = ballot r
accepted_ballot (refused r m) = ballot r

pub accept_entries-ballot :
    (r : Replica) (m : ℕ) (es : List LogEntry) → accepted_ballot (accept_entries r m es) ≡ ballot r
unfolding accept_entries
accept_entries-ballot r m [] = refl
accept_entries-ballot r m (e ∷ es) =
    if_both (λ a. accepted_ballot a ≡ ballot r) (leb e.slot r.trim_through)
      (accept_entries-ballot r e.slot es)
      (if_both (λ a. accepted_ballot a ≡ ballot r) (conflicts (find e.slot r.log) e)
        (if_both (λ a. accepted_ballot a ≡ ballot r) (leb e.slot r.commit_index) refl
          (accept_entries-ballot (append_missing (discard_from r e.slot) e) e.slot es
            ∙ append_missing-ballot (discard_from r e.slot) e))
        (accept_entries-ballot (append_missing r e) e.slot es ∙ append_missing-ballot r e))
