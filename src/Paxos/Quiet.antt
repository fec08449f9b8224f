-- ===== src/Paxos/Quiet.antt =====
-- Steps of a handler that leave the ballot and promise nothing: all of replication.
use doom_draft.Base.{
  ℕ, zero, suc, ◌-◌, ◌≡◌, refl, ◌∙◌, List, [], ◌∷◌, ◌++◌, Option, none, some, not, ◌||◌, ◌&&◌, leb,
  ltb, ◌==◌, length, get_or, if_both, is_empty,
}
use doom_draft.OrdMap.{find}
use doom_draft.Msgs.{Request, Response, message_serial}
use doom_draft.Paxos.State.{
  Replica, LogEntry, ProposeMessage, AckMessage, probe, prepare, propose, ack, slot_ord, contains,
  is_leader, last_log_index, Send, to_replica, to_client, ◌▷◌,
}
use doom_draft.Paxos.Leader.{
  update_commit_index, cached, answer, execute, apply_entry, apply_next, apply_loop,
  apply_committed_entries, send_propose_to, propose_below, broadcast_propose, take_batch,
  match_self, settle, flush_batch, flush_loop, flush_pending_client_requests,
}
use doom_draft.Paxos.Follower.{
  Accepted, matched, refused, learn_commit, acknowledge, finish_propose,
}
use doom_draft.Paxos.Acks.{
  note_match, send_more, ack_success, ack_failure, enqueued, enqueue_request, serve_request,
  handle_client_request,
}
use doom_draft.Paxos.Ballot.{
  Ballot, ballot, trim-ballot, update_commit-ballot, update_trim-ballot, execute-ballot,
  take_batch-ballot, match_self-ballot, learn_trim-ballot, learn_commit-ballot, note_match-ballot,
  accepted_ballot,
}

-- No answer to an election is among the sends.
abbrev pub NoPrepare : List Send → Type 0
NoPrepare [] = Unit
NoPrepare (to_client resp ∷ l) = NoPrepare l
NoPrepare (to_replica d (probe m) ∷ l) = NoPrepare l
NoPrepare (to_replica d (prepare m) ∷ l) = ⊥
NoPrepare (to_replica d (propose m) ∷ l) = NoPrepare l
NoPrepare (to_replica d (ack m) ∷ l) = NoPrepare l

pub NoPrepare-append : (k l : List Send) → NoPrepare k → NoPrepare l → NoPrepare (k ++ l)
NoPrepare-append [] l h j = j
NoPrepare-append (to_client resp ∷ k) l h j = NoPrepare-append k l h j
NoPrepare-append (to_replica d (probe m) ∷ k) l h j = NoPrepare-append k l h j
NoPrepare-append (to_replica d (prepare m) ∷ k) l h j = absurd h
NoPrepare-append (to_replica d (propose m) ∷ k) l h j = NoPrepare-append k l h j
NoPrepare-append (to_replica d (ack m) ∷ k) l h j = NoPrepare-append k l h j

abbrev pub Quiet : Ballot → Replica × List Send → Type 0
Quiet b p = (ballot p.0 ≡ b) × NoPrepare p.1

pub Quiet-▷ :
    (b : Ballot) (p : Replica × List Send) (f : Replica → Replica × List Send)
    → Quiet b p
    → ((r : Replica) → Quiet (ballot r) (f r))
    → Quiet b (p ▷ f)
Quiet-▷ b p f (e, n) h = ((h p.0).0 ∙ e, NoPrepare-append p.1 (f p.0).1 n (h p.0).1)

cached-NoPrepare : (o : Option Response) → NoPrepare (cached o)
cached-NoPrepare none = tt
cached-NoPrepare (some resp) = tt

answer_slot-Quiet :
    (r : Replica) (serial : ℕ) (o : Option ℕ)
    → find serial r.pending_clients ≡ o
    → Quiet (ballot r) (answer r serial)
unfolding answer
answer_slot-Quiet r serial none e = rw (e, answer) (refl, tt)
answer_slot-Quiet r serial (some slot) e =
    rw (e, answer)
      (if_both (Quiet (ballot r)) (is_leader r.role && slot == r.last_applied)
        (refl, cached-NoPrepare (find serial r.response_cache)) (refl, tt))

apply_entry-Quiet : (r : Replica) (o : Option LogEntry) → Quiet (ballot r) (apply_entry r o)
unfolding apply_entry
apply_entry-Quiet r none = (refl, tt)
apply_entry-Quiet r (some e) =
    let serial = message_serial e.req in
    let (k, n) = answer_slot-Quiet (execute r e.req) serial _ refl in
    (k ∙ execute-ballot r e.req, n)

apply_next-Quiet : (r : Replica) → Quiet (ballot r) (apply_next r)
unfolding apply_next
apply_next-Quiet r = apply_entry-Quiet _ _

apply_loop-Quiet : (fuel : ℕ) (r : Replica) → Quiet (ballot r) (apply_loop fuel r)
unfolding apply_loop
apply_loop-Quiet zero r = (refl, tt)
apply_loop-Quiet (suc fuel) r =
    if_both (Quiet (ballot r)) (ltb r.last_applied r.commit_index)
      (Quiet-▷ (ballot r) (apply_next r) (apply_loop fuel) (apply_next-Quiet r)
        (apply_loop-Quiet fuel))
      (refl, tt)

pub apply_committed-Quiet : (r : Replica) → Quiet (ballot r) (apply_committed_entries r)
unfolding apply_committed_entries
apply_committed-Quiet r =
    let (k, n) = apply_loop-Quiet (r.commit_index - r.last_applied) r in
    (trim-ballot (apply_loop (r.commit_index - r.last_applied) r).0 ∙ k, n)

pub send_propose-Quiet : (r : Replica) (peer : ℕ) → Quiet (ballot r) (send_propose_to r peer)
unfolding send_propose_to
send_propose-Quiet r peer =
    if_both (Quiet (ballot r)) (peer == r.index || not (is_leader r.role)) (refl, tt) (refl, tt)

propose_below-Quiet : (s : ℕ) (r : Replica) → Quiet (ballot r) (propose_below s r)
unfolding propose_below
propose_below-Quiet zero r = (refl, tt)
propose_below-Quiet (suc s) r =
    if_both (Quiet (ballot r)) (s == r.index) (propose_below-Quiet s r) (
      Quiet-▷ (ballot r) (propose_below s r) (λ r'. send_propose_to r' s) (propose_below-Quiet s r)
        (λ r'. send_propose-Quiet r' s))

pub broadcast-Quiet : (r : Replica) → Quiet (ballot r) (broadcast_propose r)
unfolding broadcast_propose
broadcast-Quiet r = propose_below-Quiet r.nreplicas r

settle-Quiet : (r : Replica) → Quiet (ballot r) (settle r)
unfolding settle
settle-Quiet r =
    let (k, n) = apply_committed-Quiet (update_commit_index r) in
    (
      update_trim-ballot (apply_committed_entries (update_commit_index r)).0
          ∙ k
          ∙ update_commit-ballot r,
      n,
    )

flush_batch-Quiet : (r : Replica) → Quiet (ballot r) (flush_batch r)
unfolding flush_batch
flush_batch-Quiet r =
    let (k, n) = broadcast-Quiet (match_self (take_batch r)) in
    Quiet-▷ (ballot r) (broadcast_propose (match_self (take_batch r))) settle
      (k ∙ match_self-ballot (take_batch r) ∙ take_batch-ballot r, n) settle-Quiet

flush_loop-Quiet : (fuel : ℕ) (r : Replica) → Quiet (ballot r) (flush_loop fuel r)
unfolding flush_loop
flush_loop-Quiet zero r = (refl, tt)
flush_loop-Quiet (suc fuel) r =
    if_both (Quiet (ballot r)) (is_leader r.role && not (is_empty r.pending_client_requests))
      (Quiet-▷ (ballot r) (flush_batch r) (flush_loop fuel) (flush_batch-Quiet r)
        (flush_loop-Quiet fuel))
      (refl, tt)

pub flush_pending-Quiet :
    (now : ℕ) (r : Replica) → Quiet (ballot r) (flush_pending_client_requests now r)
unfolding flush_pending_client_requests
flush_pending-Quiet now r =
    if_both (Quiet (ballot r)) (not (is_leader r.role) || is_empty r.pending_client_requests)
      (refl, tt) (flush_loop-Quiet (length r.pending_client_requests) r)

acknowledge-Quiet :
    (msg : ProposeMessage) (m : ℕ) (r : Replica) → Quiet (ballot r) (acknowledge msg m r)
unfolding acknowledge
acknowledge-Quiet msg m r = (learn_trim-ballot r msg.trim_through, tt)

pub finish_propose-Quiet :
    (msg : ProposeMessage) (a : Accepted) → Quiet (accepted_ballot a) (finish_propose msg a)
unfolding finish_propose
finish_propose-Quiet msg (refused r slot) = (refl, tt)
finish_propose-Quiet msg (matched r m) =
    let (k, n) = apply_committed-Quiet (learn_commit r msg.decide_through) in
    Quiet-▷ (ballot r) (apply_committed_entries (learn_commit r msg.decide_through))
      (acknowledge msg m) (k ∙ learn_commit-ballot r msg.decide_through, n)
      (acknowledge-Quiet msg m)

send_more-Quiet : (peer : ℕ) (r : Replica) → Quiet (ballot r) (send_more peer r)
unfolding send_more
send_more-Quiet peer r =
    if_both (Quiet (ballot r)) (leb (get_or r.next_index peer 0) (last_log_index r))
      (send_propose-Quiet r peer) (refl, tt)

pub ack_success-Quiet : (r : Replica) (msg : AckMessage) → Quiet (ballot r) (ack_success r msg)
unfolding ack_success
ack_success-Quiet r msg =
    let (k, n) = settle-Quiet (note_match r msg) in
    Quiet-▷ (ballot r) (settle (note_match r msg)) (send_more msg.server)
      (k ∙ note_match-ballot r msg, n) (send_more-Quiet msg.server)

pub ack_failure-Quiet : (r : Replica) (msg : AckMessage) → Quiet (ballot r) (ack_failure r msg)
unfolding ack_failure
ack_failure-Quiet r msg = send_propose-Quiet _ msg.server

enqueue-Quiet :
    (now : ℕ) (r : Replica) (req : Request) → Quiet (ballot r) (enqueue_request now r req)
unfolding enqueue_request
enqueue-Quiet now r req =
    if_both (Quiet (ballot r)) _ (flush_pending-Quiet now (enqueued now r req)) (refl, tt)

serve_request-Quiet :
    (now : ℕ) (r : Replica) (req : Request) (o : Option Response)
    → Quiet (ballot r) (serve_request now r req o)
unfolding serve_request
serve_request-Quiet now r req (some resp) = (refl, tt)
serve_request-Quiet now r req none =
    if_both (Quiet (ballot r)) (contains (message_serial req) r.pending_client_serials) (refl, tt)
      (enqueue-Quiet now r req)

pub client_request-Quiet :
    (now : ℕ) (r : Replica) (req : Request) → Quiet (ballot r) (handle_client_request now r req)
unfolding handle_client_request
client_request-Quiet now r req =
    if_both (Quiet (ballot r)) (not (is_leader r.role)) (refl, tt)
      (serve_request-Quiet now r req (find (message_serial req) r.response_cache))
