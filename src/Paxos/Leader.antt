-- ===== src/Paxos/Leader.antt =====
-- Committing, applying, trimming and replicating.
use doom_draft.Base.{
  ℕ, zero, suc, ◌+◌, ◌-◌, min, max, ◌&&◌, ◌||◌, not, List, [], ◌∷◌, Option, none, some, ◌==◌, ltb,
  leb, if◌then◌else◌, get_or, set, take, drop, length, is_empty, add64, sub64,
}
use doom_draft.OrdMap.{find, emplace, erase}
use doom_draft.Msgs.{Request, Response, message_serial}
use doom_draft.Db.{process_req}
use doom_draft.Paxos.State.{
  LogEntry, propose, Send, to_replica, to_client, Replica, slot_ord, is_leader, has_quorum,
  last_log_index, contains, ◌▷◌, append_batch_size, trim_retention, client_batch_window,
}
use doom_draft.Paxos.Log.{round_at, trim_log_prefix, lower_bound, contiguous}

-- The peers below `s` that match through `idx`, the replica itself left out.
unfoldable pub count_matched : Replica → ℕ → ℕ → ℕ
count_matched r idx zero = 0
count_matched r idx (suc s) =
    count_matched r idx s
    + (if not (s == r.index) && leb idx (get_or r.match_index s 0) then 1 else 0)

-- The loop of `update_commit_index`, downwards from `idx`.
unfoldable pub commit_loop : Replica → ℕ → Replica
commit_loop r zero = r
commit_loop r (suc idx) =
    let lower = commit_loop r idx in
    if not (ltb r.commit_index (suc idx))
    then r
    else if not (round_at r (suc idx) == r.current_round)
    then lower
    else if has_quorum r (1 + count_matched r (suc idx) r.nreplicas)
    then record r { commit_index = suc idx }
    else lower

unfoldable pub update_commit_index : Replica → Replica
unfolding commit_loop count_matched
update_commit_index r = if is_leader r.role then commit_loop r (last_log_index r) else r

unfoldable pub min_match : Replica → ℕ → ℕ
min_match r zero = get_or r.match_index r.index 0
min_match r (suc s) = min (min_match r s) (get_or r.match_index s 0)

unfoldable pub update_trim_watermark : Replica → Replica
unfolding min_match trim_log_prefix
update_trim_watermark r =
    let lowest = min (min_match r r.nreplicas) r.commit_index in
    let target = if ltb trim_retention lowest then lowest - trim_retention else 0 in
    if is_leader r.role && ltb r.trim_through target
    then trim_log_prefix (record r { trim_through = target })
    else r

-- The request of an entry is executed unless its serial has an answer already.
unfoldable pub execute : Replica → Request → Replica
execute r req =
    let (db', resp) = process_req r.db req in
    if contains (message_serial req) r.response_cache
    then r
    else record r { db = db'; response_cache = emplace (message_serial req) resp r.response_cache }

abbrev pub cached : Option Response → List Send
cached none = []
cached (some resp) = to_client resp ∷ []

-- The leader answers the client that waits for this slot.
unfoldable pub answer : Replica → ℕ → Replica × List Send
answer r serial = elim (find serial r.pending_clients) [
  | none ↦ (r, [])
  | some slot ↦
      if is_leader r.role && slot == r.last_applied
      then (
        record r {
          pending_clients = erase serial r.pending_clients;
          pending_client_serials = erase serial r.pending_client_serials;
        },
        cached (find serial r.response_cache),
      )
      else (r, [])
]

-- The entry of a slot, if there is one; a slot with none is passed over.
unfoldable pub apply_entry : Replica → Option LogEntry → Replica × List Send
unfolding execute answer
apply_entry r none = (r, [])
apply_entry r (some e) = answer (execute r e.req) (message_serial e.req)

-- One round of the loop of `apply_committed_entries`.
unfoldable pub apply_next : Replica → Replica × List Send
unfolding apply_entry
apply_next r =
    let r' = record r { last_applied = add64 r.last_applied 1 } in
    apply_entry r' (find r'.last_applied r'.log)

unfoldable pub apply_loop : ℕ → Replica → Replica × List Send
unfolding apply_next
apply_loop zero r = (r, [])
apply_loop (suc fuel) r =
    let next = apply_next r ▷ apply_loop fuel in
    if ltb r.last_applied r.commit_index then next else (r, [])

-- As many rounds as slots are committed and not applied.
unfoldable pub apply_committed_entries : Replica → Replica × List Send
unfolding apply_loop trim_log_prefix
apply_committed_entries r =
    let (r', sends) = apply_loop (r.commit_index - r.last_applied) r in (trim_log_prefix r', sends)

unfoldable pub send_propose_to : Replica → ℕ → Replica × List Send
unfolding contiguous lower_bound round_at
send_propose_to r peer =
    let next = max (get_or r.next_index peer 0) (add64 r.trim_through 1) in
    let prev = sub64 next 1 in
    if peer == r.index || not (is_leader r.role) then (r, []) else (
      record r { next_index = set r.next_index peer next },
      to_replica peer (
            propose (record {
              round = r.current_round;
              leader = r.index;
              prev_log_index = prev;
              prev_log_round = round_at r prev;
              decide_through = r.commit_index;
              trim_through = r.trim_through;
              entries = contiguous append_batch_size next (lower_bound next r.log);
            }))
          ∷ [],
    )

-- To the peers below `s`, in their order.
unfoldable pub propose_below : ℕ → Replica → Replica × List Send
unfolding send_propose_to
propose_below zero r = (r, [])
propose_below (suc s) r =
    let before = propose_below s r in
    let next = before ▷ λ r'. send_propose_to r' s in if s == r.index then before else next

unfoldable pub broadcast_propose : Replica → Replica × List Send
unfolding propose_below
broadcast_propose r = propose_below r.nreplicas r

-- The inner loop of `flush_pending_client_requests`: the requests become entries of the log.
abbrev pub append_request : Replica → Request → Replica
append_request r req = record r {
  next_slot = add64 r.next_slot 1;
  log =
      emplace r.next_slot (record { slot = r.next_slot; round = r.current_round; req = req }) r.log;
  pending_clients = emplace (message_serial req) r.next_slot r.pending_clients;
}

unfoldable pub append_requests : Replica → List Request → Replica
append_requests r [] = r
append_requests r (req ∷ reqs) = append_requests (append_request r req) reqs

-- The oldest requests, one batch of them, go to the log.
unfoldable pub take_batch : Replica → Replica
unfolding append_requests
take_batch r =
    let batch = min (length r.pending_client_requests) append_batch_size in
    append_requests (record r { pending_client_requests = drop batch r.pending_client_requests })
      (take batch r.pending_client_requests)

-- The leader matches its own log.
unfoldable pub match_self : Replica → Replica
match_self r = record r {
  match_index = set r.match_index r.index (last_log_index r);
  next_index = set r.next_index r.index (add64 (last_log_index r) 1);
}

-- New knowledge of what is replicated: commit, apply, trim.
unfoldable pub settle : Replica → Replica × List Send
unfolding update_commit_index apply_committed_entries update_trim_watermark
settle r =
    let (r', sends) = apply_committed_entries (update_commit_index r) in
    (update_trim_watermark r', sends)

-- One round of the outer loop.
unfoldable pub flush_batch : Replica → Replica × List Send
unfolding take_batch match_self broadcast_propose settle
flush_batch r = broadcast_propose (match_self (take_batch r)) ▷ settle

unfoldable pub flush_loop : ℕ → Replica → Replica × List Send
unfolding flush_batch
flush_loop zero r = (r, [])
flush_loop (suc fuel) r =
    let next = flush_batch r ▷ flush_loop fuel in
    if is_leader r.role && not (is_empty r.pending_client_requests) then next else (r, [])

-- What is left waits for the next flush.
abbrev pub set_deadline : ℕ → Replica → Replica
set_deadline now r = record r {
  client_batch_deadline =
      if is_empty r.pending_client_requests then none else some (now + client_batch_window);
}

-- Each round takes a request at least, so there are no more rounds than requests.
unfoldable pub flush_pending_client_requests : ℕ → Replica → Replica × List Send
unfolding flush_loop
flush_pending_client_requests now r =
    let (r', sends) = flush_loop (length r.pending_client_requests) r in
    if not (is_leader r.role) || is_empty r.pending_client_requests
    then (record r { client_batch_deadline = none }, [])
    else (set_deadline now r', sends)
