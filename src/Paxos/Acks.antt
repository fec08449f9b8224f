-- ===== src/Paxos/Acks.antt =====
-- `handle_ack` and `handle_client_request`.
use doom_draft.Base.{
  ℕ, ◌+◌, max, ◌||◌, not, List, [], ◌∷◌, ◌++◌, Option, none, some, ◌==◌, ltb, leb, if◌then◌else◌,
  get_or, set, length, add64, sub64,
}
use doom_draft.OrdMap.{find, emplace}
use doom_draft.Msgs.{Request, Response, redirection_response, Errc, message_serial}
use doom_draft.Paxos.State.{
  AckMessage, Send, to_client, Replica, slot_ord, is_leader, is_candidate, last_log_index, contains,
  ◌▷◌, append_batch_size, client_batch_window,
}
use doom_draft.Paxos.Role.{become_follower}
use doom_draft.Paxos.Leader.{settle, send_propose_to, flush_pending_client_requests}

-- A follower that matched further.
unfoldable pub note_match : Replica → AckMessage → Replica
note_match r msg = record r {
  match_index =
      set r.match_index msg.server (max (get_or r.match_index msg.server 0) msg.match_index);
  next_index = set r.next_index msg.server (max (get_or r.next_index msg.server 0) msg.next_index);
}

-- The next batch for a follower that still lags.
unfoldable pub send_more : ℕ → Replica → Replica × List Send
unfolding send_propose_to
send_more peer r =
    let more = send_propose_to r peer in
    if leb (get_or r.next_index peer 0) (last_log_index r) then more else (r, [])

unfoldable pub ack_success : Replica → AckMessage → Replica × List Send
unfolding note_match settle send_more
ack_success r msg = settle (note_match r msg) ▷ send_more msg.server

-- Where to back up to for a follower that did not match.
abbrev pub fallback_index : ℕ → ℕ → ℕ
fallback_index asked next =
    let asked' = if asked == 0 then 1 else asked in
    if leb next asked' then (if ltb 1 next then sub64 next 1 else 1) else asked'

unfoldable pub ack_failure : Replica → AckMessage → Replica × List Send
unfolding send_propose_to
ack_failure r msg =
    let next =
      max (fallback_index msg.next_index (get_or r.next_index msg.server 0))
        (add64 r.trim_through 1) in
    send_propose_to (record r { next_index = set r.next_index msg.server next }) msg.server

unfoldable pub handle_ack : Replica → AckMessage → Replica × List Send
unfolding become_follower ack_success ack_failure
handle_ack r msg =
    if ltb r.current_round msg.round
    then (become_follower r msg.round r.leader_index, [])
    else if not (is_leader r.role) || not (msg.round == r.current_round)
    then (r, [])
    else if msg.success
    then ack_success r msg
    else ack_failure r msg

abbrev pub start_deadline : ℕ → Option ℕ → Option ℕ
start_deadline now none = some (now + client_batch_window)
start_deadline now (some deadline) = some deadline

-- A request of the leader that is neither answered nor waiting.
abbrev pub enqueued : ℕ → Replica → Request → Replica
enqueued now r req = record r {
  pending_client_serials = emplace (message_serial req) tt r.pending_client_serials;
  pending_client_requests = r.pending_client_requests ++ req ∷ [];
  client_batch_deadline = start_deadline now r.client_batch_deadline;
}

-- A full batch is flushed at once.
unfoldable pub enqueue_request : ℕ → Replica → Request → Replica × List Send
unfolding flush_pending_client_requests
enqueue_request now r req =
    let r' = enqueued now r req in
    let flushed = flush_pending_client_requests now r' in
    if leb append_batch_size (length r'.pending_client_requests) then flushed else (r', [])

-- A leader answers a retry from the cache, and ignores a request that is waiting.
unfoldable pub serve_request : ℕ → Replica → Request → Option Response → Replica × List Send
unfolding enqueue_request
serve_request now r req (some resp) = (r, to_client resp ∷ [])
serve_request now r req none =
    let accepted = enqueue_request now r req in
    if contains (message_serial req) r.pending_client_serials then (r, []) else accepted

unfoldable pub handle_client_request : ℕ → Replica → Request → Replica × List Send
unfolding serve_request
handle_client_request now r req =
    let serial = message_serial req in
    let redirect = if is_candidate r.role then r.index else r.leader_index in
    if not (is_leader r.role)
    then (r, to_client (redirection_response serial Errc.redirect redirect) ∷ [])
    else serve_request now r req (find serial r.response_cache)
