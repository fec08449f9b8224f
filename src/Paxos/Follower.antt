-- ===== src/Paxos/Follower.antt =====
-- `handle_propose`.
use doom_draft.Base.{
  ℕ, min, max, Bool, true, false, not, List, [], ◌∷◌, Option, none, some, ◌==◌, ltb, leb,
  if◌then◌else◌, add64,
}
use doom_draft.OrdMap.{find, emplace}
use doom_draft.Paxos.State.{
  LogEntry, ProposeMessage, ack, Send, to_replica, Replica, slot_ord, last_log_index, contains, ◌▷◌,
}
use doom_draft.Paxos.Log.{prefix_matches, trim_log_prefix, before_slot}
use doom_draft.Paxos.Role.{become_follower}
use doom_draft.Paxos.Leader.{apply_committed_entries}

-- An entry with another round stands at the slot of `e`.
abbrev pub conflicts : Option LogEntry → LogEntry → Bool
conflicts none e = false
conflicts (some old) e = not (old.round == e.round)

-- The suffix from a slot on is discarded.
abbrev pub discard_from : Replica → ℕ → Replica
discard_from r slot = record r { log = before_slot slot r.log; next_slot = slot }

abbrev pub append_missing : Replica → LogEntry → Replica
append_missing r e =
    if contains e.slot r.log
    then r
    else record r { log = emplace e.slot e r.log; next_slot = max r.next_slot (add64 e.slot 1) }

-- How the loop over the entries ends: with the last matched slot, or at a slot whose entry is
-- committed and conflicts.
pub data Accepted : Type 0 where
  matched : Replica → ℕ → Accepted
  refused : Replica → ℕ → Accepted

unfoldable pub accept_entries : Replica → ℕ → List LogEntry → Accepted
accept_entries r match_index [] = matched r match_index
accept_entries r match_index (e ∷ es) =
    let trimmed = accept_entries r e.slot es in
    let replaced = accept_entries (append_missing (discard_from r e.slot) e) e.slot es in
    let appended = accept_entries (append_missing r e) e.slot es in
    if leb e.slot r.trim_through
    then trimmed
    else if conflicts (find e.slot r.log) e
    then (if leb e.slot r.commit_index then refused r e.slot else replaced)
    else appended

abbrev pub ack_to : Replica → ℕ → Bool → ℕ → ℕ → List Send
ack_to r dest success match_index next_index =
    to_replica dest (
      ack (record {
        round = r.current_round;
        server = r.index;
        success = success;
        match_index = match_index;
        next_index = next_index;
      }))
    ∷ []

-- Followers commit what the leader has decided, as far as their log reaches.
abbrev pub learn_commit : Replica → ℕ → Replica
learn_commit r decide_through =
    if ltb r.commit_index decide_through
    then record r { commit_index = min decide_through (last_log_index r) }
    else r

abbrev pub learn_trim : Replica → ℕ → Replica
learn_trim r through =
    if ltb r.trim_through through
    then trim_log_prefix (record r { trim_through = min through r.last_applied })
    else r

-- The follower trims what the leader may trim, and tells how far it matches.
unfoldable pub acknowledge : ProposeMessage → ℕ → Replica → Replica × List Send
unfolding trim_log_prefix
acknowledge msg match_index r =
    let r' = learn_trim r msg.trim_through in
    (r', ack_to r' msg.leader true match_index (add64 match_index 1))

-- What follows the loop.
unfoldable pub finish_propose : ProposeMessage → Accepted → Replica × List Send
unfolding acknowledge
finish_propose msg (refused r slot) = (r, ack_to r msg.leader false (last_log_index r) slot)
finish_propose msg (matched r match_index) =
    apply_committed_entries (learn_commit r msg.decide_through) ▷ acknowledge msg match_index

-- Where the leader is told to back up to.
abbrev pub backup_index : Replica → ℕ → ℕ
backup_index r prev =
    if ltb r.trim_through prev
    then min prev (add64 (last_log_index r) 1)
    else add64 r.trim_through 1

unfoldable pub handle_propose : Replica → ProposeMessage → Replica × List Send
unfolding become_follower prefix_matches accept_entries finish_propose
handle_propose r msg =
    let r' = become_follower r msg.round msg.leader in
    if ltb msg.round r.current_round
    then (r, ack_to r msg.leader false (last_log_index r) (add64 (last_log_index r) 1))
    else if not (prefix_matches r' msg.prev_log_index msg.prev_log_round)
    then (r', ack_to r' msg.leader false (last_log_index r') (backup_index r' msg.prev_log_index))
    else finish_propose msg (accept_entries r' msg.prev_log_index msg.entries)
