-- ===== src/Paxos/Log.antt =====
-- Reading and trimming the log.
use doom_draft.Base.{
  ℕ, zero, suc, Bool, false, List, [], ◌∷◌, Option, none, some, ◌==◌, ltb, leb, if◌then◌else◌, not,
  add64,
}
use doom_draft.OrdMap.{find}
use doom_draft.Paxos.State.{LogEntry, Replica, slot_ord, last_log_index}

abbrev pub entry_round : Option LogEntry → ℕ
entry_round none = 0
entry_round (some e) = e.round

unfoldable pub round_at : Replica → ℕ → ℕ
round_at r slot =
    if slot == 0
    then 0
    else if slot == r.trim_through
    then r.trim_round
    else entry_round (find slot r.log)

abbrev pub last_log_round : Replica → ℕ
last_log_round r = round_at r (last_log_index r)

unfoldable pub leader_is_up_to_date : Replica → ℕ → ℕ → Bool
leader_is_up_to_date r index round =
    if not (round == last_log_round r)
    then ltb (last_log_round r) round
    else leb (last_log_index r) index

abbrev pub holds_round : Option LogEntry → ℕ → Bool
holds_round none round = false
holds_round (some e) round = e.round == round

unfoldable pub prefix_matches : Replica → ℕ → ℕ → Bool
prefix_matches r index round =
    if index == 0
    then r.trim_through == 0
    else if ltb index r.trim_through
    then false
    else if index == r.trim_through
    then round == r.trim_round
    else holds_round (find index r.log) round

-- The loop of `trim_log_prefix`: the round of the last entry dropped, and the log that is left.
unfoldable pub trim_entries : ℕ → ℕ → List (ℕ × LogEntry) → ℕ × List (ℕ × LogEntry)
trim_entries through round [] = (round, [])
trim_entries through round ((slot, e) ∷ m) =
    let more = trim_entries through e.round m in
    if leb slot through then more else (round, (slot, e) ∷ m)

unfoldable pub trim_log_prefix : Replica → Replica
unfolding trim_entries
trim_log_prefix r =
    let (round, m) = trim_entries r.trim_through r.trim_round r.log in
    record r { trim_round = round; log = m }

-- `log_.lower_bound(slot)`, as the entries from there on and the entries before it.
unfoldable pub lower_bound : ℕ → List (ℕ × LogEntry) → List (ℕ × LogEntry)
lower_bound slot [] = []
lower_bound slot ((j, e) ∷ m) = if ltb j slot then lower_bound slot m else (j, e) ∷ m

unfoldable pub before_slot : ℕ → List (ℕ × LogEntry) → List (ℕ × LogEntry)
before_slot slot [] = []
before_slot slot ((j, e) ∷ m) = if ltb j slot then (j, e) ∷ before_slot slot m else []

-- Entries with the slots `slot`, `slot + 1` and so on, `room` of them at most.
unfoldable pub contiguous : ℕ → ℕ → List (ℕ × LogEntry) → List LogEntry
contiguous zero slot m = []
contiguous (suc room) slot [] = []
contiguous (suc room) slot ((j, e) ∷ m) =
    let more = contiguous room (add64 slot 1) m in if j == slot then e ∷ more else []
