-- ===== src/Examples/Editing.antt =====
-- An editor that learns one remote operation, and links that are cut and healed.
use doom_draft.Base.{ℕ, ◌≡◌, refl, true, [], ◌∷◌, none, some, arith}
use doom_draft.DocOps.{insert_op, delete_op}
use doom_draft.DocOps.Serial.{deserialize, read_uint}
use doom_draft.Msgs.{Errc, GetResponse}
use doom_draft.Editor.{EditorState, Best, new_editor, usable, choose_best, sync_committed_ops}
use doom_draft.Editor.InFlight.{InFlight, sync-InFlight}
use doom_draft.Editor.Oldest.{Takes, choose_best-Takes}
use doom_draft.Paxos.Links.{
  Links, Healed, schedule_recovery, schedule_recovery-Healed, partition_one_against_rest,
  partition-cuts,
}
use doom_draft.Paxos.Schedules.{UpBelow, schedule_unstable_mixed, schedule_unstable_mixed-UpBelow}

-- An answer of version 4: "D 0 1".
abbrev answered : GetResponse
answered = record {
  serial = 9;
  errcode = Errc.ok;
  value = 68 ∷ 32 ∷ 48 ∷ 32 ∷ 49 ∷ [];
  version = 4;
}

-- One edit in flight.
abbrev editing : EditorState
editing = record (new_editor 0 2) {
  local_text = 97 ∷ [];
  pending = insert_op 0 (97 ∷ []) ∷ [];
  pending_seqs = 0 ∷ [];
  next_seq = 1;
}

sync-InFlight_example :
    InFlight (sync_committed_ops 0 editing ((none ∷ some answered ∷ [], 1) ∷ []))
sync-InFlight_example =
    sync-InFlight 0 editing ((none ∷ some answered ∷ [], 1) ∷ []) (refl, (0, (refl, refl)))

abbrev chosen : Best
chosen = record { peer = 1; seq = 0; version = 4; op = delete_op 0 1 }

choose_best-Takes_example : Takes editing (none ∷ some answered ∷ []) chosen
unfolding usable choose_best deserialize read_uint
choose_best-Takes_example = choose_best-Takes editing (none ∷ some answered ∷ []) chosen refl

-- Losses in percent; every link loses 1 in 100.
abbrev all_one : Links ℕ
all_one = record {
  requests = λ s. 1;
  responses = λ s. 1;
  between = λ s d. 1;
  available = λ s. true;
}

schedule_recovery-Healed_example : Healed 3 1 100 (schedule_recovery 3 1 100 0 all_one)
schedule_recovery-Healed_example =
    schedule_recovery-Healed 3 1 100 0 all_one (λ s h. (refl, refl), λ s d h k. refl)

partition-cuts_example :
    let l' = partition_one_against_rest 3 1 100 0 all_one in
    (l'.between 0 2 ≡ 100) × (l'.requests 0 ≡ 1) × (l'.responses 0 ≡ 1)
partition-cuts_example = partition-cuts 3 1 100 0 all_one 0 2 (omega arith) (omega arith)

schedule_unstable_mixed-UpBelow_example :
    UpBelow 3 1 100 3
      (schedule_unstable_mixed 3 1 100 (0 ∷ 1 ∷ []) (2 ∷ []) (1 ∷ 0 ∷ []) (2 ∷ []) all_one)
schedule_unstable_mixed-UpBelow_example =
    schedule_unstable_mixed-UpBelow 3 1 100 (0 ∷ 1 ∷ []) (2 ∷ []) (1 ∷ 0 ∷ []) (2 ∷ []) all_one
      (omega arith)
