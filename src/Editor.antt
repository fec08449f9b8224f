-- ===== src/Editor.antt =====
-- pset4/collab_model.hh and collab_model.cc: an editor that edits its own copy of the text and
-- learns what the replicas committed. Random edits and the answers of the replicas are inputs.
pub mod InFlight
pub mod Oldest
use doom_draft.Base.{
  ℕ, zero, suc, Bool, true, false, ◌&&◌, ◌||◌, not, List, [], ◌∷◌, ◌++◌, Option, none, some, ◌==◌,
  ltb, if◌then◌else◌, get_or, set, is_empty, add64, replicate,
}
use doom_draft.DocOps.{Bytes, DocOp, apply_op, transform}
use doom_draft.DocOps.Serial
use doom_draft.DocOps.Serial.{Result, deserialize}
use doom_draft.Msgs.{Errc, GetResponse, nonexistent_version}
use doom_draft.Db.{Vv}
use doom_draft.DocState.{is_foreign}

pub record EditorState : Type 0 where
  pub leader : ℕ
  pub local_text : Bytes
  pub pending : List DocOp
  pub pending_seqs : List ℕ
  pub peer_next_seq : List ℕ
  pub next_seq : ℕ

-- What `start` sets up for each editor.
abbrev pub new_editor : ℕ → ℕ → EditorState
new_editor leader nclients = record {
  leader = leader;
  local_text = [];
  pending = [];
  pending_seqs = [];
  peer_next_seq = replicate nclients 0;
  next_seq = 0;
}

abbrev is_readable : Result DocOp → Bool
is_readable (Serial.ok op) = true
is_readable (Serial.err e) = false

-- `check`: the first key of the document whose value cannot be read.
unfoldable pub check : Bytes → List (Bytes × Vv) → Option Bytes
check doc_id [] = none
check doc_id ((key, cell) ∷ m) =
    let rest = check doc_id m in
    if is_foreign doc_id key || cell.version == nonexistent_version
    then rest
    else if is_readable (deserialize cell.value)
    then rest
    else some key

-- The committed operation that is replayed next.
pub record Best : Type 0 where
  pub peer : ℕ
  pub seq : ℕ
  pub version : ℕ
  pub op : DocOp

abbrev pub is_ok : Errc → Bool
is_ok Errc.ok = true
is_ok Errc.no_match = false
is_ok Errc.not_found = false
is_ok Errc.redirect = false

abbrev pub committed : ℕ → Result DocOp → Option (ℕ × DocOp)
committed version (Serial.ok op) = some (version, op)
committed version (Serial.err e) = none

-- An answer counts if it came in time, is no error, and holds an operation.
unfoldable pub usable : Option GetResponse → Option (ℕ × DocOp)
usable none = none
usable (some r) =
    if not (is_ok r.errcode) || is_empty r.value
    then none
    else committed r.version (deserialize r.value)

-- The condition under which a peer's operation becomes the best.
abbrev pub better : Option Best → ℕ → ℕ → Bool
better none peer version = true
better (some b) peer version = ltb version b.version || version == b.version && ltb peer b.peer

-- What the best is after one more peer.
unfoldable pub consider : EditorState → ℕ → Option Best → Option (ℕ × DocOp) → Option Best
consider es peer best none = best
consider es peer best (some (version, op)) =
    if better best peer version
    then some
        (record { peer = peer; seq = get_or es.peer_next_seq peer 0; version = version; op = op })
    else best

-- The loop over the peers, from `peer` on, with their answers in order.
unfoldable pub choose_best : EditorState → ℕ → Option Best → List (Option GetResponse) → Option Best
unfolding usable consider
choose_best es peer best [] = best
choose_best es peer best (a ∷ answers) =
    choose_best es (suc peer) (consider es peer best (usable a)) answers

abbrev pub transform_all : List DocOp → DocOp → List DocOp
transform_all [] op = []
transform_all (p ∷ pending) op = transform p op ∷ transform_all pending op

-- The front of the queue leaves it if it is the operation that was committed. Both queues have the
-- same length (InFlight), so the source never reads past the end of the second.
abbrev pub pop_pending : ℕ → EditorState → List DocOp → List ℕ → EditorState
pop_pending seq es [] seqs = es
pop_pending seq es (p ∷ pending) [] = es
pop_pending seq es (p ∷ pending) (q ∷ seqs) =
    if q == seq then record es { pending = pending; pending_seqs = seqs } else es

abbrev pub next_of_peer : EditorState → ℕ → EditorState
next_of_peer es peer = record es {
  peer_next_seq = set es.peer_next_seq peer (add64 (get_or es.peer_next_seq peer 0) 1);
}

-- The end of one round of `sync_committed_ops`.
unfoldable pub take_committed : ℕ → EditorState → Best → EditorState
take_committed cid es best =
    next_of_peer
      (if best.peer == cid then pop_pending best.seq es es.pending es.pending_seqs else record es {
        local_text = apply_op es.local_text best.op;
        pending = transform_all es.pending best.op;
      })
      best.peer

-- `sync_committed_ops`, with the answers of each round and the leader that `receive_response`, which
-- follows redirections, leaves: it ends at a round with no best, or where the given rounds end.
unfoldable pub sync_committed_ops :
    ℕ → EditorState → List (List (Option GetResponse) × ℕ) → EditorState
unfolding choose_best take_committed
sync_committed_ops cid es [] = es
sync_committed_ops cid es ((answers, leader) ∷ rounds) =
    let led = record es { leader = leader } in
    elim (choose_best es 0 none answers) [
      | none ↦ led
      | some best ↦ sync_committed_ops cid (take_committed cid led best) rounds
    ]

-- The end of step 2 of `editor`: an edit is applied at once and queued.
unfoldable pub edit : EditorState → DocOp → EditorState
edit es op = record es {
  local_text = apply_op es.local_text op;
  pending = es.pending ++ op ∷ [];
  pending_seqs = es.pending_seqs ++ es.next_seq ∷ [];
  next_seq = add64 es.next_seq 1;
}
