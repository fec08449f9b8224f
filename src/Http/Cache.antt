-- ===== src/Http/Cache.antt =====
-- The server's copy of each document: its operations, its text and its cursors.
pub mod Prefix
pub mod Mirrors
pub mod Cursors
use doom_draft.Base.{
  ℕ, zero, suc, ◌+◌, Bool, true, false, ◌&&◌, ◌||◌, not, List, [], ◌∷◌, ◌++◌, Option, none, some,
  ◌==◌, ltb, leb, if◌then◌else◌, take, drop, is_empty, length, codes,
}
use doom_draft.OrdMap.{Ord, same_key, find, emplace, assign}
use doom_draft.Keys.{bytes_ord}
use doom_draft.Decimal.{from_chars}
use doom_draft.DocOps.{Bytes, apply_op}
use doom_draft.DocState.{CommittedOp, whole, read_ops, reconstruct}
use doom_draft.Msgs.{ℤ, pos, negsuc}
use doom_draft.Db.{Vv, PancyDb, is_none}
use doom_draft.Paxos.State.{slot_ord}
use doom_draft.Http.Json.{json_get_string, json_get_int}
use doom_draft.Http.Frames.{CursorEntry}
use doom_draft.Http.Registry.{Docs}

pub record PerDocCache : Type 0 where
  pub ops : List CommittedOp
  pub cursors : List (ℕ × CursorEntry)
  pub client_labels : List (ℕ × Bytes)
  pub text : Bytes
  pub version : ℕ
  pub epoch : ℕ
  pub cursor_epoch : ℕ

abbrev pub empty_cache : PerDocCache
empty_cache = record {
  ops = [];
  cursors = [];
  client_labels = [];
  text = [];
  version = 0;
  epoch = 0;
  cursor_epoch = 0;
}

-- `m[k] = v`.
abbrev pub set_entry {ℓ κ} :
    {K : Type ℓ} {V : Type κ} ⦃o : Ord K⦄ → K → V → List (K × V) → List (K × V)
set_entry k v m = if is_none (find k m) then emplace k v m else assign k v m

abbrev pub last_version : List CommittedOp → ℕ
last_version [] = 0
last_version (c ∷ []) = c.version
last_version (c ∷ d ∷ l) = last_version (d ∷ l)

abbrev pub same_author : CommittedOp → CommittedOp → Bool
same_author x y = x.client_id == y.client_id && x.client_seq == y.client_seq

abbrev pub same_commit : CommittedOp → CommittedOp → Bool
same_commit x y = x.version == y.version && same_author x y

-- What `fresh` has behind the cached operations, if these are its front.
unfoldable pub behind_prefix : List CommittedOp → List CommittedOp → Option (List CommittedOp)
behind_prefix [] fresh = some fresh
behind_prefix (x ∷ ops) [] = none
behind_prefix (x ∷ ops) (y ∷ fresh) =
    let more = behind_prefix ops fresh in if same_commit y x then more else none

abbrev pub or_keep : Option Bytes → Bytes → Bytes
or_keep none label = label
or_keep (some known) label = known

abbrev pub with_known : List (ℕ × Bytes) → CommittedOp → CommittedOp
with_known labels c = record c {
  client_id_label = or_keep (find c.client_id labels) c.client_id_label;
}

-- The fast path: the new operations are applied to the text, one by one.
unfoldable pub append_fresh : PerDocCache → List CommittedOp → PerDocCache
append_fresh c [] = c
append_fresh c (x ∷ fresh) =
    append_fresh
      (record c { text = apply_op c.text x.op; ops = c.ops ++ with_known c.client_labels x ∷ [] })
      fresh

-- `saved_labels`: the label of the first cached operation with that author that has one. Authors
-- are distinct, so no label is moved out twice.
unfoldable pub saved_label : List CommittedOp → CommittedOp → Option Bytes
saved_label [] c = none
saved_label (x ∷ ops) c =
    let later = saved_label ops c in
    if not (is_empty x.client_id_label) && same_author x c then some x.client_id_label else later

unfoldable pub restore_labels : List CommittedOp → List CommittedOp → List CommittedOp
unfolding saved_label
restore_labels ops [] = []
restore_labels ops (c ∷ fresh) =
    record c { client_id_label = or_keep (saved_label ops c) c.client_id_label }
    ∷ restore_labels ops fresh

abbrev pub with_version : ℕ → PerDocCache → PerDocCache
with_version v c = if not (v == c.version) then record c { version = v; epoch = c.epoch + 1 } else c

abbrev pub rebuild : PerDocCache → List CommittedOp → PerDocCache
rebuild c fresh =
    let ops = restore_labels c.ops fresh in
    record c {
      ops = ops;
      text = reconstruct ops;
      version = last_version fresh;
      epoch = c.epoch + 1;
    }

-- The operations that the store holds are gone.
abbrev pub reset : PerDocCache → PerDocCache
reset c =
    if not (is_empty c.ops)
    then record c { ops = []; text = []; version = 0; epoch = c.epoch + 1 }
    else c

unfoldable pub refresh_with : PerDocCache → List CommittedOp → PerDocCache
unfolding behind_prefix append_fresh restore_labels
refresh_with c [] = reset c
refresh_with c (f ∷ fresh) = elim (behind_prefix c.ops (f ∷ fresh)) [
  | none ↦ rebuild c (f ∷ fresh)
  | some new ↦ with_version (last_version (f ∷ fresh)) (append_fresh c new)
]

unfoldable pub refresh_ops_from_db : PerDocCache → PancyDb → Bytes → PerDocCache
unfolding refresh_with
refresh_ops_from_db c db doc_id = refresh_with c (read_ops db doc_id)

-- The loop of `note_committed`: the cached operations with the label of `c` on the one that has
-- its author, if there is one.
abbrev pub give_label : Bytes → CommittedOp → CommittedOp
give_label label x =
    if is_empty x.client_id_label && not (is_empty label)
    then record x { client_id_label = label }
    else x

abbrev pub cons_op : CommittedOp → Option (List CommittedOp) → Option (List CommittedOp)
cons_op x none = none
cons_op x (some ops) = some (x ∷ ops)

unfoldable pub upgrade : List CommittedOp → CommittedOp → Option (List CommittedOp)
upgrade [] c = none
upgrade (x ∷ ops) c =
    let later = cons_op x (upgrade ops c) in
    if same_author x c then some (give_label c.client_id_label x ∷ ops) else later

abbrev pub remember : ℕ → Bytes → PerDocCache → PerDocCache
remember cid label c =
    if is_empty label then c else record c { client_labels = set_entry cid label c.client_labels }

abbrev pub apply_committed : PerDocCache → CommittedOp → PerDocCache
apply_committed c x =
    if ltb c.version x.version
    then record c {
      text = apply_op c.text x.op;
      ops = c.ops ++ x ∷ [];
      version = x.version;
      epoch = c.epoch + 1;
    }
    else c

-- What `note_committed` does once the label is remembered.
unfoldable pub insert_committed : PerDocCache → CommittedOp → PerDocCache
unfolding upgrade
insert_committed c x = elim (upgrade c.ops x) [
  | none ↦ apply_committed c x
  | some ops ↦ record c { ops = ops }
]

unfoldable pub note_committed : PerDocCache → CommittedOp → PerDocCache
unfolding insert_committed
note_committed c x = insert_committed (remember x.client_id x.client_id_label c) x

abbrev pub label_one : ℕ → Bytes → CommittedOp → CommittedOp
label_one cid label x =
    if x.client_id == cid && is_empty x.client_id_label
    then record x { client_id_label = label }
    else x

unfoldable pub label_ops : ℕ → Bytes → List CommittedOp → List CommittedOp
label_ops cid label [] = []
label_ops cid label (x ∷ ops) = label_one cid label x ∷ label_ops cid label ops

unfoldable pub note_client_label : PerDocCache → ℕ → Bytes → PerDocCache
unfolding label_ops
note_client_label c cid label = if is_empty label then c else record c {
  client_labels = set_entry cid label c.client_labels;
  ops = label_ops cid label c.ops;
}

pub record ServerCacheState : Type 0 where
  pub known_docs : Docs
  pub by_doc : List (Bytes × PerDocCache)
  pub docs_epoch : ℕ

abbrev pub empty_server : ServerCacheState
empty_server = record { known_docs = []; by_doc = []; docs_epoch = 0 }

-- `doc(id)`: the cache of a document; a missing one is empty.
abbrev pub or_empty : Option PerDocCache → PerDocCache
or_empty none = empty_cache
or_empty (some c) = c

abbrev pub doc : ServerCacheState → Bytes → PerDocCache
doc g doc_id = or_empty (find doc_id g.by_doc)

-- A write through the reference that `doc(id)` gives.
abbrev pub set_doc : ServerCacheState → Bytes → PerDocCache → ServerCacheState
set_doc g doc_id c = record g { by_doc = set_entry doc_id c g.by_doc }

unfoldable pub ensure_doc : ServerCacheState → Bytes → ServerCacheState
ensure_doc g doc_id = record g {
  known_docs = emplace doc_id tt g.known_docs;
  docs_epoch = if is_none (find doc_id g.known_docs) then g.docs_epoch + 1 else g.docs_epoch;
  by_doc = emplace doc_id empty_cache g.by_doc;
}
