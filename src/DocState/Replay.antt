-- ===== src/DocState/Replay.antt =====
-- Storing an operation and replaying the database.
use doom_draft.Base.{
  ℕ, ◌<◌, ◌≡◌, refl, ◌∙◌, ap, List, [], ◌∷◌, ◌++◌, Option, none, some, Bool-cases, inl, inr, word,
  arith,
}
use Prim.Native.Nat.{Ordering, lt, eq, gt}
use doom_draft.OrdMap.{find, emplace}
use doom_draft.Keys.{bytes_ord, compare_bytes, compare_bytes-flip}
use doom_draft.DocOps.{Bytes, DocOp, apply_op}
use doom_draft.DocOps.Serial
use doom_draft.DocOps.Serial.{Result, serialize, deserialize}
use doom_draft.DocOps.RoundTrip.{IsWords}
use doom_draft.Msgs.{any_version}
use doom_draft.Db.{Vv, PancyDb, process_put}
use doom_draft.Db.Invariant.{Inv}
use doom_draft.DocState.{
  CommittedOp, op_key, read_entry, append_op, collect_ops, read_ops, reconstruct, is_foreign,
  committed,
}
use doom_draft.Db.Cells.{CellsOlder, find_head-CellsOlder}
use doom_draft.DocState.Keying.{read_entry-op_key}
use doom_draft.DocState.Order.{Older, sort_newest, reconstruct-append}

committed-Older :
    (n : ℕ) (v : Vv) (numbers : Option (ℕ × ℕ)) (parsed : Result DocOp) (l : List CommittedOp)
    → v.version < n
    → Older n l
    → Older n (append_op (committed v numbers parsed) l)
committed-Older n v none parsed l h k = k
committed-Older n v (some (cid, seq)) (Serial.err e) l h k = k
committed-Older n v (some (cid, seq)) (Serial.ok op) l h k = ground arith

read_entry-Older :
    (n : ℕ) (doc key : Bytes) (v : Vv) (l : List CommittedOp)
    → v.version < n
    → Older n l
    → Older n (append_op (read_entry doc key v) l)
unfolding read_entry
read_entry-Older n doc key v l h k = elim (Bool-cases (is_foreign doc key)) [
  | inl e ↦ rw e k
  | inr e ↦ rw e (committed-Older n v _ _ l h k)
]

pub collect-Older :
    (n : ℕ) (doc : Bytes) (m : List (Bytes × Vv)) → CellsOlder n m → Older n (collect_ops doc m)
unfolding collect_ops
collect-Older n doc [] h = tt
collect-Older n doc ((k, v) ∷ m) h =
    read_entry-Older n doc k v (collect_ops doc m) h.0 (collect-Older n doc m h.1)

-- Where a new entry lands among the operations that are read.
record Split (n : ℕ) (doc key : Bytes) (v : Vv) (m : List (Bytes × Vv)) : Type 0 where
  front : List CommittedOp
  back : List CommittedOp
  was : collect_ops doc m ≡ front ++ back
  now : collect_ops doc (emplace key v m) ≡ front ++ append_op (read_entry doc key v) back
  front_older : Older n front
  back_older : Older n back

append_op-append :
    (o : Option CommittedOp) (xs ys : List CommittedOp)
    → append_op o (xs ++ ys) ≡ append_op o xs ++ ys
append_op-append none xs ys = refl
append_op-append (some c) xs ys = refl

-- Beside the first entry of the map, by the order of the keys.
ordered-Split :
    (n : ℕ) (doc key : Bytes) (v : Vv) (k : Bytes) (w : Vv) (m : List (Bytes × Vv)) (c : Ordering)
    → compare_bytes key k ≡ c
    → find key ((k, w) ∷ m) ≡ none
    → CellsOlder n ((k, w) ∷ m)
    → (find key m ≡ none → Split n doc key v m)
    → Split n doc key v ((k, w) ∷ m)
unfolding find emplace collect_ops
ordered-Split n doc key v k w m lt g e h ih = record {
  front = [];
  back = collect_ops doc ((k, w) ∷ m);
  was = refl;
  now = rw (g, emplace);
  front_older = tt;
  back_older = collect-Older n doc ((k, w) ∷ m) h;
}
ordered-Split n doc key v k w m eq g e h ih = absurd (ground (arith, g, compare_bytes-flip key k))
ordered-Split n doc key v k w m gt g e h ih =
    let s = ih (ground (arith, e, g, compare_bytes-flip key k)) in
    record {
      front = append_op (read_entry doc k w) s.front;
      back = s.back;
      was = ap (append_op (read_entry doc k w)) s.was ∙ append_op-append _ s.front s.back;
      now =
          rw (g, emplace)
            (ap (append_op (read_entry doc k w)) s.now ∙ append_op-append _ s.front _);
      front_older = read_entry-Older n doc k w s.front h.0 s.front_older;
      back_older = s.back_older;
    }

emplace-Split :
    (n : ℕ) (doc key : Bytes) (v : Vv) (m : List (Bytes × Vv))
    → find key m ≡ none
    → CellsOlder n m
    → Split n doc key v m
unfolding find emplace collect_ops
emplace-Split n doc key v [] e h = record {
  front = [];
  back = [];
  was = refl;
  now = refl;
  front_older = tt;
  back_older = tt;
}
emplace-Split n doc key v ((k, w) ∷ m) e h =
    ordered-Split n doc key v k w m (compare_bytes key k) refl e h
      λ f. emplace-Split n doc key v m f h.1

-- What the database of a replica holds after a `put` of an operation.
abbrev pub put_op : PancyDb → Bytes → ℕ → ℕ → ℕ → DocOp → PancyDb
put_op d doc serial cid seq op =
    (process_put d (record {
      serial = serial;
      key = op_key doc cid seq;
      value = serialize op;
      version_match = any_version;
    })).0

module _ (d : PancyDb) (doc : Bytes) (serial cid seq : ℕ) (op : DocOp) (inv : Inv d)
    (fresh : find (op_key doc cid seq) d.db ≡ none) (c : cid < word) (s : seq < word)
    (w : IsWords op) where
  abbrev new_op : CommittedOp
  new_op = record {
    version = d.next_version;
    client_id = cid;
    client_seq = seq;
    op = op;
    client_id_label = [];
  }

  put_op-emplace :
      (put_op d doc serial cid seq op).db
      ≡ emplace
          (op_key doc cid seq)
          (record { value = serialize op; version = d.next_version })
          d.db
  unfolding process_put
  put_op-emplace = ground (arith, fresh)

  -- An operation that is put under a fresh key is read back as the last one; the operations read
  -- before it stay, in their order.
  pub read_ops-put_op :
      read_ops (put_op d doc serial cid seq op) doc ≡ read_ops d doc ++ new_op ∷ []
  unfolding read_ops
  read_ops-put_op =
      let older =
        find_head-CellsOlder d.next_version d.db inv.sorted (λ k v e. (inv.versions k v e).1) in
      let split =
        emplace-Split d.next_version doc (op_key doc cid seq)
          (record { value = serialize op; version = d.next_version }) d.db fresh older in
      rw
        (
          put_op-emplace,
          split.now,
          split.was,
          read_entry-op_key doc cid seq op d.next_version c s w inv.positive,
        )
        (sort_newest new_op split.front split.back split.front_older split.back_older)

  -- Replaying the database after an operation was put under a fresh key gives the text of before
  -- with that operation applied.
  pub reconstruct-put_op :
      reconstruct (read_ops (put_op d doc serial cid seq op) doc)
      ≡ apply_op (reconstruct (read_ops d doc)) op
  reconstruct-put_op = ap reconstruct read_ops-put_op ∙ reconstruct-append (read_ops d doc) new_op
