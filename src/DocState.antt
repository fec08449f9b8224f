-- ===== src/DocState.antt =====
-- pset4/doc_state.cc and doc_state.hh: the editor operations stored in a database, and the text
-- that they make when replayed in the order of their versions.
pub mod Keying
pub mod Order
pub mod Replay
pub mod Stored
use doom_draft.Base.{
  ℕ, suc, ◌+◌, ◌≡◌, Bool, true, false, not, ◌||◌, List, [], ◌∷◌, ◌++◌, Option, none, some, ◌==◌,
  ltb, leb, if◌then◌else◌, take, drop, length, is_empty,
}
use doom_draft.OrdMap.{same_key}
use doom_draft.Keys.{bytes_ord}
use doom_draft.Decimal.{to_string, from_chars}
use doom_draft.DocOps.{Bytes, DocOp, apply_op}
use doom_draft.DocOps.Serial
use doom_draft.DocOps.Serial.{deserialize, Result}
use doom_draft.Msgs.{nonexistent_version}
use doom_draft.Db.{Vv, PancyDb}

pub record CommittedOp : Type 0 where
  pub version : ℕ
  pub client_id : ℕ
  pub client_seq : ℕ
  pub op : DocOp
  pub client_id_label : Bytes

-- "doc/" and "/op/".
abbrev pub doc_slash : Bytes
doc_slash = b'd' ∷ b'o' ∷ b'c' ∷ b'/' ∷ []

abbrev pub slash_op_slash : Bytes
slash_op_slash = b'/' ∷ b'o' ∷ b'p' ∷ b'/' ∷ []

unfoldable pub doc_op_prefix : Bytes → Bytes
doc_op_prefix doc_id = doc_slash ++ (doc_id ++ slash_op_slash)

unfoldable pub op_key : Bytes → ℕ → ℕ → Bytes
op_key doc_id client_id client_seq =
    doc_slash
    ++ (doc_id ++ (slash_op_slash ++ (to_string client_id ++ b'/' ∷ to_string client_seq)))

-- `find('/')` of a string view.
unfoldable pub find_slash : Bytes → Option ℕ
find_slash [] = none
find_slash (c ∷ s) =
    if c == b'/' then some 0 else elim (find_slash s) [ none ↦ none | some i ↦ some (suc i) ]

-- A number that is the whole of the text.
abbrev pub whole : Option (ℕ × Bytes) → Option ℕ
whole none = none
whole (some (n, [])) = some n
whole (some (n, c ∷ s)) = none

abbrev pub both : Option ℕ → Option ℕ → Option (ℕ × ℕ)
both none n = none
both (some m) none = none
both (some m) (some n) = some (m, n)

unfoldable pub no_slash : Bytes → Bool
unfolding find_slash
no_slash s = elim (find_slash s) [ none ↦ true | some i ↦ false ]

unfoldable pub parse_op_suffix : Bytes → Option (ℕ × ℕ)
unfolding no_slash
parse_op_suffix suffix = elim (find_slash suffix) [
  | none ↦ none
  | some slash ↦
      let a = take slash suffix in
      let b = drop (slash + 1) suffix in
      if slash == 0 || leb (length suffix) (slash + 1)
      then none
      else if no_slash b
      then both (whole (from_chars a)) (whole (from_chars b))
      else none
]

abbrev pub committed : Vv → Option (ℕ × ℕ) → Result DocOp → Option CommittedOp
committed cell none r = none
committed cell (some (cid, seq)) (Serial.err e) = none
committed cell (some (cid, seq)) (Serial.ok op) =
    if cell.version == nonexistent_version
    then none
    else some (record {
      version = cell.version;
      client_id = cid;
      client_seq = seq;
      op = op;
      client_id_label = [];
    })

-- Not a key of an operation of the document.
abbrev pub is_foreign : Bytes → Bytes → Bool
is_foreign doc_id key =
    let prefix = doc_op_prefix doc_id in
    leb (length key) (length prefix) || not (same_key (take (length prefix) key) prefix)

-- One round of the loop of `read_ops`: what it appends for an entry, if anything.
unfoldable pub read_entry : Bytes → Bytes → Vv → Option CommittedOp
unfolding doc_op_prefix parse_op_suffix
read_entry doc_id key cell =
    if is_foreign doc_id key
    then none
    else committed cell (parse_op_suffix (drop (length (doc_op_prefix doc_id)) key))
        (deserialize cell.value)

abbrev pub append_op : Option CommittedOp → List CommittedOp → List CommittedOp
append_op none out = out
append_op (some c) out = c ∷ out

unfoldable pub collect_ops : Bytes → List (Bytes × Vv) → List CommittedOp
collect_ops doc_id [] = []
collect_ops doc_id ((key, cell) ∷ m) = append_op (read_entry doc_id key cell) (collect_ops doc_id m)

-- The comparison that `read_ops` sorts by.
abbrev pub before : CommittedOp → CommittedOp → Bool
before x y =
    if not (x.version == y.version)
    then ltb x.version y.version
    else if not (x.client_id == y.client_id)
    then ltb x.client_id y.client_id
    else ltb x.client_seq y.client_seq

-- `std::sort` by that comparison.
unfoldable pub insert_op_sorted : CommittedOp → List CommittedOp → List CommittedOp
insert_op_sorted x [] = x ∷ []
insert_op_sorted x (y ∷ l) = if before y x then y ∷ insert_op_sorted x l else x ∷ y ∷ l

unfoldable pub sort_ops : List CommittedOp → List CommittedOp
unfolding insert_op_sorted
sort_ops [] = []
sort_ops (x ∷ l) = insert_op_sorted x (sort_ops l)

unfoldable pub read_ops : PancyDb → Bytes → List CommittedOp
unfolding collect_ops sort_ops
read_ops d doc_id = sort_ops (collect_ops doc_id d.db)

-- The loop of `reconstruct`, from the text so far.
unfoldable pub replay : Bytes → List CommittedOp → Bytes
replay text [] = text
replay text (c ∷ l) = replay (apply_op text c.op) l

unfoldable pub reconstruct : List CommittedOp → Bytes
unfolding replay
reconstruct ops = replay [] ops
