-- ===== src/Examples.antt =====
-- The theorems at concrete inputs.
mod Election
mod Editing
mod Server
mod Commits
use doom_draft.Base.{
  ℕ, ◌+◌, ◌≡◌, ◌↔◌, refl, true, false, not, ◌&&◌, if◌then◌else◌, List, [], ◌∷◌, ◌++◌, some, none,
  length, word, arith,
}
use doom_draft.OrdMap.{find, same_key}
use doom_draft.Keys.{bytes_ord}
use doom_draft.Decimal.{to_string}
use doom_draft.DocOps.{Bytes, DocOp, insert_op, delete_op, apply_op, transform, transform_seq}
use doom_draft.DocOps.Convergence.{Converges}
use doom_draft.DocOps.Diamond.{transform-diamond}
use doom_draft.DocOps.Sequence.{apply_all, rebased, transform_seq-converges, same_pos-Converges}
use doom_draft.DocOps.Serial
use doom_draft.DocOps.Serial.{serialize, deserialize}
use doom_draft.DocOps.RoundTrip.{narrow, deserialize-serialize_any}
use doom_draft.Msgs.{
  PutRequest, CasRequest, RemoveRequest, Request, put_request, any_version, pos, mismatch,
}
use doom_draft.Db.{
  PancyDb, empty_db, Vv, get, put, find_vvptr, process_put, process_cas, process_remove,
  process_req,
}
use doom_draft.Db.Invariant.{Inv, empty-Inv, process_req-Inv}
use doom_draft.Db.Refinement.{
  Wants, held, Writes, Removes, process_put-Writes, process_cas-Writes, process_remove-Removes,
}
use doom_draft.DocState.{op_key, read_ops, reconstruct}
use doom_draft.DocState.Order.{InOrder}
use doom_draft.DocState.Stored.{Complete, AllStored, read_ops-InOrder}
use doom_draft.Db.Readback.{get-put}
use doom_draft.Db.Diff.{diff}
use doom_draft.Db.Diff.Exact.{diff-exact}
use doom_draft.DocState.Replay.{put_op, reconstruct-put_op}

-- "ABCDE" and "XY".
abbrev abcde : Bytes
abcde = 65 ∷ 66 ∷ 67 ∷ 68 ∷ 69 ∷ []

abbrev xy : Bytes
xy = 88 ∷ 89 ∷ []

transform-diamond_example : Converges abcde (insert_op 2 xy) (delete_op 1 3)
transform-diamond_example =
    transform-diamond abcde (insert_op 2 xy) (delete_op 1 3) (omega arith) tt tt (omega arith)

-- Deleting around a concurrent insertion takes the insertion too.
covered :
    apply_op (apply_op abcde (insert_op 2 xy)) (transform (delete_op 1 3) (insert_op 2 xy))
    ≡ 65 ∷ 69 ∷ []
unfolding apply_op transform
covered = refl

transform_seq-converges_example :
    apply_op
      (apply_all abcde (delete_op 0 1 ∷ insert_op 3 xy ∷ []))
      (transform_seq (insert_op 2 (90 ∷ [])) (delete_op 0 1 ∷ insert_op 3 xy ∷ []))
    ≡ apply_all
        (apply_op abcde (insert_op 2 (90 ∷ [])))
        (rebased (insert_op 2 (90 ∷ [])) (delete_op 0 1 ∷ insert_op 3 xy ∷ []))
unfolding transform apply_op
transform_seq-converges_example =
    transform_seq-converges abcde (insert_op 2 (90 ∷ [])) (delete_op 0 1 ∷ insert_op 3 xy ∷ [])
      (omega arith, tt, tt, omega arith, (omega arith, omega arith, omega arith, omega arith, tt))

same_pos-Converges_example :
    Converges abcde (insert_op 2 xy) (insert_op 2 (88 ∷ [])) ↔ (xy ++ 88 ∷ [] ≡ (88 ∷ []) ++ xy)
same_pos-Converges_example =
    same_pos-Converges abcde 2 xy (88 ∷ []) (omega arith) (omega arith) (omega arith)

deserialize-serialize_any_example :
    deserialize (serialize (insert_op 12 abcde)) ≡ Serial.ok (narrow (insert_op 12 abcde))
deserialize-serialize_any_example = deserialize-serialize_any (insert_op 12 abcde)

abbrev put_k : PutRequest
put_k = record { serial = 7; key = 107 ∷ []; value = xy; version_match = any_version }

abbrev cas_k : CasRequest
cas_k = record { serial = 8; key = 107 ∷ []; expected = []; desired = abcde; version_match = pos 0 }

abbrev remove_k : RemoveRequest
remove_k = record { serial = 9; key = 107 ∷ []; version_match = any_version }

process_req-Inv_example : Inv (process_req empty_db (put_request put_k)).0
process_req-Inv_example = process_req-Inv empty_db (put_request put_k) empty-Inv

process_put-Writes_example :
    Writes empty_db (Wants put_k.version_match 0) 7 (107 ∷ []) xy (process_put empty_db put_k)
unfolding find
process_put-Writes_example = process_put-Writes empty_db put_k empty-Inv

reconstruct-put_op_example :
    reconstruct (read_ops (put_op empty_db (109 ∷ []) 5 1 0 (insert_op 0 xy)) (109 ∷ []))
    ≡ apply_op (reconstruct (read_ops empty_db (109 ∷ []))) (insert_op 0 xy)
unfolding find
reconstruct-put_op_example =
    reconstruct-put_op empty_db (109 ∷ []) 5 1 0 (insert_op 0 xy) empty-Inv refl (omega arith)
      (omega arith) (omega arith)

-- The store with `put_k` done.
abbrev with_k : PancyDb
with_k = (process_req empty_db (put_request put_k)).0

with_k-Inv : Inv with_k
with_k-Inv = process_req-Inv empty_db (put_request put_k) empty-Inv

process_cas-Writes_example :
    Writes with_k
      ((cas_k.expected ≡ (held with_k cas_k.key).value)
        × Wants cas_k.version_match (held with_k cas_k.key).version)
      8
      (107 ∷ [])
      abcde
      (process_cas with_k cas_k)
process_cas-Writes_example = process_cas-Writes with_k cas_k with_k-Inv

process_remove-Removes_example : Removes with_k remove_k (process_remove with_k remove_k)
process_remove-Removes_example = process_remove-Removes with_k remove_k with_k-Inv

get-put_example : get (put with_k (108 ∷ []) xy) (107 ∷ []) ≡ (
    if same_key {K = Bytes} (108 ∷ []) (107 ∷ [])
    then some (record { value = xy; version = with_k.next_version })
    else get with_k (107 ∷ []))
get-put_example = get-put with_k (108 ∷ []) (107 ∷ []) xy with_k-Inv

-- The store with two operations of the document.
abbrev with_ops : PancyDb
with_ops =
    put_op (put_op empty_db (109 ∷ []) 5 1 0 (insert_op 0 xy)) (109 ∷ []) 6 0 0 (delete_op 0 1)

read_ops-InOrder_example :
    let l = read_ops with_ops (109 ∷ []) in
    InOrder l × Complete with_ops (109 ∷ []) l × AllStored with_ops (109 ∷ []) l
read_ops-InOrder_example = read_ops-InOrder with_ops (109 ∷ [])

diff-exact_example : (diff with_k empty_db 0 ≡ none) ↔ (with_k.db ≡ empty_db.db)
diff-exact_example = diff-exact with_k empty_db with_k-Inv empty-Inv
