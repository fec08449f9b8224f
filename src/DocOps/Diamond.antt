-- ===== src/DocOps/Diamond.antt =====
-- The diamond property of `transform`, as doc_ops.hh states it.
use doom_draft.Base.{sym, dec_lt, arith}
use doom_draft.DocOps.{Bytes, DocOp, insert_op, delete_op}
use doom_draft.DocOps.Convergence.{Lands, NoWrap, Apart, Converges}
use doom_draft.DocOps.Deletes.{delete-delete}
use doom_draft.DocOps.Inserts.{insert-insert, insert-delete}

-- The diamond property: at any text, two concurrent operations give the same text in both orders,
-- each transformed against the other, provided that no insertion starts past the end of the text,
-- that they are not two insertions at one position, and that no sum exceeds 64 bits.
pub transform-diamond :
    (text : Bytes) (a b : DocOp)
    → Lands text a
    → Lands text b
    → Apart a b
    → NoWrap a b
    → Converges text a b
transform-diamond xs (insert_op p t) (insert_op q u) h k d w = elim (dec_lt q p) [
  | yes a ↦ insert-insert xs p t q u h a w.0
  | no a ↦ sym (insert-insert xs q u p t k (omega arith) w.1)
]
transform-diamond xs (insert_op p t) (delete_op q n) h k d w =
    insert-delete xs p t q n h (omega arith) w.1
transform-diamond xs (delete_op p n) (insert_op q u) h k d w =
    sym (insert-delete xs q u p n k (omega arith) w.0)
transform-diamond xs (delete_op p n) (delete_op q m) h k d w =
    delete-delete xs p n q m (omega arith) (omega arith)
