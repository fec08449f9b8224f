-- ===== src/DocOps.antt =====
-- pset4/doc_ops.cc and doc_ops.hh: the edit operations of a document and operational
-- transformation. A text is the list of its bytes; positions and lengths are words.
pub mod Edits
pub mod Convergence
pub mod Deletes
pub mod Inserts
pub mod Diamond
pub mod Sequence
pub mod Serial
pub mod RoundTrip
use doom_draft.Base.{
  ℕ, ◌+◌, ◌-◌, min, Bool, true, false, ◌&&◌, List, [], ◌∷◌, ◌++◌, length, is_empty, take, drop, ltb,
  leb, ◌==◌, if◌then◌else◌, add64, sub64,
}

abbrev pub Bytes : Type 0
Bytes = List ℕ

-- `doc_op`, the variant of `insert_op {pos, text}` and `delete_op {pos, len}`.
pub data DocOp : Type 0 where
  insert_op : ℕ → Bytes → DocOp
  delete_op : ℕ → ℕ → DocOp

-- `text.insert(pos, t)` and `text.erase(pos, len)` of `std::string`, in range.
abbrev pub insert_at : Bytes → ℕ → Bytes → Bytes
insert_at text pos t = take pos text ++ (t ++ drop pos text)

abbrev pub erase_at : Bytes → ℕ → ℕ → Bytes
erase_at text pos len = take pos text ++ drop (pos + len) text

unfoldable pub apply_op : Bytes → DocOp → Bytes
apply_op text (insert_op p t) =
    if is_empty t then text else let pos = min p (length text) in insert_at text pos t
apply_op text (delete_op p n) =
    if n == 0
    then text
    else let pos = min p (length text) in
      let len = min n (length text - pos) in erase_at text pos len

-- Delete against delete: the cases A to F of the source, in its order.
unfoldable pub transform_delete : ℕ → ℕ → ℕ → ℕ → DocOp
transform_delete pa la pb lb =
    if leb (add64 pa la) pb
    then delete_op pa la
    else if leb (add64 pb lb) pa
    then delete_op (sub64 pa lb) la
    else if leb pb pa && leb (add64 pa la) (add64 pb lb)
    then delete_op 0 0
    else if leb pa pb && leb (add64 pb lb) (add64 pa la)
    then delete_op pa (sub64 la lb)
    else if ltb pa pb
    then delete_op pa (sub64 pb pa)
    else delete_op pb (sub64 (sub64 (add64 pa la) pb) lb)

-- `transform(a, b)`: `a` adjusted for a `b` that is already applied.
unfoldable pub transform : DocOp → DocOp → DocOp
unfolding transform_delete
transform (insert_op pa ta) (insert_op pb tb) =
    if leb pb pa then insert_op (add64 pa (length tb)) ta else insert_op pa ta
transform (insert_op pa ta) (delete_op pb lb) =
    if leb pa pb
    then insert_op pa ta
    else if leb (add64 pb lb) pa
    then insert_op (sub64 pa lb) ta
    else insert_op 0 []
transform (delete_op pa la) (insert_op pb tb) =
    if leb (add64 pa la) pb
    then delete_op pa la
    else if leb pb pa
    then delete_op (add64 pa (length tb)) la
    else delete_op pa (add64 la (length tb))
transform (delete_op pa la) (delete_op pb lb) = transform_delete pa la pb lb

unfoldable pub transform_seq : DocOp → List DocOp → DocOp
transform_seq a [] = a
transform_seq a (b ∷ bs) = transform_seq (transform a b) bs
