-- ===== src/DocOps/Sequence.antt =====
-- `transform_seq`, and two insertions at one position.
use doom_draft.Base.{
  ℕ, ◌+◌, ◌-◌, ◌≤◌, ◌<◌, ◌≡◌, ◌↔◌, refl, ◌∙◌, ap, sym, List, [], ◌∷◌, ◌++◌, length, get_elem?,
  get_elem?-ext, get_elem?-append, get_elem?_beyond, length-append, ltb, if◌then◌else◌, word, arith,
}
use doom_draft.DocOps.{Bytes, DocOp, insert_op, apply_op, transform, transform_seq}
use doom_draft.DocOps.Edits.{get_elem?-insert, length-insert}
use doom_draft.DocOps.Convergence.{Lands, NoWrap, Apart, Converges}
use doom_draft.DocOps.Diamond.{transform-diamond}

-- The operations applied one after another.
abbrev pub apply_all : Bytes → List DocOp → Bytes
apply_all text [] = text
apply_all text (b ∷ bs) = apply_all (apply_op text b) bs

-- The committed operations as a replica sees them that has `a` already.
abbrev pub rebased : DocOp → List DocOp → List DocOp
rebased a [] = []
rebased a (b ∷ bs) = transform b a ∷ rebased (transform a b) bs

-- The conditions of the diamond property at each step of the sequence.
abbrev pub Concurrent : Bytes → DocOp → List DocOp → Type 0
Concurrent text a [] = Unit
Concurrent text a (b ∷ bs) =
    Lands text a
    × Lands text b
    × Apart a b
    × NoWrap a b
    × Concurrent (apply_op text b) (transform a b) bs

-- A pending operation that is transformed against a committed sequence, and applied behind it,
-- gives the text of a replica that applied it first and the rebased sequence afterwards, when the
-- conditions of the diamond property hold at each step.
pub transform_seq-converges :
    (text : Bytes) (a : DocOp) (bs : List DocOp)
    → Concurrent text a bs
    → apply_op (apply_all text bs) (transform_seq a bs) ≡ apply_all (apply_op text a) (rebased a bs)
unfolding transform_seq
transform_seq-converges text a [] h = refl
transform_seq-converges text a (b ∷ bs) (la, lb, d, w, h) =
    transform_seq-converges (apply_op text b) (transform a b) bs h
    ∙ ap (λ s. apply_all s (rebased (transform a b) bs))
        (sym (transform-diamond text a b la lb d w))

same_pos_at :
    (xs : Bytes) (p : ℕ) (t u : Bytes) (i : ℕ)
    → p ≤ length xs
    → get_elem? (apply_op (apply_op xs (insert_op p t)) (insert_op (p + length t) u)) i ≡ (
        if ltb i p
        then get_elem? xs i
        else if ltb i (p + length t + length u)
        then get_elem? (t ++ u) (i - p)
        else get_elem? xs (i - length t - length u))
same_pos_at xs p t u i h = ground (
  arith,
  get_elem?-insert (apply_op xs (insert_op p t)) (p + length t) u i,
  get_elem?-insert xs p t i,
  get_elem?-insert xs p t (i - length u),
  get_elem?-append t u (i - p),
  length-insert xs p t,
)

module _ (xs : Bytes) (p : ℕ) (t u : Bytes) (h : p ≤ length xs) (v : p + length t < word)
    (w : p + length u < word) where
  same_pos_transform :
      (transform (insert_op p t) (insert_op p u) ≡ insert_op (p + length u) t)
      × (transform (insert_op p u) (insert_op p t) ≡ insert_op (p + length t) u)
  unfolding transform
  same_pos_transform = (ground arith, ground arith)

  -- Two insertions at one position of a text, which is inside it or at its end and whose sums with
  -- the lengths of both texts do not wrap, converge exactly if their texts commute: the last
  -- writer's text stands behind the other one on each side.
  pub same_pos-Converges : Converges xs (insert_op p t) (insert_op p u) ↔ (t ++ u ≡ u ++ t)
  same_pos-Converges =
      let (e, f) = same_pos_transform in
      (
        λ c. get_elem?-ext _ _ λ j.
            let c' : apply_op (apply_op xs (insert_op p t)) (insert_op (p + length t) u)
                ≡ apply_op (apply_op xs (insert_op p u)) (insert_op (p + length u) t) =
              rw (e, f) at c in
            ground (
              arith,
              ap (λ l. get_elem? l (p + j)) c',
              same_pos_at xs p t u (p + j) h,
              same_pos_at xs p u t (p + j) h,
              get_elem?_beyond (t ++ u) j,
              get_elem?_beyond (u ++ t) j,
              length-append t u,
              length-append u t,
            ),
        λ c.
            rw (e, f)
              (get_elem?-ext _ _
                λ i. ground (arith, same_pos_at xs p t u i h, same_pos_at xs p u t i h, c)),
      )
