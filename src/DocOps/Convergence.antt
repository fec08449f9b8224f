-- ===== src/DocOps/Convergence.antt =====
-- What doc_ops.hh asks of `transform`: the words in which its properties are stated.
use doom_draft.Base.{ℕ, ◌+◌, ◌≤◌, ◌<◌, ◌≡◌, ◌≢◌, length, word}
use doom_draft.DocOps.{Bytes, DocOp, insert_op, delete_op, apply_op, transform}

-- The last position that an operation names, and by how much it lengthens a text.
abbrev pub extent : DocOp → ℕ
extent (insert_op p t) = p
extent (delete_op p n) = p + n

abbrev pub growth : DocOp → ℕ
growth (insert_op p t) = length t
growth (delete_op p n) = 0

-- An insertion that is not clamped.
abbrev pub Lands : Bytes → DocOp → Type 0
Lands text (insert_op p t) = p ≤ length text
Lands text (delete_op p n) = Unit

-- The sums that `transform` computes do not wrap around.
abbrev pub NoWrap : DocOp → DocOp → Type 0
NoWrap a b = (extent a + growth b < word) × (extent b + growth a < word)

-- Not two insertions at one position.
abbrev pub Apart : DocOp → DocOp → Type 0
Apart (insert_op p t) (insert_op q u) = p ≢ q
Apart (insert_op p t) (delete_op q n) = Unit
Apart (delete_op p n) b = Unit

-- Both orders, each with the later operation transformed, give one text.
abbrev pub Converges : Bytes → DocOp → DocOp → Type 0
Converges text a b =
    apply_op (apply_op text a) (transform b a) ≡ apply_op (apply_op text b) (transform a b)
