-- ===== src/Db/Cells.antt =====
-- The cells of a store as a list.
use doom_draft.Base.{ℕ, ◌<◌, ◌≡◌, List, [], ◌∷◌, some, arith}
use doom_draft.OrdMap.{find, Sorted}
use doom_draft.OrdMap.Laws.{find-Above}
use doom_draft.Keys.{bytes_ord, compare_bytes_iff}
use doom_draft.DocOps.{Bytes}
use doom_draft.Db.{Vv}

-- Every cell is older than version `n`.
abbrev pub CellsOlder : ℕ → List (Bytes × Vv) → Type 0
CellsOlder n [] = Unit
CellsOlder n ((k, v) ∷ m) = (v.version < n) × CellsOlder n m

pub find_head-CellsOlder :
    (n : ℕ) (m : List (Bytes × Vv))
    → Sorted m
    → ((k : Bytes) (v : Vv) → find k m ≡ some v → v.version < n)
    → CellsOlder n m
unfolding find
find_head-CellsOlder n [] s h = tt
find_head-CellsOlder n ((k, v) ∷ m) s h = (
  h k v (ground (arith, compare_bytes_iff k k)),
  find_head-CellsOlder n m s.1
      (λ j w e. h j w (ground (arith, e, compare_bytes_iff k j, find-Above k m s.0))),
)
