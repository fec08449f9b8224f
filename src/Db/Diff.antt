-- ===== src/Db/Diff.antt =====
-- `pancydb::diff`: whether two stores are the same up to a skew of versions. `min_version` is the
-- newer counter less the skew and may be negative, so the test `v >= min_version` is written
-- `newest <= v + skew`.
pub mod Exact
use Prim.Native.Nat.{Ordering, lt, eq, gt}
use doom_draft.Base.{
  ℕ, zero, suc, ◌+◌, Bool, true, false, ◌&&◌, ◌||◌, not, List, [], ◌∷◌, Option, none, some, ◌==◌,
  ltb, leb, if◌then◌else◌, length,
}
use doom_draft.OrdMap.{same_key}
use doom_draft.Keys.{bytes_ord, compare_bytes}
use doom_draft.DocOps.{Bytes}
use doom_draft.Db.{Vv, RecentRemove, PancyDb, max_recent_removes}

-- `v >= min_version`.
abbrev pub recent : ℕ → ℕ → ℕ → Bool
recent newest skew v = leb newest (v + skew)

unfoldable pub find_recent_remove : List RecentRemove → Bytes → ℕ → ℕ → Option Vv
find_recent_remove [] key newest skew = none
find_recent_remove (rr ∷ rs) key newest skew =
    let rest = find_recent_remove rs key newest skew in
    if same_key rr.key key && recent newest skew rr.remove_version then some rr.vv else rest

-- The oldest removal is not after `min_version`; nothing is asked of an empty deque.
unfoldable pub oldest_predates : List RecentRemove → ℕ → ℕ → Bool
oldest_predates [] newest skew = true
oldest_predates (rr ∷ []) newest skew = leb (rr.remove_version + skew) newest
oldest_predates (rr ∷ r ∷ rs) newest skew = oldest_predates (r ∷ rs) newest skew

unfoldable pub removes_complete : PancyDb → ℕ → Bool
unfolding oldest_predates
removes_complete d skew =
    ltb (length d.recent_removes) max_recent_removes
    || oldest_predates d.recent_removes d.next_version skew

-- The chain of conditions in the loop: whether the two cells of a key are an error.
abbrev pub differs : ℕ → ℕ → Bool → Option Vv → Option Vv → Bool
differs newest skew complete none b = complete
differs newest skew complete (some a) none = not (recent newest skew a.version)
differs newest skew complete (some a) (some b) =
    ltb a.version b.version
    || ltb b.version a.version && not (recent newest skew a.version)
    || a.version == b.version && not (same_key a.value b.value)

-- The loop over both maps, with fuel for a round for each entry.
unfoldable pub diff_loop :
    PancyDb → PancyDb → ℕ → ℕ → List (Bytes × Vv) → List (Bytes × Vv) → Option Bytes
unfolding find_recent_remove removes_complete
diff_loop d e skew zero a b = none
diff_loop d e skew (suc fuel) [] [] = none
diff_loop d e skew (suc fuel) ((k, v) ∷ a) [] =
    let rest = diff_loop d e skew fuel a [] in
    let w = find_recent_remove e.recent_removes k d.next_version skew in
    if differs d.next_version skew (removes_complete d skew) (some v) w then some k else rest
diff_loop d e skew (suc fuel) [] ((l, w) ∷ b) =
    let rest = diff_loop d e skew fuel [] b in
    let v = find_recent_remove d.recent_removes l d.next_version skew in
    if differs d.next_version skew (removes_complete d skew) v (some w) then some l else rest
diff_loop d e skew (suc fuel) ((k, v) ∷ a) ((l, w) ∷ b) =
    let newest = d.next_version in
    let complete = removes_complete d skew in
    let past_a = diff_loop d e skew fuel a ((l, w) ∷ b) in
    let past_both = diff_loop d e skew fuel a b in
    let past_b = diff_loop d e skew fuel ((k, v) ∷ a) b in
    let gone_b = find_recent_remove e.recent_removes k newest skew in
    let gone_a = find_recent_remove d.recent_removes l newest skew in
    elim (compare_bytes k l) [
      | lt ↦ if differs newest skew complete (some v) gone_b then some k else past_a
      | eq ↦ if differs newest skew complete (some v) (some w) then some k else past_both
      | gt ↦ if differs newest skew complete gone_a (some w) then some l else past_b
    ]

unfoldable pub diff_newer : PancyDb → PancyDb → ℕ → Option Bytes
unfolding diff_loop
diff_newer d e skew = diff_loop d e skew (length d.db + length e.db) d.db e.db

-- The newer store comes first.
unfoldable pub diff : PancyDb → PancyDb → ℕ → Option Bytes
unfolding diff_newer
diff d e skew =
    if ltb d.next_version e.next_version then diff_newer e d skew else diff_newer d e skew
