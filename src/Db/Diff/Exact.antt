-- ===== src/Db/Diff/Exact.antt =====
-- Without a skew `diff` finds no difference exactly between stores with the same cells.
use Prim.Native.Nat.{lt, eq, gt}
use doom_draft.Base.{
  ℕ, zero, suc, ◌+◌, ◌≤◌, ◌<◌, ◌≡◌, ◌↔◌, refl, sym, subst, Bool, true, false, List, [], ◌∷◌, Option,
  none, some, ltb, if_cases, length, arith,
}
use doom_draft.Keys.{bytes_ord, compare_bytes, compare_bytes_iff}
use doom_draft.DocOps.{Bytes}
use doom_draft.Db.{Vv, RecentRemove, PancyDb}
use doom_draft.Db.Invariant.{Inv, Recent}
use doom_draft.Db.Cells.{CellsOlder, find_head-CellsOlder}
use doom_draft.Db.Diff.{
  find_recent_remove, oldest_predates, removes_complete, differs, diff_loop, diff_newer, diff,
}

-- Removals are older than the counter, so none lies in a window without skew.
recent-none :
    (m n : ℕ) (rs : List RecentRemove) (k : Bytes)
    → m ≤ n
    → Recent m rs
    → find_recent_remove rs k n 0 ≡ none
unfolding find_recent_remove
recent-none m n [] k h r = refl
recent-none m n (rr ∷ rs) k h (lt_n, p, q, r) =
    ground (arith, lt_n, recent-none rr.remove_version n rs k (omega (arith, lt_n)) r)

predates : (m n : ℕ) (rs : List RecentRemove) → m ≤ n → Recent m rs → oldest_predates rs n 0 ≡ true
unfolding oldest_predates
predates m n [] h r = refl
predates m n (rr ∷ []) h (lt_n, p, q, r) = ground (arith, lt_n)
predates m n (rr ∷ s ∷ rs) h (lt_n, p, q, r) =
    predates rr.remove_version n (s ∷ rs) (omega (arith, lt_n)) r

complete : (d : PancyDb) → Inv d → removes_complete d 0 ≡ true
unfolding removes_complete
complete d inv =
    ground (arith, predates d.next_version d.next_version d.recent_removes (omega arith) inv.recent)

-- Without a skew two cells are no error exactly if they are the same.
same_cells : (n : ℕ) (v w : Vv) → v.version < n → differs n 0 true (some v) (some w) ≡ false → v ≡ w
same_cells n v w h e =
    let same_version : v.version ≡ w.version = ground arith in
    let same_value : v.value ≡ w.value = ground (arith, compare_bytes_iff v.value w.value) in
    λ i. record { value = same_value i; version = same_version i }

no_difference : (n skew : ℕ) (c : Bool) (v : Vv) → differs n skew c (some v) (some v) ≡ false
no_difference n skew c v = ground (arith, compare_bytes_iff v.value v.value)

-- Stores with the same cells pass, whatever the skew.
loop_same :
    (d e : PancyDb) (skew fuel : ℕ) (a : List (Bytes × Vv)) → diff_loop d e skew fuel a a ≡ none
unfolding diff_loop
loop_same d e skew zero a = refl
loop_same d e skew (suc fuel) [] = refl
loop_same d e skew (suc fuel) ((k, v) ∷ a) =
    rw
      (
        diff_loop,
        (compare_bytes_iff k k).1 refl,
        no_difference d.next_version skew (removes_complete d skew) v,
        loop_same d e skew fuel a,
      )
      refl

module _ (d e : PancyDb) (inv : Inv d) (inv' : Inv e)
    (newer : e.next_version ≤ d.next_version) where
  gone_here : (k : Bytes) → find_recent_remove d.recent_removes k d.next_version 0 ≡ none
  gone_here k =
      recent-none d.next_version d.next_version d.recent_removes k (omega arith) inv.recent

  gone_there : (k : Bytes) → find_recent_remove e.recent_removes k d.next_version 0 ≡ none
  gone_there k = recent-none e.next_version d.next_version e.recent_removes k newer inv'.recent

  loop_exact :
      (fuel : ℕ) (a b : List (Bytes × Vv))
      → length a + length b ≤ fuel
      → CellsOlder d.next_version a
      → diff_loop d e 0 fuel a b ≡ none
      → a ≡ b
  unfolding diff_loop
  loop_exact zero [] [] f o h = refl
  loop_exact zero (x ∷ a) b f o h = absurd (omega (arith, f))
  loop_exact zero [] (x ∷ b) f o h = absurd (omega (arith, f))
  loop_exact (suc fuel) [] [] f o h = refl
  loop_exact (suc fuel) ((k, v) ∷ a) [] f o h =
      let g = rw (gone_there k) at h in absurd (ground (arith, g, o.0))
  loop_exact (suc fuel) [] ((l, w) ∷ b) f o h =
      let g = rw (gone_here l, complete d inv) at h in absurd (cc g)
  loop_exact (suc fuel) ((k, v) ∷ a) ((l, w) ∷ b) f o h =
      elim (compare_bytes k l) as (λ c. compare_bytes k l ≡ c → (k, v) ∷ a ≡ (l, w) ∷ b) [
        | lt ↦ λ c. let g = rw (c, diff_loop, gone_there k) at h in absurd (ground (arith, g, o.0))
        | gt ↦ λ c. let g = rw (c, diff_loop, gone_here l, complete d inv) at h in absurd (cc g)
        | eq ↦ λ c.
            if_cases (λ r. r ≡ none → (k, v) ∷ a ≡ (l, w) ∷ b)
              (differs d.next_version 0 true (some v) (some w)) (λ bad g. absurd (cc g))
              (λ good g.
                let p : k ≡ l = (compare_bytes_iff k l).0 c in
                let q : v ≡ w = same_cells d.next_version v w o.0 good in
                let r : a ≡ b = loop_exact fuel a b (omega (arith, f)) o.1 g in
                λ i. (p i, q i) ∷ r i)
              (rw (c, diff_loop) at h)
      ]
        refl

same_stores : (d e : PancyDb) (skew : ℕ) → d.db ≡ e.db → diff_newer d e skew ≡ none
unfolding diff_newer
same_stores d e skew h =
    subst (λ m. diff_loop d e skew (length d.db + length e.db) d.db m ≡ none) h
      (loop_same d e skew (length d.db + length e.db) d.db)

newer_exact :
    (d e : PancyDb)
    → Inv d
    → Inv e
    → e.next_version ≤ d.next_version
    → diff_newer d e 0 ≡ none
    → d.db ≡ e.db
unfolding diff_newer
newer_exact d e inv inv' newer =
    loop_exact d e inv inv' newer (length d.db + length e.db) d.db e.db (omega arith)
      (find_head-CellsOlder d.next_version d.db inv.sorted (λ k v h. (inv.versions k v h).1))

-- Between well-formed stores, `diff` without a skew finds no difference exactly if both hold the
-- same keys with the same values and versions.
pub diff-exact : (d e : PancyDb) → Inv d → Inv e → (diff d e 0 ≡ none) ↔ (d.db ≡ e.db)
unfolding diff
diff-exact d e inv inv' =
    if_cases (λ (r : Option Bytes). (r ≡ none) ↔ (d.db ≡ e.db)) (ltb d.next_version e.next_version)
      (λ older. (
        λ h. sym (newer_exact e d inv' inv (ground (arith, older)) h),
        λ h. same_stores e d 0 (sym h),
      ))
      (λ newer. (newer_exact d e inv inv' (ground (arith, newer)), same_stores d e 0))
