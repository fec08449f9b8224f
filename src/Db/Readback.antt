-- ===== src/Db/Readback.antt =====
-- The direct interface `get` and `put` of pancydb.hh.
use doom_draft.Base.{◌≡◌, refl, ◌∙◌, some, if◌then◌else◌, Option-cases, inl, inr, arith}
use doom_draft.OrdMap.{same_key, find}
use doom_draft.Keys.{bytes_ord}
use doom_draft.DocOps.{Bytes}
use doom_draft.Db.{PancyDb, get, put}
use doom_draft.Db.Invariant.{Inv, put_lem, put-Inv, store_lem}

-- No cell has the version that marks an absent key, so `get` finds every cell.
get-cell : (d : PancyDb) (k : Bytes) → Inv d → get d k ≡ find k d.db
unfolding get
get-cell d k inv = elim (Option-cases (find k d.db)) [
  | inl e ↦ rw e refl
  | inr (v, e) ↦ let p = (inv.versions k v e).0 in rw e (ground arith)
]

-- In a well-formed store `get` after `put` gives the value that was put, under a fresh version, at
-- the key that was put, and what it gave before at any other key.
pub get-put :
    (d : PancyDb) (key j value : Bytes)
    → Inv d
    → get (put d key value) j ≡ (
        if same_key key j
        then some (record { value = value; version = d.next_version })
        else get d j)
get-put d key j value inv =
    let (sorted, next, recent, cells, m) = store_lem d 0 key value inv in
    get-cell (put d key value) j (put-Inv d key value inv)
    ∙ rw (put_lem d key value inv, get-cell d j inv) (cells j)
