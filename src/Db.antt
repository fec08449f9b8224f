-- ===== src/Db.antt =====
-- pset4/pancydb.hh and pancydb.cc: the versioned key-value store that each replica keeps.
-- Versions are `int64_t` counters that start at 1 and only grow; running past 2^63 - 1 is undefined
-- in the source, and they are unbounded here.
pub mod Invariant
pub mod Refinement
pub mod Readback
pub mod Cells
pub mod Diff
use doom_draft.Base.{
  ℕ, suc, ◌+◌, Bool, true, false, ◌||◌, List, [], ◌∷◌, Option, none, some, ◌==◌, if◌then◌else◌,
  take, not,
}
use doom_draft.OrdMap.{same_key, find, emplace, assign, erase}
use doom_draft.Keys.{bytes_ord}
use doom_draft.DocOps.{Bytes}
use doom_draft.Msgs.{
  ℤ, nonexistent_version, mismatch, Errc, GetRequest, PutRequest, CasRequest, RemoveRequest,
  GetResponse, Modification, Request, get_request, put_request, cas_request, remove_request,
  Response, get_response, put_response, cas_response, remove_response,
}

pub record Vv : Type 0 where
  pub value : Bytes
  pub version : ℕ

abbrev pub nonexistent_vv : Vv
nonexistent_vv = record { value = []; version = nonexistent_version }

pub record RecentRemove : Type 0 where
  pub key : Bytes
  pub vv : Vv
  pub remove_version : ℕ

pub record PancyDb : Type 0 where
  pub next_version : ℕ
  pub db : List (Bytes × Vv)
  pub recent_removes : List RecentRemove

abbrev pub max_recent_removes : ℕ
max_recent_removes = 100

abbrev pub empty_db : PancyDb
empty_db = record { next_version = 1; db = []; recent_removes = [] }

-- `find_vvptr`: the cell of a key, or the shared cell for absent keys.
abbrev pub or_nonexistent : Option Vv → Vv
or_nonexistent none = nonexistent_vv
or_nonexistent (some v) = v

abbrev pub find_vvptr : PancyDb → Bytes → Vv
find_vvptr d key = or_nonexistent (find key d.db)

abbrev pub is_none {ℓ} : {A : Type ℓ} → Option A → Bool
is_none none = true
is_none (some a) = false

-- `emplace_vvptr`: the store with the cell, that cell, and whether it is new.
abbrev pub emplace_vvptr : PancyDb → Bytes → Bytes → PancyDb × Vv × Bool
emplace_vvptr d key value =
    let m = emplace key (record { value = value; version = d.next_version }) d.db in
    (record d { db = m }, or_nonexistent (find key m), is_none (find key d.db))

-- A write through the pointer to a cell.
abbrev pub write_vvptr : PancyDb → Bytes → Vv → PancyDb
write_vvptr d key v = record d { db = assign key v d.db }

abbrev pub bump : PancyDb → PancyDb
bump d = record d { next_version = d.next_version + 1 }

-- The loop of `do_remove` drops the oldest removals.
unfoldable pub do_remove : PancyDb → Bytes → Vv → PancyDb
do_remove d key v = record {
  next_version = d.next_version + 1;
  db = erase key d.db;
  recent_removes =
      take max_recent_removes
        (record { key = key; vv = v; remove_version = d.next_version } ∷ d.recent_removes);
}

unfoldable pub get : PancyDb → Bytes → Option Vv
get d key = let v = find_vvptr d key in if v.version == nonexistent_version then none else some v

unfoldable pub exists : PancyDb → Bytes → Bool
exists d key = not (is_none (find key d.db))

-- `put` of the direct interface.
unfoldable pub put : PancyDb → Bytes → Bytes → PancyDb
put d key value =
    let (d', v, inserted) = emplace_vvptr d key value in
    bump (
      if inserted
      then d'
      else write_vvptr d' key (record { value = value; version = d.next_version }))

unfoldable pub remove : PancyDb → Bytes → PancyDb × Bool
unfolding do_remove
remove d key = elim (find key d.db) [ none ↦ (d, false) | some v ↦ (do_remove d key v, true) ]

abbrev pub mod_no_match : ℕ → Vv → Modification
mod_no_match serial v = record {
  serial = serial;
  errcode = Errc.no_match;
  actual = v.value;
  previous_version = v.version;
  version = v.version;
}

abbrev pub mod_ok : ℕ → ℕ → Vv → Modification
mod_ok serial previous v = record {
  serial = serial;
  errcode = Errc.ok;
  actual = [];
  previous_version = previous;
  version = v.version;
}

-- The pointer is never null, so the branch `errc::not_found` of the source is never taken.
unfoldable pub process_get : PancyDb → GetRequest → GetResponse
process_get d r =
    let v = find_vvptr d r.key in
    record { serial = r.serial; errcode = Errc.ok; value = v.value; version = v.version }

-- What `put` and `cas` share once their guards have passed.
unfoldable pub store : PancyDb → ℕ → Bytes → Bytes → PancyDb × Modification
store d serial key value =
    let v = find_vvptr d key in
    let new : Vv = record { value = value; version = d.next_version } in
    if v.version == nonexistent_version
    then (let (d', v', inserted) = emplace_vvptr d key value in
        (bump d', mod_ok serial nonexistent_version v'))
    else (bump (write_vvptr d key new), mod_ok serial v.version new)

unfoldable pub process_put : PancyDb → PutRequest → PancyDb × Modification
unfolding store
process_put d r =
    let v = find_vvptr d r.key in
    if mismatch r.version_match v.version
    then (d, mod_no_match r.serial v)
    else store d r.serial r.key r.value

unfoldable pub process_cas : PancyDb → CasRequest → PancyDb × Modification
unfolding store
process_cas d r =
    let v = find_vvptr d r.key in
    if not (same_key r.expected v.value) || mismatch r.version_match v.version
    then (d, mod_no_match r.serial v)
    else store d r.serial r.key r.desired

unfoldable pub process_remove : PancyDb → RemoveRequest → PancyDb × Modification
unfolding do_remove
process_remove d r = elim (find r.key d.db) [
  | none ↦ (
    d,
    record {
      serial = r.serial;
      errcode = Errc.not_found;
      actual = [];
      previous_version = nonexistent_version;
      version = nonexistent_version;
    },
  )
  | some v ↦
      if mismatch r.version_match v.version
      then (d, mod_no_match r.serial v)
      else (do_remove d r.key v, mod_ok r.serial v.version nonexistent_vv)
]

unfoldable pub process_req : PancyDb → Request → PancyDb × Response
process_req d (get_request r) = (d, get_response (process_get d r))
process_req d (put_request r) = let (d', m) = process_put d r in (d', put_response m)
process_req d (cas_request r) = let (d', m) = process_cas d r in (d', cas_response m)
process_req d (remove_request r) = let (d', m) = process_remove d r in (d', remove_response m)
