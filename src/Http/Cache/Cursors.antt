-- ===== src/Http/Cache/Cursors.antt =====
-- pset4/http_server.cc: the cursors of a cache.
use doom_draft.Base.{
  ℕ, ◌+◌, Bool, true, false, ◌&&◌, ◌||◌, not, List, [], ◌∷◌, ◌++◌, Option, none, some, ◌==◌, leb,
  if◌then◌else◌, take, drop, length, codes,
}
use doom_draft.OrdMap.{same_key}
use doom_draft.Keys.{bytes_ord}
use doom_draft.Decimal.{from_chars}
use doom_draft.DocOps.{Bytes}
use doom_draft.DocState.{whole}
use doom_draft.Msgs.{ℤ, pos, negsuc}
use doom_draft.Db.{Vv, PancyDb}
use doom_draft.Paxos.State.{slot_ord}
use doom_draft.Http.Json.{json_get_string, json_get_int}
use doom_draft.Http.Frames.{CursorEntry}
use doom_draft.Http.Cache.{PerDocCache, set_entry}

abbrev pub cursor_prefix : Bytes → Bytes
cursor_prefix doc_id = codes "doc/" ++ (doc_id ++ codes "/cursor/")

abbrev pub entry_of : ℕ → Option Bytes → Option ℤ → Option CursorEntry
entry_of version none p = none
entry_of version (some client_id) none = none
entry_of version (some client_id) (some p) =
    some (record { version = version; client_id = client_id; pos = p })

-- The cursor that an entry of the store holds, if it is one of the document.
unfoldable pub read_cursor : Bytes → Bytes → Vv → Option (ℕ × CursorEntry)
read_cursor doc_id key cell =
    let prefix = cursor_prefix doc_id in
    let entry =
      entry_of cell.version (json_get_string cell.value (codes "client_id"))
        (json_get_int cell.value (codes "pos")) in
    if leb (length key) (length prefix) || not (same_key (take (length prefix) key) prefix)
    then none
    else elim (whole (from_chars (drop (length prefix) key))) [
      | none ↦ none
      | some cid ↦ elim entry [ none ↦ none | some e ↦ some (cid, e) ]
    ]

unfoldable pub read_cursors :
    Bytes → List (Bytes × Vv) → List (ℕ × CursorEntry) → List (ℕ × CursorEntry)
unfolding read_cursor
read_cursors doc_id [] fresh = fresh
read_cursors doc_id ((key, cell) ∷ m) fresh = elim (read_cursor doc_id key cell) [
  | none ↦ read_cursors doc_id m fresh
  | some (cid, e) ↦ read_cursors doc_id m (set_entry cid e fresh)
]

abbrev pub same_pos : ℤ → ℤ → Bool
same_pos (pos m) (pos n) = m == n
same_pos (pos m) (negsuc n) = false
same_pos (negsuc m) (pos n) = false
same_pos (negsuc m) (negsuc n) = m == n

abbrev pub same_entry : ℕ × CursorEntry → ℕ × CursorEntry → Bool
same_entry (i, x) (j, y) =
    i == j && x.version == y.version && same_key x.client_id y.client_id && same_pos x.pos y.pos

unfoldable pub same_cursors : List (ℕ × CursorEntry) → List (ℕ × CursorEntry) → Bool
same_cursors [] [] = true
same_cursors [] (y ∷ ys) = false
same_cursors (x ∷ xs) [] = false
same_cursors (x ∷ xs) (y ∷ ys) = same_entry x y && same_cursors xs ys

unfoldable pub refresh_cursors_from_db : PerDocCache → PancyDb → Bytes → PerDocCache
unfolding read_cursors same_cursors
refresh_cursors_from_db c db doc_id =
    let fresh = read_cursors doc_id db.db [] in
    if not (same_cursors fresh c.cursors)
    then record c { cursors = fresh; cursor_epoch = c.cursor_epoch + 1 }
    else c
