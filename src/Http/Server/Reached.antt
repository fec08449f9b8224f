-- ===== src/Http/Server/Reached.antt =====
-- The states that a server reaches, and the registry it keeps.
use doom_draft.Base.{
  ℕ, ◌≡◌, refl, ◌∙◌, Bool, true, false, List, Option, some, if_both, Bool-cases, Option-cases, inl,
  inr, ◌==◌, ◌⊎◌,
}
use doom_draft.OrdMap.{find, Sorted}
use doom_draft.OrdMap.Laws.{find-emplace}
use doom_draft.Keys.{bytes_ord}
use doom_draft.DocOps.{Bytes}
use doom_draft.Db.{PancyDb, get}
use doom_draft.Http.Text.{valid_doc_id}
use doom_draft.Http.Registry.{docs_registry_json, parse_docs_registry, docs_registry_key}
use doom_draft.Http.Registry.RoundTrip.{parse_docs_registry-docs_registry_json}
use doom_draft.Http.Frames.{Reply}
use doom_draft.Http.Cache.{ServerCacheState, ensure_doc, empty_server}
use doom_draft.Http.Handlers.{PostedOp, end_post_op}
use doom_draft.Http.Handlers.PostCursor.{PostedCursor, end_post_cursor}
use doom_draft.Http.Server.Registered.{
  Registered, ensure_doc-Registered, set_doc-Registered, learn_docs-Registered,
  refresh_docs-Registered, connection-Registered,
}
use doom_draft.Http.Handlers.Commit.{same_key-own}
use doom_draft.Http.Server.{replies, bad_docs, begin_post_docs, handle_connection, submits_docs}
use doom_draft.Http.Server.Polling.{learn_docs, poll_doc_cache, run_http_server}

-- The states that a server for this document reaches: it starts, takes connections, polls the
-- store, and goes on with what was submitted.
pub data Reached (fail : Option (ℕ → Bool)) (doc_id : Bytes) : ServerCacheState → Type 0 where
  starts : (db : PancyDb) → Reached fail doc_id (run_http_server db doc_id empty_server)
  connects :
      {g : ServerCacheState} (chunks : List Bytes)
      → Reached fail doc_id g
      → Reached fail doc_id (handle_connection fail g chunks).0
  polls :
      {g : ServerCacheState} (db : PancyDb)
      → Reached fail doc_id g
      → Reached fail doc_id (poll_doc_cache db g)
  commits_op :
      {g : ServerCacheState} (d : Bytes) (p : PostedOp) (version : ℕ)
      → Reached fail doc_id g
      → Reached fail doc_id (end_post_op g d p version).0
  commits_cursor :
      {g : ServerCacheState} (d : Bytes) (p : PostedCursor) (version : ℕ)
      → Reached fail doc_id g
      → Reached fail doc_id (end_post_cursor g d p version).0

-- Every state that a server with a valid document id reaches knows valid ids only, in order.
pub Reached-Registered :
    (fail : Option (ℕ → Bool)) (doc_id : Bytes) (g : ServerCacheState)
    → valid_doc_id doc_id ≡ true
    → Reached fail doc_id g
    → Registered g
unfolding run_http_server poll_doc_cache end_post_op end_post_cursor
Reached-Registered fail doc_id g v (starts db) =
    learn_docs-Registered (get db docs_registry_key) _
      (ensure_doc-Registered empty_server doc_id v (tt, tt, tt))
Reached-Registered fail doc_id g v (connects {g = h} chunks r) =
    connection-Registered fail h chunks (Reached-Registered fail doc_id h v r)
Reached-Registered fail doc_id g v (polls {g = h} db r) =
    let k =
      learn_docs-Registered (get db docs_registry_key) h (Reached-Registered fail doc_id h v r) in
    let g' = learn_docs (get db docs_registry_key) h in
    refresh_docs-Registered db g'.known_docs g' k
Reached-Registered fail doc_id g v (commits_op {g = h} d p version r) =
    if_both (λ (x : ServerCacheState × Reply). Registered x.0) (version == 0)
      (Reached-Registered fail doc_id h v r)
      (set_doc-Registered h d _ (Reached-Registered fail doc_id h v r))
Reached-Registered fail doc_id g v (commits_cursor {g = h} d p version r) =
    if_both (λ (x : ServerCacheState × Reply). Registered x.0) (version == 0)
      (Reached-Registered fail doc_id h v r)
      (set_doc-Registered h d _ (Reached-Registered fail doc_id h v r))

find_known :
    (g : ServerCacheState) (d : Bytes)
    → Sorted g.known_docs
    → find d (ensure_doc g d).known_docs ≡ some tt
unfolding ensure_doc
find_known g d s = elim (Option-cases (find d g.known_docs)) [
  | inl e ↦ find-emplace d d tt g.known_docs s ∙ rw (same_key-own d, e) refl
  | inr (w, e) ↦ find-emplace d d tt g.known_docs s ∙ rw (same_key-own d, e) refl
]

-- In every state that a server with a valid document id reaches, the registry it submits for a
-- posted document with a valid id is read back as the set of documents it then knows, and that
-- document is among them; with an id that is not valid nothing is submitted and no state changes.
pub begin_post_docs-parse_docs_registry :
    (fail : Option (ℕ → Bool)) (doc_id : Bytes) (g : ServerCacheState) (d : Bytes)
    → valid_doc_id doc_id ≡ true
    → Reached fail doc_id g
    → (let (g', served) = begin_post_docs g (some d) in
        ((valid_doc_id d ≡ false) × (g' ≡ g) × (served ≡ replies bad_docs))
        ⊎ ((value : Bytes) × (served ≡ submits_docs d docs_registry_key value)
            × (parse_docs_registry value ≡ g'.known_docs)
            × (find d g'.known_docs ≡ some tt)))
begin_post_docs-parse_docs_registry fail doc_id g d v r = elim (Bool-cases (valid_doc_id d)) [
  | inr e ↦ rw e (inl (refl, refl, refl))
  | inl e ↦
      let h = Reached-Registered fail doc_id g v r in
      let k = ensure_doc-Registered g d e h in
      rw e (
        inr (
          docs_registry_json (ensure_doc g d).known_docs,
          refl,
          parse_docs_registry-docs_registry_json (ensure_doc g d).known_docs k.0 k.1,
          find_known g d h.1,
        ))
]
