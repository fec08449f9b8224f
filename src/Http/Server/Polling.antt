-- ===== src/Http/Server/Polling.antt =====
-- pset4/http_server.cc: the poll of the store, and the start of the server.
use doom_draft.Base.{[], ◌∷◌, Option, none, some}
use doom_draft.Keys.{bytes_ord}
use doom_draft.DocOps.{Bytes}
use doom_draft.Db.{Vv, PancyDb, get}
use doom_draft.Http.Registry.{Docs, docs_registry_key, parse_docs_registry}
use doom_draft.Http.Cache.{ServerCacheState, ensure_doc, doc, set_doc, refresh_ops_from_db}
use doom_draft.Http.Cache.Cursors.{refresh_cursors_from_db}

unfoldable pub ensure_docs : Docs → ServerCacheState → ServerCacheState
unfolding ensure_doc
ensure_docs [] g = g
ensure_docs ((d, u) ∷ docs) g = ensure_docs docs (ensure_doc g d)

-- The documents of the registry in the store are made known.
abbrev pub learn_docs : Option Vv → ServerCacheState → ServerCacheState
learn_docs none g = g
learn_docs (some vv) g = ensure_docs (parse_docs_registry vv.value) g

unfoldable pub refresh_docs : PancyDb → Docs → ServerCacheState → ServerCacheState
unfolding refresh_ops_from_db refresh_cursors_from_db
refresh_docs db [] g = g
refresh_docs db ((d, u) ∷ docs) g =
    refresh_docs db docs
      (set_doc g d (refresh_cursors_from_db (refresh_ops_from_db (doc g d) db d) db d))

-- One tick of `poll_doc_cache`.
unfoldable pub poll_doc_cache : PancyDb → ServerCacheState → ServerCacheState
unfolding ensure_docs refresh_docs
poll_doc_cache db g =
    let g' = learn_docs (get db docs_registry_key) g in refresh_docs db g'.known_docs g'

-- What `run_http_server` does before it accepts connections.
unfoldable pub run_http_server : PancyDb → Bytes → ServerCacheState → ServerCacheState
unfolding ensure_docs
run_http_server db doc_id g = learn_docs (get db docs_registry_key) (ensure_doc g doc_id)
