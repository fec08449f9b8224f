-- ===== src/Http/Server/Registered.antt =====
-- What a server keeps: its known documents have valid ids, and its maps are in order.
use doom_draft.Base.{
  ℕ, zero, suc, ◌≡◌, Bool, true, List, [], ◌∷◌, Option, none, some, if_cases, if_both, Bool-cases,
  inl, inr, arith, ◌==◌, length, is_empty, codes, ◌||◌,
}
use doom_draft.OrdMap.{Ord, find, emplace, Sorted}
use doom_draft.OrdMap.Laws.{emplace-Sorted, assign-Sorted}
use doom_draft.Keys.{bytes_ord}
use doom_draft.DocOps.{Bytes}
use doom_draft.Db.{Vv, PancyDb, is_none}
use doom_draft.Http.Text.{split_byte, valid_doc_id}
use doom_draft.Http.Json.{json_get_string}
use doom_draft.Http.Registry.{Docs, add_doc, parse_items, parse_docs_registry}
use doom_draft.Http.Registry.RoundTrip.{AllValid}
use doom_draft.Http.Request.{RequestLine, parse_request_line}
use doom_draft.Http.Cache.{
  PerDocCache, ServerCacheState, ensure_doc, set_entry, set_doc, empty_cache,
}
use doom_draft.Http.Handlers.{
  Checked, refused, accepted, PostedOp, check_op, start_op, begin_post_op,
}
use doom_draft.Http.Handlers.PostCursor.{PostedCursor, start_cursor, begin_post_cursor}
use doom_draft.Http.Server.Routing.{ValidRoute, route_of-ValidRoute}
use doom_draft.Http.Server.{
  Route, get_doc, debug_log, post_op, post_cursor, doc_stream, get_docs, post_docs, editor_html,
  editor_js, preflight, admin_fail, no_route, Served, route_of, serve, serve_body, begin_post_docs,
  handle_connection, read_request_head,
}
use doom_draft.Http.Server.Polling.{ensure_docs, learn_docs, refresh_docs}

-- Known documents have valid ids, and the maps are in order.
abbrev pub Registered : ServerCacheState → Type 0
Registered g = AllValid g.known_docs × Sorted g.known_docs × Sorted g.by_doc

emplace-AllValid :
    (d : Bytes) (docs : Docs) → valid_doc_id d ≡ true → AllValid docs → AllValid (emplace d tt docs)
unfolding emplace
emplace-AllValid d [] v h = (v, tt)
emplace-AllValid d ((k, u) ∷ docs) v h = ground (arith, v, h.0, h.1, emplace-AllValid d docs v h.1)

set_entry-Sorted {ℓ κ} :
    {K : Type ℓ} {V : Type κ} ⦃o : Ord K⦄ (k : K) (v : V) (m : List (K × V))
    → Sorted m
    → Sorted (set_entry k v m)
set_entry-Sorted k v m s =
    if_both Sorted (is_none (find k m)) (emplace-Sorted k v m s) (assign-Sorted k v m s)

pub ensure_doc-Registered :
    (g : ServerCacheState) (d : Bytes)
    → valid_doc_id d ≡ true
    → Registered g
    → Registered (ensure_doc g d)
unfolding ensure_doc
ensure_doc-Registered g d v (a, s, b) = (
  emplace-AllValid d g.known_docs v a,
  emplace-Sorted d tt g.known_docs s,
  emplace-Sorted d empty_cache g.by_doc b,
)

pub set_doc-Registered :
    (g : ServerCacheState) (d : Bytes) (c : PerDocCache) → Registered g → Registered (set_doc g d c)
set_doc-Registered g d c (a, s, b) = (a, s, set_entry-Sorted d c g.by_doc b)

add_doc-AllValid : (d : Bytes) (docs : Docs) → AllValid docs → AllValid (add_doc d docs)
add_doc-AllValid d docs h =
    if_cases AllValid (valid_doc_id d) (λ v. emplace-AllValid d docs v h) (λ e. h)

item-AllValid :
    (fuel : ℕ) (docs : Docs) (o : Option (Bytes × Bytes))
    → ((rest : Bytes) (ds : Docs) → AllValid ds → AllValid (parse_items fuel rest ds))
    → AllValid docs
    → AllValid (elim o [ none ↦ docs | some (d, rest) ↦ parse_items fuel rest (add_doc d docs) ])
item-AllValid fuel docs none k h = h
item-AllValid fuel docs (some (d, rest)) k h = k rest (add_doc d docs) (add_doc-AllValid d docs h)

parse_items-AllValid :
    (fuel : ℕ) (body : Bytes) (docs : Docs) → AllValid docs → AllValid (parse_items fuel body docs)
unfolding parse_items
parse_items-AllValid zero body docs h = h
parse_items-AllValid (suc fuel) [] docs h = h
parse_items-AllValid (suc fuel) (c ∷ s) docs h =
    if_both AllValid (c == b'"')
      (item-AllValid fuel docs (split_byte b'"' s) (λ r d k. parse_items-AllValid fuel r d k) h)
      (parse_items-AllValid fuel s docs h)

ensure_docs-Registered :
    (docs : Docs) (g : ServerCacheState)
    → AllValid docs
    → Registered g
    → Registered (ensure_docs docs g)
unfolding ensure_docs
ensure_docs-Registered [] g v r = r
ensure_docs-Registered ((d, u) ∷ docs) g v r =
    ensure_docs-Registered docs (ensure_doc g d) v.1 (ensure_doc-Registered g d v.0 r)

pub learn_docs-Registered :
    (o : Option Vv) (g : ServerCacheState) → Registered g → Registered (learn_docs o g)
unfolding parse_docs_registry
learn_docs-Registered none g r = r
learn_docs-Registered (some vv) g r =
    ensure_docs-Registered (parse_docs_registry vv.value) g
      (parse_items-AllValid (length vv.value) vv.value [] tt) r

pub refresh_docs-Registered :
    (db : PancyDb) (docs : Docs) (g : ServerCacheState)
    → Registered g
    → Registered (refresh_docs db docs g)
unfolding refresh_docs
refresh_docs-Registered db [] g r = r
refresh_docs-Registered db ((d, u) ∷ docs) g r =
    refresh_docs-Registered db docs _ (set_doc-Registered g d _ r)

start_op-Registered :
    (g : ServerCacheState) (d : Bytes) (c : Checked PostedOp)
    → Registered g
    → Registered (start_op g d c).0
start_op-Registered g d (refused r) h = h
start_op-Registered g d (accepted p) h = set_doc-Registered g d _ h

start_cursor-Registered :
    (g : ServerCacheState) (d : Bytes) (c : Checked PostedCursor)
    → Registered g
    → Registered (start_cursor g d c).0
start_cursor-Registered g d (refused r) h = h
start_cursor-Registered g d (accepted p) h = set_doc-Registered g d _ h

post_docs-Registered :
    (g : ServerCacheState) (o : Option Bytes) → Registered g → Registered (begin_post_docs g o).0
post_docs-Registered g none h = h
post_docs-Registered g (some d) h = elim (Bool-cases (valid_doc_id d)) [
  | inl v ↦ rw v (ensure_doc-Registered g d v h)
  | inr v ↦ rw v h
]

serve-Registered :
    (fail : Option (ℕ → Bool)) (g : ServerCacheState) (head body : Bytes) (r : Route)
    → ValidRoute r
    → Registered g
    → Registered (serve fail g head body r).0
unfolding serve begin_post_op begin_post_cursor
serve-Registered fail g head body (get_doc d) v h = ensure_doc-Registered g d v h
serve-Registered fail g head body debug_log v h = h
serve-Registered fail g head body (post_op d) v h =
    start_op-Registered (ensure_doc g d) d (check_op body) (ensure_doc-Registered g d v h)
serve-Registered fail g head body (post_cursor d) v h =
    start_cursor-Registered (ensure_doc g d) d _ (ensure_doc-Registered g d v h)
serve-Registered fail g head body (doc_stream d) v h = ensure_doc-Registered g d v h
serve-Registered fail g head body get_docs v h = h
serve-Registered fail g head body post_docs v h =
    post_docs-Registered g (json_get_string body (codes "id")) h
serve-Registered fail g head body editor_html v h = h
serve-Registered fail g head body editor_js v h = h
serve-Registered fail g head body preflight v h = h
serve-Registered fail g head body (admin_fail suffix) v h = h
serve-Registered fail g head body no_route v h = h

serve_body-Registered :
    (fail : Option (ℕ → Bool)) (g : ServerCacheState) (rl : RequestLine) (head : Bytes)
    (o : Option Bytes)
    → Registered g
    → Registered (serve_body fail g rl head o).0
serve_body-Registered fail g rl head none h = h
serve_body-Registered fail g rl head (some body) h =
    serve-Registered fail g head body (route_of rl) (route_of-ValidRoute rl) h

pub connection-Registered :
    (fail : Option (ℕ → Bool)) (g : ServerCacheState) (chunks : List Bytes)
    → Registered g
    → Registered (handle_connection fail g chunks).0
unfolding handle_connection
connection-Registered fail g chunks h =
    let (buf, rest) = read_request_head [] chunks in
    let rl = parse_request_line buf in
    if_both (λ (r : ServerCacheState × Served). Registered r.0) (is_empty buf || is_empty rl.method)
      h (serve_body-Registered fail g rl _ _ h)
