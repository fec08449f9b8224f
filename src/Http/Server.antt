-- ===== src/Http/Server.antt =====
-- pset4/http_server.cc: `handle_connection`, which reads a request and dispatches it, the poll of
-- the store, and the start of the server.
pub mod Routing
pub mod Registered
pub mod Reached
pub mod Polling
use doom_draft.Base.{
  ℕ, ◌+◌, ◌*◌, ◌^◌, Bool, true, false, ◌&&◌, ◌||◌, not, List, [], ◌∷◌, ◌++◌, Option, none, some,
  ltb, leb, if◌then◌else◌, take, drop, is_empty, length, codes, ◌==◌,
}
use doom_draft.OrdMap.{same_key}
use doom_draft.Keys.{bytes_ord}
use doom_draft.Decimal.{to_string, from_chars}
use doom_draft.DocOps.{Bytes}
use doom_draft.DocState.{whole}
use doom_draft.Db.{Vv, PancyDb, get}
use doom_draft.Http.Text.{strip_prefix, split_on, valid_doc_id}
use doom_draft.Http.Json.{json_get_string, json_escape}
use doom_draft.Http.Registry.{Docs, docs_registry_key, docs_registry_json, parse_docs_registry}
use doom_draft.Http.Request.{
  RequestLine, parse_request_line, find_header, content_length, parse_doc_route, blank_line,
}
use doom_draft.Http.Frames.{Reply}
use doom_draft.Http.Cache.{ServerCacheState, ensure_doc, doc, set_doc, refresh_ops_from_db}
use doom_draft.Http.Cache.Cursors.{refresh_cursors_from_db}
use doom_draft.Http.Handlers.{
  Checked, refused, accepted, json_reply, bad_request, gateway_timeout, handle_get_doc_id, PostedOp,
  Submitting, begin_post_op,
}
use doom_draft.Http.Handlers.PostCursor.{PostedCursor, begin_post_cursor}

-- Whether `find` finds the text.
abbrev pub has_text : Bytes → Bytes → Bool
has_text text buf = elim (split_on text buf) [ none ↦ false | some p ↦ true ]

-- `read_request_head`, from what each read gives; an empty one, and the end of the list, are the
-- end of the input or an error.
unfoldable pub read_request_head : Bytes → List Bytes → Bytes × List Bytes
unfolding split_on
read_request_head buf [] = (buf, [])
read_request_head buf (chunk ∷ chunks) =
    let more = read_request_head (buf ++ chunk) chunks in
    if has_text blank_line buf || ltb (64 * 1024) (length buf)
    then (buf, chunk ∷ chunks)
    else if is_empty chunk
    then (buf, chunks)
    else more

-- `read_body`: none if the input ends before `want` bytes.
unfoldable pub read_body : ℕ → Bytes → List Bytes → Option Bytes
read_body want body [] = if ltb (length body) want then none else some body
read_body want body (chunk ∷ chunks) =
    let more = read_body want (body ++ chunk) chunks in
    if not (ltb (length body) want) then some body else if is_empty chunk then none else more

-- The branches of `handle_connection`.
pub data Route : Type 0 where
  get_doc : Bytes → Route
  debug_log : Route
  post_op : Bytes → Route
  post_cursor : Bytes → Route
  doc_stream : Bytes → Route
  get_docs : Route
  post_docs : Route
  editor_html : Route
  editor_js : Route
  preflight : Route
  admin_fail : Bytes → Route
  no_route : Route

abbrev pub on_path : Bool → Route → Option Route
on_path true r = some r
on_path false r = none

-- The document of the route if what follows its id is `sub`.
abbrev pub on_doc : Bool → Option (Bytes × Bytes) → Bytes → (Bytes → Route) → Option Route
on_doc m none sub to_route = none
on_doc m (some (d, s)) sub to_route = on_path (m && same_key s sub) (to_route d)

abbrev pub on_prefix : Bool → Option Bytes → (Bytes → Route) → Option Route
on_prefix m none to_route = none
on_prefix m (some suffix) to_route = on_path m (to_route suffix)

-- The first condition that holds decides.
abbrev pub first_route : List (Option Route) → Route
first_route [] = no_route
first_route (none ∷ l) = first_route l
first_route (some r ∷ l) = r

abbrev pub routes : RequestLine → List (Option Route)
routes rl =
    let route = parse_doc_route rl.path in
    let is_get = same_key rl.method (codes "GET") in
    let is_post = same_key rl.method (codes "POST") in
    on_doc is_get route [] get_doc
    ∷ on_path (is_post && same_key rl.path (codes "/debug/log")) debug_log
    ∷ on_doc is_post route (codes "op") post_op
    ∷ on_doc is_post route (codes "cursor") post_cursor
    ∷ on_doc is_get route (codes "stream") doc_stream
    ∷ on_path (is_get && same_key rl.path (codes "/docs")) get_docs
    ∷ on_path (is_post && same_key rl.path (codes "/docs")) post_docs
    ∷ on_path (is_get && (same_key rl.path (codes "/") || same_key rl.path (codes "/editor.html")))
        editor_html
    ∷ on_path (is_get && same_key rl.path (codes "/editor.js")) editor_js
    ∷ on_path (same_key rl.method (codes "OPTIONS")) preflight
    ∷ on_prefix is_post (strip_prefix (codes "/admin/fail/") rl.path) admin_fail
    ∷ []

unfoldable pub route_of : RequestLine → Route
unfolding parse_doc_route
route_of rl = first_route (routes rl)

-- How a connection goes on.
pub data Served : Type 0 where
  dropped : Served
  replies : Reply → Served
  allows_origin : Served
  sends_file : Bytes → Bytes → Served
  logs : Bytes → Served
  submits_op : Bytes → Submitting PostedOp → Served
  submits_cursor : Bytes → Submitting PostedCursor → Served
  submits_docs : Bytes → Bytes → Bytes → Served
  streams : Bytes → ℕ → Served

abbrev pub as_served {ℓ} :
    {A : Type ℓ} → (A → Served) → ServerCacheState × A → ServerCacheState × Served
as_served to_served (g, x) = (g, to_served x)

abbrev pub op_served : Bytes → Checked (Submitting PostedOp) → Served
op_served doc_id (refused r) = replies r
op_served doc_id (accepted s) = submits_op doc_id s

abbrev pub cursor_served : Bytes → Checked (Submitting PostedCursor) → Served
cursor_served doc_id (refused r) = replies r
cursor_served doc_id (accepted s) = submits_cursor doc_id s

-- The version after which a browser that reconnects wants the stream: 0 unless an `int64_t` was
-- read. A negative one, which `from_chars` refuses here, is below every version, as 0 is.
abbrev pub resume_version : Option (ℕ × Bytes) → ℕ
resume_version none = 0
resume_version (some (v, rest)) = if ltb v (2 ^ 63) then v else 0

-- `POST /docs` up to `submit_put`.
abbrev pub bad_docs : Reply
bad_docs = bad_request (codes "{\"error\":\"body must be {\\\"id\\\":\\\"doc-name\\\"}\"}")

abbrev pub begin_post_docs : ServerCacheState → Option Bytes → ServerCacheState × Served
begin_post_docs g none = (g, replies bad_docs)
begin_post_docs g (some d) =
    let g' = ensure_doc g d in
    if not (valid_doc_id d)
    then (g, replies bad_docs)
    else (g', submits_docs d docs_registry_key (docs_registry_json g'.known_docs))

-- `POST /docs` from the version that `submit_put` returns.
unfoldable pub end_post_docs : Bytes → ℕ → Reply
end_post_docs d v =
    if v == 0
    then gateway_timeout
    else json_reply 200 (codes "OK") (
        codes "{\"ok\":true,\"version\":"
        ++ (to_string v ++ (codes ",\"id\":\"" ++ (json_escape d ++ codes "\"}"))))

-- `POST /admin/fail/<id>`; `fail_replica` belongs to whoever starts the server.
abbrev pub fail_reply : Option (ℕ → Bool) → Option ℕ → Reply
fail_reply none rid =
    json_reply 501 (codes "Not Implemented") (codes "{\"error\":\"fail endpoint not wired\"}")
fail_reply (some fail_replica) none =
    bad_request (codes "{\"error\":\"replica id must be numeric\"}")
fail_reply (some fail_replica) (some rid) =
    if not (fail_replica rid)
    then bad_request (codes "{\"error\":\"invalid replica id\"}")
    else json_reply 200 (codes "OK") (codes "{\"failed_replica\":" ++ (to_string rid ++ codes "}"))

unfoldable pub serve :
    Option (ℕ → Bool) → ServerCacheState → Bytes → Bytes → Route → ServerCacheState × Served
unfolding handle_get_doc_id begin_post_op begin_post_cursor
serve fail g head body (get_doc d) =
    let g' = ensure_doc g d in (g', replies (handle_get_doc_id g' d))
serve fail g head body debug_log = (g, logs body)
serve fail g head body (post_op d) = as_served (op_served d) (begin_post_op (ensure_doc g d) d body)
serve fail g head body (post_cursor d) =
    as_served (cursor_served d) (begin_post_cursor (ensure_doc g d) d body)
serve fail g head body (doc_stream d) = (
  ensure_doc g d,
  streams d (resume_version (from_chars (find_header head (codes "last-event-id")))),
)
serve fail g head body get_docs =
    (g, replies (json_reply 200 (codes "OK") (docs_registry_json g.known_docs)))
serve fail g head body post_docs = begin_post_docs g (json_get_string body (codes "id"))
serve fail g head body editor_html =
    (g, sends_file (codes "static/editor.html") (codes "text/html; charset=utf-8"))
serve fail g head body editor_js =
    (g, sends_file (codes "static/editor.js") (codes "application/javascript; charset=utf-8"))
serve fail g head body preflight = (g, allows_origin)
serve fail g head body (admin_fail suffix) =
    (g, replies (fail_reply fail (whole (from_chars suffix))))
serve fail g head body no_route =
    (g, replies (json_reply 404 (codes "Not Found") (codes "{\"error\":\"no route\"}")))

abbrev pub serve_body :
    Option (ℕ → Bool)
    → ServerCacheState
    → RequestLine
    → Bytes
    → Option Bytes
    → ServerCacheState × Served
serve_body fail g rl head none = (g, dropped)
serve_body fail g rl head (some body) = serve fail g head body (route_of rl)

-- `handle_connection` up to the first wait of the handler.
unfoldable pub handle_connection :
    Option (ℕ → Bool) → ServerCacheState → List Bytes → ServerCacheState × Served
unfolding read_request_head read_body route_of serve
handle_connection fail g chunks =
    let (buf, rest) = read_request_head [] chunks in
    let rl = parse_request_line buf in
    let head = take rl.body_offset buf in
    let body = read_body (content_length head) (drop rl.body_offset buf) rest in
    if is_empty buf || is_empty rl.method then (g, dropped) else serve_body fail g rl head body
