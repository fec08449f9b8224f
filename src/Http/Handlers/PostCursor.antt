-- ===== src/Http/Handlers/PostCursor.antt =====
-- pset4/http_server.cc: the handlers of posted cursors and of the browser's log.
use doom_draft.Base.{ℕ, ◌+◌, Bool, [], ◌∷◌, ◌++◌, Option, none, some, ◌==◌, if◌then◌else◌, codes}
use doom_draft.Keys.{bytes_ord}
use doom_draft.Decimal.{to_string}
use doom_draft.DocOps.{Bytes}
use doom_draft.Msgs.{ℤ, pos, negsuc}
use doom_draft.Paxos.State.{slot_ord}
use doom_draft.Http.Json.{quoted, json_get_string, json_get_int, json_escape}
use doom_draft.Http.Frames.{to_string_signed, hash_client_id, safe_log_component, Reply}
use doom_draft.Http.Cache.{
  PerDocCache, set_entry, note_client_label, ServerCacheState, doc, set_doc,
}
use doom_draft.Http.Cache.Cursors.{cursor_prefix}
use doom_draft.Http.Handlers.{
  refused, accepted, Checked, json_reply, bad_request, gateway_timeout, version_reply, Submitting,
}

-- The body of a posted cursor.
pub record PostedCursor : Type 0 where
  pub client_id : Bytes
  pub pos : ℤ

abbrev pub cursor_fields : Option Bytes → Option ℤ → Checked PostedCursor
cursor_fields (some client_id) (some (pos p)) =
    accepted (record { client_id = client_id; pos = pos p })
cursor_fields (some client_id) (some (negsuc n)) =
    refused (bad_request (codes "{\"error\":\"pos must be >= 0\"}"))
cursor_fields (some client_id) none =
    refused (bad_request (codes "{\"error\":\"missing field (client_id/pos)\"}"))
cursor_fields none p = refused (bad_request (codes "{\"error\":\"missing field (client_id/pos)\"}"))

abbrev pub cursor_key : Bytes → ℕ → Bytes
cursor_key doc_id cid_hash = cursor_prefix doc_id ++ to_string cid_hash

unfoldable pub cursor_value : PostedCursor → Bytes
cursor_value p =
    codes "{\"client_id\":"
    ++ (quoted (json_escape p.client_id)
        ++ (codes ",\"pos\":" ++ (to_string_signed p.pos ++ codes "}")))

abbrev pub start_cursor :
    ServerCacheState
    → Bytes
    → Checked PostedCursor
    → ServerCacheState × Checked (Submitting PostedCursor)
start_cursor g doc_id (refused r) = (g, refused r)
start_cursor g doc_id (accepted p) =
    let cid_hash = hash_client_id p.client_id in
    (
      set_doc g doc_id (note_client_label (doc g doc_id) cid_hash p.client_id),
      accepted (record { key = cursor_key doc_id cid_hash; value = cursor_value p; posted = p }),
    )

-- `handle_post_cursor_doc` up to `submit_put`.
unfoldable pub begin_post_cursor :
    ServerCacheState → Bytes → Bytes → ServerCacheState × Checked (Submitting PostedCursor)
begin_post_cursor g doc_id body =
    start_cursor g doc_id
      (cursor_fields (json_get_string body (codes "client_id")) (json_get_int body (codes "pos")))

abbrev pub with_cursor : PostedCursor → ℕ → PerDocCache → PerDocCache
with_cursor p version c = record c {
  cursors =
      set_entry (hash_client_id p.client_id)
        (record { version = version; client_id = p.client_id; pos = p.pos }) c.cursors;
  cursor_epoch = c.cursor_epoch + 1;
}

-- `handle_post_cursor_doc` from the version that `submit_put` returns.
unfoldable pub end_post_cursor :
    ServerCacheState → Bytes → PostedCursor → ℕ → ServerCacheState × Reply
end_post_cursor g doc_id p version =
    if version == 0
    then (g, gateway_timeout)
    else (set_doc g doc_id (with_cursor p version (doc g doc_id)), version_reply version)

abbrev pub first_of : Option Bytes → Option Bytes → Option Bytes
first_of none y = y
first_of (some x) y = some x

abbrev pub or_unknown : Option Bytes → Bytes
or_unknown none = codes "unknown"
or_unknown (some x) = x

-- The file that `handle_post_debug_log` appends to, and the line; `opened` says whether it could
-- be opened.
unfoldable pub debug_log_path : Bytes → Bytes
debug_log_path body =
    let cid =
      first_of (json_get_string body (codes "clientId"))
        (json_get_string body (codes "client_id")) in
    codes "logs/browser-"
    ++ (safe_log_component (or_unknown (json_get_string body (codes "doc")))
        ++ (b'-' ∷ (safe_log_component (or_unknown cid) ++ codes ".jsonl")))

abbrev pub handle_post_debug_log : Bool → Bytes → Option (Bytes × Bytes) × Reply
handle_post_debug_log opened body =
    if opened
    then (some (debug_log_path body, body ++ b'\n' ∷ []), json_reply 204 (codes "No Content") [])
    else (
      none,
      json_reply 500 (codes "Internal Server Error")
          (codes "{\"error\":\"could not open debug log\"}"),
    )
