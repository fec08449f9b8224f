-- ===== src/Http/Handlers.antt =====
-- pset4/http_server.cc: the handlers of the routes. A handler that commits is two functions, one
-- up to the wait for `submit_put` and one from its answer on, since others run in between.
pub mod PostOp
pub mod Begin
pub mod Commit
pub mod PostCursor
use doom_draft.Base.{
  ℕ, ◌+◌, Bool, true, false, not, List, [], ◌∷◌, ◌++◌, Option, none, some, ◌==◌, if◌then◌else◌,
  codes,
}
use doom_draft.OrdMap.{same_key}
use doom_draft.Keys.{bytes_ord}
use doom_draft.Decimal.{to_string}
use doom_draft.DocOps.{Bytes, DocOp, insert_op, delete_op}
use doom_draft.DocOps.Serial.{serialize}
use doom_draft.DocState.{CommittedOp, op_key}
use doom_draft.Msgs.{ℤ, pos, negsuc}
use doom_draft.Paxos.State.{slot_ord}
use doom_draft.Http.Json.{quoted, json_get_string, json_get_int, json_escape}
use doom_draft.Http.Frames.{
  CursorEntry, to_string_signed, hash_client_id, safe_log_component, Reply,
}
use doom_draft.Http.Cache.{
  PerDocCache, set_entry, note_client_label, note_committed, ServerCacheState, doc, set_doc,
}
use doom_draft.Http.Cache.Cursors.{cursor_prefix}

-- A reply at once, or what the handler goes on with.
pub data Checked (A : Type 0) : Type 0 where
  refused : Reply → Checked A
  accepted : A → Checked A

abbrev pub json_reply : ℕ → Bytes → Bytes → Reply
json_reply status reason body = record {
  status = status;
  reason = reason;
  content_type = codes "application/json";
  body = body;
}

abbrev pub bad_request : Bytes → Reply
bad_request body = json_reply 400 (codes "Bad Request") body

abbrev pub gateway_timeout : Reply
gateway_timeout =
    json_reply 504 (codes "Gateway Timeout") (codes "{\"error\":\"paxos commit timed out\"}")

abbrev pub version_reply : ℕ → Reply
version_reply version =
    json_reply 200 (codes "OK") (codes "{\"version\":" ++ (to_string version ++ codes "}"))

unfoldable pub handle_get_doc_id : ServerCacheState → Bytes → Reply
handle_get_doc_id g doc_id =
    let cache = doc g doc_id in
    json_reply 200 (codes "OK") (
      codes "{\"text\":\""
      ++ (json_escape cache.text
          ++ (codes "\",\"version\":" ++ (to_string cache.version ++ codes "}"))))

-- A position or a length that is not negative.
abbrev pub natural : Option ℤ → Option ℕ
natural none = none
natural (some (pos n)) = some n
natural (some (negsuc n)) = none

abbrev pub insert_of : ℕ → Option Bytes → Checked DocOp
insert_of p none = refused (bad_request (codes "{\"error\":\"missing text for insert\"}"))
insert_of p (some text) = accepted (insert_op p text)

abbrev pub delete_of : ℕ → Option ℕ → Checked DocOp
delete_of p none = refused (bad_request (codes "{\"error\":\"missing/invalid len for delete\"}"))
delete_of p (some len) = accepted (delete_op p len)

unfoldable pub parse_posted : Bytes → Bytes → ℕ → Checked DocOp
parse_posted body type p =
    let text = insert_of p (json_get_string body (codes "text")) in
    let len = delete_of p (natural (json_get_int body (codes "len"))) in
    if same_key type (codes "I")
    then text
    else if same_key type (codes "D")
    then len
    else refused (bad_request (codes "{\"error\":\"type must be 'I' or 'D'\"}"))

-- The body of a posted operation.
pub record PostedOp : Type 0 where
  pub op : DocOp
  pub client_id : Bytes
  pub seq : ℕ

abbrev pub post_as : Bytes → ℕ → Checked DocOp → Checked PostedOp
post_as client_id seq (refused r) = refused r
post_as client_id seq (accepted op) =
    accepted (record { op = op; client_id = client_id; seq = seq })

-- `pos` and `seq` must not be negative.
abbrev pub post_signed : Bytes → Bytes → ℤ → Bytes → ℤ → Checked PostedOp
post_signed body type (pos p) client_id (pos seq) = post_as client_id seq (parse_posted body type p)
post_signed body type (pos p) client_id (negsuc n) =
    refused (bad_request (codes "{\"error\":\"pos and seq must be >= 0\"}"))
post_signed body type (negsuc n) client_id seq =
    refused (bad_request (codes "{\"error\":\"pos and seq must be >= 0\"}"))

abbrev pub missing_field : Checked PostedOp
missing_field =
    refused (bad_request (codes "{\"error\":\"missing field (type/pos/client_id/seq)\"}"))

abbrev pub post_fields :
    Bytes → Option Bytes → Option ℤ → Option Bytes → Option ℤ → Checked PostedOp
post_fields body (some type) (some p) (some client_id) (some seq) =
    post_signed body type p client_id seq
post_fields body (some type) (some p) (some client_id) none = missing_field
post_fields body (some type) (some p) none seq = missing_field
post_fields body (some type) none client_id seq = missing_field
post_fields body none p client_id seq = missing_field

unfoldable pub check_op : Bytes → Checked PostedOp
unfolding parse_posted
check_op body =
    post_fields body (json_get_string body (codes "type")) (json_get_int body (codes "pos"))
      (json_get_string body (codes "client_id")) (json_get_int body (codes "seq"))

-- What is submitted, and what is kept until the answer.
pub record Submitting (A : Type 0) : Type 0 where
  pub key : Bytes
  pub value : Bytes
  pub posted : A

abbrev pub start_op :
    ServerCacheState → Bytes → Checked PostedOp → ServerCacheState × Checked (Submitting PostedOp)
start_op g doc_id (refused r) = (g, refused r)
start_op g doc_id (accepted p) =
    let hashed_cid = hash_client_id p.client_id in
    (
      set_doc g doc_id (note_client_label (doc g doc_id) hashed_cid p.client_id),
      accepted
          (record { key = op_key doc_id hashed_cid p.seq; value = serialize p.op; posted = p }),
    )

-- `handle_post_op_doc` up to `submit_put`.
unfoldable pub begin_post_op :
    ServerCacheState → Bytes → Bytes → ServerCacheState × Checked (Submitting PostedOp)
unfolding check_op
begin_post_op g doc_id body = start_op g doc_id (check_op body)

abbrev pub noted_op : ℕ → PostedOp → CommittedOp
noted_op version p = record {
  version = version;
  client_id = hash_client_id p.client_id;
  client_seq = p.seq;
  op = p.op;
  client_id_label = p.client_id;
}

-- `handle_post_op_doc` from the version that `submit_put` returns.
unfoldable pub end_post_op : ServerCacheState → Bytes → PostedOp → ℕ → ServerCacheState × Reply
unfolding note_committed
end_post_op g doc_id p version = if version == 0 then (g, gateway_timeout) else (
  set_doc g doc_id (note_committed (doc g doc_id) (noted_op version p)),
  version_reply version,
)
