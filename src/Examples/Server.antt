-- ===== src/Examples/Server.antt =====
-- The server's theorems at concrete inputs.
use doom_draft.Base.{◌≤◌, ◌≡◌, ◌↔◌, refl, true, [], ◌∷◌, ◌++◌, some, length, arith, codes}
use doom_draft.OrdMap.{find}
use doom_draft.Keys.{bytes_ord, compare_bytes}
use doom_draft.Decimal.{emit, to_string}
use doom_draft.DocOps.{Bytes, insert_op, delete_op, apply_op}
use doom_draft.DocState.{CommittedOp, collect_ops, sort_ops, read_ops, replay, reconstruct}
use doom_draft.DocState.Replay.{put_op}
use doom_draft.Msgs.{pos}
use doom_draft.Db.{PancyDb, empty_db}
use doom_draft.Db.Invariant.{empty-Inv}
use doom_draft.Http.Text.{valid_doc_id, all_id_bytes}
use doom_draft.Http.Json.{read_string, json_escape}
use doom_draft.Http.Json.Reread.{reread, read_string-json_escape}
use doom_draft.Http.Registry.{Docs, docs_registry_json, parse_docs_registry}
use doom_draft.Http.Registry.RoundTrip.{parse_docs_registry-docs_registry_json}
use doom_draft.Http.Request.{parse_doc_route}
use doom_draft.Http.Request.Parts.{Routes, parse_doc_route-Routes}
use doom_draft.Http.Frames.{CursorEntry, sse_op_frame, sse_cursor_frame, safe_log_component}
use doom_draft.Http.Frames.Lines
use doom_draft.Http.Frames.Lines.{sse_op_frame-FramedEvent, safe_log_component_bounds}
use doom_draft.Http.Cache.{empty_cache, refresh_ops_from_db, note_committed, upgrade}
use doom_draft.Http.Cache.Mirrors.{
  Mirrors, refresh_ops_from_db-Mirrors, note_committed-refresh_ops_from_db,
}

-- "a{b".
abbrev braced : Bytes
braced = codes "a{b"

read_string-json_escape_example :
    read_string (json_escape braced ++ b'"' ∷ codes ",") ≡ some (reread braced)
read_string-json_escape_example = read_string-json_escape braced (codes ",")

abbrev two_docs : Docs
two_docs = (codes "a", tt) ∷ (codes "b-1", tt) ∷ []

parse_docs_registry-docs_registry_json_example :
    parse_docs_registry (docs_registry_json two_docs) ≡ two_docs
unfolding valid_doc_id all_id_bytes compare_bytes
parse_docs_registry-docs_registry_json_example =
    parse_docs_registry-docs_registry_json two_docs (refl, (refl, tt)) ((refl, tt), (tt, tt))

parse_doc_route-Routes_example :
    (parse_doc_route (codes "/doc/a/op") ≡ some (codes "a", codes "op"))
    ↔ Routes (codes "/doc/a/op") (codes "a") (codes "op")
parse_doc_route-Routes_example = parse_doc_route-Routes (codes "/doc/a/op") (codes "a") (codes "op")

-- The first two operations of client 3.
abbrev first_op : CommittedOp
first_op = record {
  version = 4;
  client_id = 3;
  client_seq = 0;
  op = insert_op 0 (codes "hi\n");
  client_id_label = codes "c_1";
}

abbrev second_op : CommittedOp
second_op = record {
  version = 6;
  client_id = 3;
  client_seq = 1;
  op = delete_op 0 1;
  client_id_label = [];
}

abbrev a_cursor : CursorEntry
a_cursor = record { version = 5; client_id = codes "c_1"; pos = pos 2 }

sse_op_frame-FramedEvent_example :
    Lines.FramedEvent (codes "id: 4\nevent: op\ndata: ") (sse_op_frame first_op) (codes "\n\n")
    × Lines.FramedEvent (codes "event: cursor\ndata: ") (sse_cursor_frame a_cursor) (codes "\n\n")
unfolding to_string emit
sse_op_frame-FramedEvent_example = sse_op_frame-FramedEvent first_op a_cursor

safe_log_component_bounds_example :
    (1 ≤ length (safe_log_component (codes "../x")))
    × (length (safe_log_component (codes "../x")) ≤ 80)
    × (all_id_bytes (safe_log_component (codes "../x")) ≡ true)
safe_log_component_bounds_example = safe_log_component_bounds (codes "../x")

-- The store with one operation of document "m".
abbrev stored_one : PancyDb
stored_one = put_op empty_db (codes "m") 5 3 0 (insert_op 0 (codes "hi"))

refresh_ops_from_db-Mirrors_example :
    Mirrors stored_one (codes "m") (refresh_ops_from_db empty_cache stored_one (codes "m"))
unfolding reconstruct replay
refresh_ops_from_db-Mirrors_example =
    refresh_ops_from_db-Mirrors empty_cache stored_one (codes "m") (refl, refl) tt

-- What is noted of that put.
abbrev noted_one : CommittedOp
noted_one = record {
  version = empty_db.next_version;
  client_id = 3;
  client_seq = 0;
  op = insert_op 0 (codes "hi");
  client_id_label = codes "c_1";
}

note_committed-refresh_ops_from_db_example :
    Mirrors stored_one (codes "m") (note_committed empty_cache noted_one)
    × Mirrors stored_one (codes "m") (refresh_ops_from_db empty_cache stored_one (codes "m"))
    × Mirrors stored_one
        (codes "m")
        (refresh_ops_from_db (note_committed empty_cache noted_one) stored_one (codes "m"))
    × Mirrors stored_one
        (codes "m")
        (note_committed (refresh_ops_from_db empty_cache stored_one (codes "m")) noted_one)
    × (reconstruct (read_ops stored_one (codes "m")) ≡ apply_op [] (insert_op 0 (codes "hi")))
unfolding find upgrade read_ops sort_ops collect_ops reconstruct replay
note_committed-refresh_ops_from_db_example =
    note_committed-refresh_ops_from_db empty_cache empty_db (codes "m") (codes "c_1") 5 3 0
      (insert_op 0 (codes "hi")) empty-Inv refl (omega arith) (omega arith) (omega arith)
      (refl, refl, refl) refl
