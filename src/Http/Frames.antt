-- ===== src/Http/Frames.antt =====
-- What the server writes: events of a stream, replies, and names of log files; and the hash that
-- turns a client's name into a number.
pub mod Lines
use Prim.Native.Nat.{bit_xor}
use doom_draft.Base.{
  ℕ, zero, suc, ◌*◌, ◌%◌, Bool, true, false, List, [], ◌∷◌, ◌++◌, if◌then◌else◌, is_empty, length,
  word, codes,
}
use doom_draft.Decimal.{to_string}
use doom_draft.DocOps.{Bytes, DocOp, insert_op, delete_op}
use doom_draft.DocState.{CommittedOp}
use doom_draft.Msgs.{ℤ, pos, negsuc}
use doom_draft.Http.Text.{is_id_byte}
use doom_draft.Http.Json.{quoted, json_escape}

pub record CursorEntry : Type 0 where
  pub version : ℕ
  pub client_id : Bytes
  pub pos : ℤ

-- `std::to_string` of an `int64_t`.
unfoldable pub to_string_signed : ℤ → Bytes
to_string_signed (pos n) = to_string n
to_string_signed (negsuc n) = b'-' ∷ to_string (suc n)

unfoldable pub op_inner : DocOp → Bytes
op_inner (insert_op p text) =
    codes "\"type\":\"I\",\"pos\":"
    ++ (to_string p ++ (codes ",\"text\":" ++ quoted (json_escape text)))
op_inner (delete_op p len) =
    codes "\"type\":\"D\",\"pos\":" ++ (to_string p ++ (codes ",\"len\":" ++ to_string len))

abbrev pub client_json : CommittedOp → Bytes
client_json c =
    if is_empty c.client_id_label
    then to_string c.client_id
    else quoted (json_escape c.client_id_label)

unfoldable pub op_data : CommittedOp → Bytes
unfolding op_inner
op_data c =
    codes "{\"version\":"
    ++ (to_string c.version
        ++ (codes ",\"client_id\":"
            ++ (client_json c
                ++ (codes ",\"seq\":"
                    ++ (to_string c.client_seq
                        ++ (codes ",\"op\":{" ++ (op_inner c.op ++ codes "}}")))))))

unfoldable pub sse_op_frame : CommittedOp → Bytes
unfolding op_data
sse_op_frame c =
    codes "id: "
    ++ (to_string c.version ++ (codes "\nevent: op\ndata: " ++ (op_data c ++ codes "\n\n")))

unfoldable pub cursor_data : CursorEntry → Bytes
unfolding to_string_signed
cursor_data cur =
    codes "{\"client_id\":"
    ++ (quoted (json_escape cur.client_id)
        ++ (codes ",\"pos\":"
            ++ (to_string_signed cur.pos
                ++ (codes ",\"version\":" ++ (to_string cur.version ++ codes "}")))))

unfoldable pub sse_cursor_frame : CursorEntry → Bytes
unfolding cursor_data
sse_cursor_frame cur = codes "event: cursor\ndata: " ++ (cursor_data cur ++ codes "\n\n")

-- FNV-1a with 64 bits.
abbrev pub fnv_basis : ℕ
fnv_basis = 1469598103934665603

abbrev pub fnv_prime : ℕ
fnv_prime = 1099511628211

unfoldable pub hash_from : ℕ → Bytes → ℕ
hash_from h [] = h
hash_from h (c ∷ s) = hash_from ((bit_xor h c * fnv_prime) % word) s

unfoldable pub hash_client_id : Bytes → ℕ
unfolding hash_from
hash_client_id s = hash_from fnv_basis s

-- At most `room` bytes, each one that no id may hold turned into `_`.
unfoldable pub safe_bytes : ℕ → Bytes → Bytes
safe_bytes zero s = []
safe_bytes (suc room) [] = []
safe_bytes (suc room) (c ∷ s) = (if is_id_byte c then c else b'_') ∷ safe_bytes room s

unfoldable pub safe_log_component : Bytes → Bytes
unfolding safe_bytes
safe_log_component s = let out = safe_bytes 80 s in if is_empty out then codes "unknown" else out

pub record Reply : Type 0 where
  pub status : ℕ
  pub reason : Bytes
  pub content_type : Bytes
  pub body : Bytes

-- No handler passes further headers.
unfoldable pub http_response : Reply → Bytes
http_response r =
    codes "HTTP/1.1 "
    ++ (to_string r.status
        ++ (b' '
            ∷ (r.reason
                ++ (codes "\r\nContent-Type: "
                    ++ (r.content_type
                        ++ (codes "\r\nContent-Length: "
                            ++ (to_string (length r.body)
                                ++ (codes
                                      "\r\nConnection: close\r\nAccess-Control-Allow-Origin: *\r\n\r\n"
                                    ++ r.body))))))))
