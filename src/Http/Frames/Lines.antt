-- ===== src/Http/Frames/Lines.antt =====
-- The events of a stream are made of whole lines, whatever the users typed.
use doom_draft.Base.{
  ℕ, zero, suc, ◌+◌, ◌/◌, ◌%◌, ◌≤◌, ◌≡◌, refl, sym, ap, true, [], ◌∷◌, ◌++◌, append_assoc,
  if◌then◌else◌, if_both, is_empty, length, codes, arith, ltb,
}
use doom_draft.Decimal.{emit, to_string}
use doom_draft.DocOps.{Bytes, DocOp, insert_op, delete_op}
use doom_draft.DocState.{CommittedOp}
use doom_draft.Msgs.{ℤ, pos, negsuc}
use doom_draft.Http.Text.{all_id_bytes}
use doom_draft.Http.Json.{quoted, escape_byte, json_escape}
use doom_draft.Http.Frames.{
  CursorEntry, to_string_signed, op_inner, client_json, op_data, sse_op_frame, cursor_data,
  sse_cursor_frame, safe_bytes, safe_log_component,
}

-- No byte is a control byte; line breaks are.
abbrev pub Printable : Bytes → Type 0
Printable [] = Unit
Printable (c ∷ s) = (32 ≤ c) × Printable s

append-Printable : (s t : Bytes) → Printable s → Printable t → Printable (s ++ t)
append-Printable [] t h k = k
append-Printable (c ∷ s) t (p, h) k = (p, append-Printable s t h k)

emit-Printable : (f n : ℕ) (out : Bytes) → Printable out → Printable (emit f n out)
unfolding emit
emit-Printable zero n out h = h
emit-Printable (suc f) n out h =
    if_both Printable (ltb n 10) (omega arith, h)
      (emit-Printable f (n / 10) ((b'0' + n % 10) ∷ out) (omega arith, h))

to_string-Printable : (n : ℕ) → Printable (to_string n)
unfolding to_string
to_string-Printable n = emit-Printable (suc n) n [] tt

escape_byte-Printable : (c : ℕ) → Printable (escape_byte c)
unfolding escape_byte
escape_byte-Printable c = ground arith

json_escape-Printable : (s : Bytes) → Printable (json_escape s)
unfolding json_escape
json_escape-Printable [] = tt
json_escape-Printable (c ∷ s) =
    append-Printable (escape_byte c) (json_escape s) (escape_byte-Printable c)
      (json_escape-Printable s)

quoted-Printable : (s : Bytes) → Printable (quoted (json_escape s))
quoted-Printable s = (
  omega arith,
  append-Printable (json_escape s) (b'"' ∷ []) (json_escape-Printable s) (omega arith),
)

op_inner-Printable : (op : DocOp) → Printable (op_inner op)
unfolding op_inner
op_inner-Printable (insert_op p text) =
    append-Printable (codes "\"type\":\"I\",\"pos\":")
      (to_string p ++ (codes ",\"text\":" ++ (quoted (json_escape text)))) (omega arith)
      (append-Printable (to_string p) (codes ",\"text\":" ++ (quoted (json_escape text)))
        (to_string-Printable p)
        (append-Printable (codes ",\"text\":") (quoted (json_escape text)) (omega arith)
          (quoted-Printable text)))
op_inner-Printable (delete_op p len) =
    append-Printable (codes "\"type\":\"D\",\"pos\":")
      (to_string p ++ (codes ",\"len\":" ++ (to_string len))) (omega arith)
      (append-Printable (to_string p) (codes ",\"len\":" ++ (to_string len)) (to_string-Printable p)
        (append-Printable (codes ",\"len\":") (to_string len) (omega arith)
          (to_string-Printable len)))

client_json-Printable : (c : CommittedOp) → Printable (client_json c)
client_json-Printable c =
    if_both Printable (is_empty c.client_id_label) (to_string-Printable c.client_id)
      (quoted-Printable c.client_id_label)

op_data-Printable : (c : CommittedOp) → Printable (op_data c)
unfolding op_data
op_data-Printable c =
    append-Printable (codes "{\"version\":")
      (to_string c.version
        ++ (codes ",\"client_id\":"
            ++ (client_json c
                ++ (codes ",\"seq\":"
                    ++ (to_string c.client_seq
                        ++ (codes ",\"op\":{" ++ (op_inner c.op ++ (codes "}}"))))))))
      (omega arith)
      (append-Printable (to_string c.version)
        (codes ",\"client_id\":"
          ++ (client_json c
              ++ (codes ",\"seq\":"
                  ++ (to_string c.client_seq
                      ++ (codes ",\"op\":{" ++ (op_inner c.op ++ (codes "}}")))))))
        (to_string-Printable c.version)
        (append-Printable (codes ",\"client_id\":")
          (client_json c
            ++ (codes ",\"seq\":"
                ++ (to_string c.client_seq
                    ++ (codes ",\"op\":{" ++ (op_inner c.op ++ (codes "}}"))))))
          (omega arith)
          (append-Printable (client_json c)
            (codes ",\"seq\":"
              ++ (to_string c.client_seq ++ (codes ",\"op\":{" ++ (op_inner c.op ++ (codes "}}")))))
            (client_json-Printable c)
            (append-Printable (codes ",\"seq\":")
              (to_string c.client_seq ++ (codes ",\"op\":{" ++ (op_inner c.op ++ (codes "}}"))))
              (omega arith)
              (append-Printable (to_string c.client_seq)
                (codes ",\"op\":{" ++ (op_inner c.op ++ (codes "}}")))
                (to_string-Printable c.client_seq)
                (append-Printable (codes ",\"op\":{") (op_inner c.op ++ (codes "}}")) (omega arith)
                  (append-Printable (op_inner c.op) (codes "}}") (op_inner-Printable c.op)
                    (omega arith))))))))

signed-Printable : (z : ℤ) → Printable (to_string_signed z)
unfolding to_string_signed
signed-Printable (pos n) = to_string-Printable n
signed-Printable (negsuc n) = (omega arith, to_string-Printable (suc n))

cursor_data-Printable : (cur : CursorEntry) → Printable (cursor_data cur)
unfolding cursor_data
cursor_data-Printable cur =
    append-Printable (codes "{\"client_id\":")
      (quoted (json_escape cur.client_id)
        ++ (codes ",\"pos\":"
            ++ (to_string_signed cur.pos
                ++ (codes ",\"version\":" ++ (to_string cur.version ++ (codes "}"))))))
      (omega arith)
      (append-Printable (quoted (json_escape cur.client_id))
        (codes ",\"pos\":"
          ++ (to_string_signed cur.pos
              ++ (codes ",\"version\":" ++ (to_string cur.version ++ (codes "}")))))
        (quoted-Printable cur.client_id)
        (append-Printable (codes ",\"pos\":")
          (to_string_signed cur.pos
            ++ (codes ",\"version\":" ++ (to_string cur.version ++ (codes "}"))))
          (omega arith)
          (append-Printable (to_string_signed cur.pos)
            (codes ",\"version\":" ++ (to_string cur.version ++ (codes "}")))
            (signed-Printable cur.pos)
            (append-Printable (codes ",\"version\":") (to_string cur.version ++ (codes "}"))
              (omega arith)
              (append-Printable (to_string cur.version) (codes "}")
                (to_string-Printable cur.version) (omega arith))))))

-- An event: a name, then one line of data, then the blank line that ends it.
abbrev pub FramedEvent : Bytes → Bytes → Bytes → Type 0
FramedEvent head frame end = (line : Bytes) × (frame ≡ head ++ (line ++ end)) × Printable line

-- The event of an operation is its version, its name, and one line of data without control bytes,
-- for every text and every client name; so is that of a cursor, without the version.
pub sse_op_frame-FramedEvent :
    (c : CommittedOp) (cur : CursorEntry)
    → FramedEvent
        (codes "id: " ++ (to_string c.version ++ codes "\nevent: op\ndata: "))
        (sse_op_frame c)
        (codes "\n\n")
      × FramedEvent (codes "event: cursor\ndata: ") (sse_cursor_frame cur) (codes "\n\n")
unfolding sse_op_frame sse_cursor_frame
sse_op_frame-FramedEvent c cur = (
  (
    op_data c,
    ap (λ t. codes "id: " ++ t)
        (sym (
          append_assoc (to_string c.version) (codes "\nevent: op\ndata: ")
            (op_data c ++ codes "\n\n"))),
    op_data-Printable c,
  ),
  (cursor_data cur, refl, cursor_data-Printable cur),
)

safe_bytes-id : (room : ℕ) (s : Bytes) → all_id_bytes (safe_bytes room s) ≡ true
unfolding safe_bytes all_id_bytes
safe_bytes-id zero s = refl
safe_bytes-id (suc room) [] = refl
safe_bytes-id (suc room) (c ∷ s) = ground (arith, safe_bytes-id room s)

length-safe_bytes : (room : ℕ) (s : Bytes) → length (safe_bytes room s) ≤ room
unfolding safe_bytes
length-safe_bytes zero s = omega arith
length-safe_bytes (suc room) [] = omega arith
length-safe_bytes (suc room) (c ∷ s) = omega (arith, length-safe_bytes room s)

bounded :
    (out : Bytes)
    → length out ≤ 80
    → all_id_bytes out ≡ true
    → let out' = if is_empty out then codes "unknown" else out in
      (1 ≤ length out') × (length out' ≤ 80) × (all_id_bytes out' ≡ true)
unfolding all_id_bytes
bounded [] l h = (omega arith, omega arith, refl)
bounded (c ∷ out) l h = (omega arith, l, h)

-- A part of a log file's name has from 1 to 80 bytes, none of which is a slash, a space or a
-- control byte, whatever the request says.
pub safe_log_component_bounds :
    (s : Bytes)
    → let out = safe_log_component s in
      (1 ≤ length out) × (length out ≤ 80) × (all_id_bytes out ≡ true)
unfolding safe_log_component
safe_log_component_bounds s =
    bounded (safe_bytes 80 s) (length-safe_bytes 80 s) (safe_bytes-id 80 s)
