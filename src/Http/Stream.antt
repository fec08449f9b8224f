-- ===== src/Http/Stream.antt =====
-- pset4/http_server.cc: `handle_stream_doc`, the events that a browser is sent.
pub mod Rounds
pub mod Delivery
use doom_draft.Base.{
  ℕ, zero, suc, Bool, true, false, not, List, [], ◌∷◌, ◌++◌, ◌==◌, leb, if◌then◌else◌, codes,
}
use doom_draft.DocOps.{Bytes}
use doom_draft.DocState.{CommittedOp}
use doom_draft.Http.Frames.{CursorEntry, sse_op_frame, sse_cursor_frame}
use doom_draft.Http.Cache.{PerDocCache}

pub data Event : Type 0 where
  op_event : CommittedOp → Event
  cursor_event : CursorEntry → Event
  ping : Event

-- What is written for an event.
unfoldable pub event_bytes : Event → Bytes
event_bytes (op_event c) = sse_op_frame c
event_bytes (cursor_event cur) = sse_cursor_frame cur
event_bytes ping = codes "event: ping\ndata: {}\n\n"

-- `room` is how many further writes succeed before the connection breaks.
pub record Stream : Type 0 where
  pub last_seen : ℕ
  pub last_cursor_epoch : ℕ
  pub sent : List Event
  pub room : ℕ

abbrev pub open_stream : ℕ → ℕ → Stream
open_stream resume_from room = record {
  last_seen = resume_from;
  last_cursor_epoch = 0;
  sent = [];
  room = room;
}

-- `write_all`: whether it succeeded.
abbrev pub write_within : ℕ → Event → Stream → Stream × Bool
write_within zero ev s = (s, false)
write_within (suc room) ev s = (record s { sent = s.sent ++ ev ∷ []; room = room }, true)

abbrev pub write : Event → Stream → Stream × Bool
write ev s = write_within s.room ev s

-- A step that is taken only while the connection holds.
abbrev pub and_then : Stream × Bool → (Stream → Stream × Bool) → Stream × Bool
and_then (s, false) step = (s, false)
and_then (s, true) step = step s

unfoldable pub emit_ops : List CommittedOp → Stream → Stream × Bool
emit_ops [] s = (s, true)
emit_ops (c ∷ ops) s =
    let later = emit_ops ops s in
    let now =
      and_then (write (op_event c) s)
        λ (t : Stream). emit_ops ops (record t { last_seen = c.version }) in
    if leb c.version s.last_seen then later else now

unfoldable pub emit_all : List (ℕ × CursorEntry) → Stream → Stream × Bool
emit_all [] s = (s, true)
emit_all ((cid, cur) ∷ cursors) s = and_then (write (cursor_event cur) s) (emit_all cursors)

abbrev pub at_cursor_epoch : ℕ → Stream → Stream × Bool
at_cursor_epoch epoch s = (record s { last_cursor_epoch = epoch }, true)

abbrev pub emit_cursors : PerDocCache → Stream → Stream × Bool
emit_cursors c s =
    let all = and_then (emit_all c.cursors s) (at_cursor_epoch c.cursor_epoch) in
    if not (c.cursor_epoch == s.last_cursor_epoch) then all else (s, true)

abbrev pub send_heartbeat : Bool → Stream → Stream × Bool
send_heartbeat due s = if due then write ping s else (s, true)

-- One round of the loop: the operations, the cursors, and the heartbeat when it is due. The cursors
-- are read after the operations were written, when the cache may have changed.
unfoldable pub stream_round : Bool → PerDocCache → PerDocCache → Stream → Stream × Bool
unfolding emit_ops emit_all
stream_round due c later s =
    and_then (and_then (emit_ops c.ops s) (emit_cursors later)) (send_heartbeat due)

-- The rounds of a stream, each with the caches it finds, until a write fails.
unfoldable pub stream_rounds : List (Bool × PerDocCache × PerDocCache) → Stream → Stream × Bool
unfolding stream_round
stream_rounds [] s = (s, true)
stream_rounds ((due, c, later) ∷ rounds) s =
    and_then (stream_round due c later s) (stream_rounds rounds)
