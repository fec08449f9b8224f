-- ===== src/Http/Stream/Rounds.antt =====
-- Which operations a stream sends, and how often.
use doom_draft.Base.{
  ℕ, zero, suc, ◌<◌, ◌≡◌, refl, sym, ◌∙◌, ap, subst, Bool, true, false, not, List, [], ◌∷◌, ◌++◌,
  append_assoc, append-nil, ◌==◌, leb, if_cases, if_both, arith,
}
use doom_draft.DocState.{CommittedOp}
use doom_draft.Http.Frames.{CursorEntry}
use doom_draft.Http.Cache.{PerDocCache}
use doom_draft.Http.Stream.{
  Event, op_event, cursor_event, ping, Stream, write_within, write, and_then, emit_ops, emit_all,
  at_cursor_epoch, emit_cursors, send_heartbeat, stream_round, stream_rounds,
}

-- The versions of the operations in a list of events.
abbrev pub op_versions : List Event → List ℕ
op_versions [] = []
op_versions (op_event c ∷ l) = c.version ∷ op_versions l
op_versions (cursor_event cur ∷ l) = op_versions l
op_versions (ping ∷ l) = op_versions l

-- Strictly ascending, from above `n` up to `last`.
abbrev pub Climbs : ℕ → ℕ → List ℕ → Type 0
Climbs n last [] = n ≡ last
Climbs n last (v ∷ l) = (n < v) × Climbs v last l

Climbs-append : (n m k : ℕ) (xs ys : List ℕ) → Climbs n m xs → Climbs m k ys → Climbs n k (xs ++ ys)
Climbs-append n m k [] ys h g = subst (λ (x : ℕ). Climbs x k ys) (sym h) g
Climbs-append n m k (v ∷ xs) ys h g = (h.0, Climbs-append v m k xs ys h.1 g)

op_versions-append :
    (xs ys : List Event) → op_versions (xs ++ ys) ≡ op_versions xs ++ op_versions ys
op_versions-append [] ys = refl
op_versions-append (op_event c ∷ xs) ys =
    ap (λ (l : List ℕ). c.version ∷ l) (op_versions-append xs ys)
op_versions-append (cursor_event cur ∷ xs) ys = op_versions-append xs ys
op_versions-append (ping ∷ xs) ys = op_versions-append xs ys

-- From `s`, the stream sent further events whose operations climb from `last_seen` to `last_seen`.
abbrev pub Advances : Stream → Stream → Type 0
Advances s t =
    (more : List Event) × (t.sent ≡ s.sent ++ more)
    × Climbs s.last_seen t.last_seen (op_versions more)

Advances-refl : (s : Stream) → Advances s s
Advances-refl s = ([], sym (append-nil s.sent), refl)

Advances-trans : (s t u : Stream) → Advances s t → Advances t u → Advances s u
Advances-trans s t u (xs, e, c) (ys, f, d) = (
  xs ++ ys,
  f ∙ ap (λ (l : List Event). l ++ ys) e ∙ append_assoc s.sent xs ys,
  subst (Climbs s.last_seen u.last_seen) (sym (op_versions-append xs ys))
      (Climbs-append s.last_seen t.last_seen u.last_seen (op_versions xs) (op_versions ys) c d),
)

and_then-Advances :
    (s : Stream) (r : Stream × Bool) (step : Stream → Stream × Bool)
    → Advances s r.0
    → ((t : Stream) → Advances t (step t).0)
    → Advances s (and_then r step).0
and_then-Advances s (t, false) step a b = a
and_then-Advances s (t, true) step a b = Advances-trans s t (step t).0 a (b t)

-- A write of something that is no operation.
cursor-Advances :
    (room : ℕ) (cur : CursorEntry) (s : Stream)
    → Advances s (write_within room (cursor_event cur) s).0
cursor-Advances zero cur s = Advances-refl s
cursor-Advances (suc room) cur s = (cursor_event cur ∷ [], refl, refl)

ping-Advances : (room : ℕ) (s : Stream) → Advances s (write_within room ping s).0
ping-Advances zero s = Advances-refl s
ping-Advances (suc room) s = (ping ∷ [], refl, refl)

emit_all-Advances :
    (cursors : List (ℕ × CursorEntry)) (s : Stream) → Advances s (emit_all cursors s).0
unfolding emit_all
emit_all-Advances [] s = Advances-refl s
emit_all-Advances ((cid, cur) ∷ cursors) s =
    and_then-Advances s (write (cursor_event cur) s) (emit_all cursors)
      (cursor-Advances s.room cur s) (emit_all-Advances cursors)

-- An operation that is sent, and what comes behind it.
op-Advances :
    (room : ℕ) (c : CommittedOp) (s : Stream) (step : Stream → Stream × Bool)
    → s.last_seen < c.version
    → ((t : Stream) → Advances t (step t).0)
    → Advances s
        (and_then
          (write_within room (op_event c) s)
          (λ (t : Stream). step (record t { last_seen = c.version }))).0
op-Advances zero c s step h k = Advances-refl s
op-Advances (suc room) c s step h k =
    let t = record s { sent = s.sent ++ op_event c ∷ []; room = room; last_seen = c.version } in
    Advances-trans s t (step t).0 (op_event c ∷ [], refl, (h, refl)) (k t)

emit_ops-Advances : (ops : List CommittedOp) (s : Stream) → Advances s (emit_ops ops s).0
unfolding emit_ops
emit_ops-Advances [] s = Advances-refl s
emit_ops-Advances (c ∷ ops) s =
    if_cases (λ (r : Stream × Bool). Advances s r.0) (leb c.version s.last_seen)
      (λ e. emit_ops-Advances ops s)
      λ e. op-Advances s.room c s (emit_ops ops) (ground (arith, e)) (emit_ops-Advances ops)

emit_cursors-Advances : (c : PerDocCache) (s : Stream) → Advances s (emit_cursors c s).0
emit_cursors-Advances c s =
    if_both (λ (r : Stream × Bool). Advances s r.0) (not (c.cursor_epoch == s.last_cursor_epoch))
      (and_then-Advances s (emit_all c.cursors s) (at_cursor_epoch c.cursor_epoch)
        (emit_all-Advances c.cursors s) (λ t. ([], sym (append-nil t.sent), refl)))
      (Advances-refl s)

send_heartbeat-Advances : (due : Bool) (s : Stream) → Advances s (send_heartbeat due s).0
send_heartbeat-Advances due s =
    if_both (λ (r : Stream × Bool). Advances s r.0) due (ping-Advances s.room s) (Advances-refl s)

round-Advances :
    (due : Bool) (c later : PerDocCache) (s : Stream) → Advances s (stream_round due c later s).0
unfolding stream_round
round-Advances due c later s =
    and_then-Advances s (and_then (emit_ops c.ops s) (emit_cursors later)) (send_heartbeat due)
      (and_then-Advances s (emit_ops c.ops s) (emit_cursors later) (emit_ops-Advances c.ops s)
        (emit_cursors-Advances later))
      (send_heartbeat-Advances due)

-- Whatever caches the rounds of a stream find, and wherever it breaks, the versions of the
-- operations it sends climb strictly, from above the version it resumes from to the last version
-- it has seen: none is sent twice, and one that a cache gets behind a later version is never sent.
pub stream_rounds-Advances :
    (rounds : List (Bool × PerDocCache × PerDocCache)) (s : Stream)
    → Advances s (stream_rounds rounds s).0
unfolding stream_rounds
stream_rounds-Advances [] s = Advances-refl s
stream_rounds-Advances ((due, c, later) ∷ rounds) s =
    and_then-Advances s (stream_round due c later s) (stream_rounds rounds)
      (round-Advances due c later s) (stream_rounds-Advances rounds)
