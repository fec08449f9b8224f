-- ===== src/Http/Stream/Delivery.antt =====
-- A stream that has room sends every operation.
use doom_draft.Base.{
  ℕ, zero, suc, ◌+◌, ◌<◌, ◌≤◌, ◌≡◌, refl, sym, ◌∙◌, ap, subst, Bool, true, false, List, [], ◌∷◌,
  ◌++◌, append_assoc, append-nil, leb, if◌then◌else◌, Bool-cases, inl, inr, length, leb→le, arith,
}
use doom_draft.DocState.{CommittedOp}
use doom_draft.Http.Stream.{Event, op_event, Stream, write_within, and_then, emit_ops}

-- The operations of a list that are newer than a version.
abbrev pub newer : ℕ → List CommittedOp → List CommittedOp
newer n [] = []
newer n (c ∷ l) = if leb c.version n then newer n l else c ∷ newer n l

abbrev pub events : List CommittedOp → List Event
events [] = []
events (c ∷ l) = op_event c ∷ events l

-- Every operation is newer than the version.
abbrev pub Over : ℕ → List CommittedOp → Type 0
Over n [] = Unit
Over n (c ∷ l) = (n < c.version) × Over n l

-- Versions ascend strictly.
abbrev pub Rising : List CommittedOp → Type 0
Rising [] = Unit
Rising (c ∷ l) = Over c.version l × Rising l

-- The version that a stream has seen once it sent a list.
abbrev seen_after : ℕ → List CommittedOp → ℕ
seen_after n [] = n
seen_after n (c ∷ l) = if leb c.version n then seen_after n l else seen_after c.version l

module _ (n : ℕ) (c : CommittedOp) (l : List CommittedOp) where
  seen_old : leb c.version n ≡ true → seen_after n (c ∷ l) ≡ seen_after n l
  seen_old e = rw e refl

  seen_new : leb c.version n ≡ false → seen_after n (c ∷ l) ≡ seen_after c.version l
  seen_new e = rw e refl

  newer_old : leb c.version n ≡ true → newer n (c ∷ l) ≡ newer n l
  newer_old e = rw e refl

  newer_new : leb c.version n ≡ false → newer n (c ∷ l) ≡ c ∷ newer n l
  newer_new e = rw e refl

newer-Over : (n : ℕ) (l : List CommittedOp) → Over n l → newer n l ≡ l
newer-Over n [] h = refl
newer-Over n (c ∷ l) h = ground (arith, newer-Over n l h.1, h.0)

Over-lower : (m n : ℕ) (l : List CommittedOp) → m ≤ n → Over n l → Over m l
Over-lower m n [] e h = tt
Over-lower m n (c ∷ l) e h = (omega (arith, h.0), Over-lower m n l e h.1)

-- Every operation has at most this version.
abbrev Under : ℕ → List CommittedOp → Type 0
Under n [] = Unit
Under n (c ∷ l) = (c.version ≤ n) × Under n l

seen_after-grows : (n : ℕ) (l : List CommittedOp) → n ≤ seen_after n l
seen_after-grows n [] = omega arith
seen_after-grows n (c ∷ l) = elim (Bool-cases (leb c.version n)) [
  | inl e ↦ rw e (seen_after-grows n l)
  | inr e ↦
      let h : n < c.version = ground (arith, e) in
      let g = seen_after-grows c.version l in rw e (omega (arith, h, g))
]

seen_after-Under : (n : ℕ) (l : List CommittedOp) → Under (seen_after n l) l
seen_after-Under n [] = tt
seen_after-Under n (c ∷ l) = elim (Bool-cases (leb c.version n)) [
  | inl e ↦
      let h = leb→le c.version n e in
      let g = seen_after-grows n l in
      subst (λ (m : ℕ). Under m (c ∷ l)) (sym (seen_old n c l e))
        (omega (arith, h, g), seen_after-Under n l)
  | inr e ↦
      subst (λ (m : ℕ). Under m (c ∷ l)) (sym (seen_new n c l e))
        (seen_after-grows c.version l, seen_after-Under c.version l)
]

newer-Under : (n : ℕ) (xs ys : List CommittedOp) → Under n xs → newer n (xs ++ ys) ≡ newer n ys
newer-Under n [] ys h = refl
newer-Under n (c ∷ xs) ys h = ground (arith, newer-Under n xs ys h.1, h.0)

Over-behind : (n : ℕ) (xs ys : List CommittedOp) → Over n (xs ++ ys) → Over n ys
Over-behind n [] ys h = h
Over-behind n (c ∷ xs) ys h = Over-behind n xs ys h.1

newer-behind :
    (n : ℕ) (xs ys : List CommittedOp) → Rising (xs ++ ys) → newer (seen_after n xs) ys ≡ newer n ys
newer-behind n [] ys r = refl
newer-behind n (c ∷ xs) ys r = elim (Bool-cases (leb c.version n)) [
  | inl e ↦ rw e (newer-behind n xs ys r.1)
  | inr e ↦
      let h : n ≤ c.version = ground (arith, e) in
      let o = Over-behind c.version xs ys r.0 in
      rw e (
        newer-behind c.version xs ys r.1
        ∙ newer-Over c.version ys o
        ∙ sym (newer-Over n ys (Over-lower n c.version ys h o)))
]

-- What a stream has seen in `xs` does not hide anything behind `xs`.
newer-seen_after :
    (n : ℕ) (xs ys : List CommittedOp)
    → Rising (xs ++ ys)
    → newer (seen_after n xs) (xs ++ ys) ≡ newer n ys
newer-seen_after n xs ys r =
    newer-Under (seen_after n xs) xs ys (seen_after-Under n xs) ∙ newer-behind n xs ys r

newer-append : (n : ℕ) (xs ys : List CommittedOp) → newer n (xs ++ ys) ≡ newer n xs ++ newer n ys
newer-append n [] ys = refl
newer-append n (c ∷ xs) ys = ground (arith, newer-append n xs ys)

events-append : (xs ys : List CommittedOp) → events (xs ++ ys) ≡ events xs ++ events ys
events-append [] ys = refl
events-append (x ∷ xs) ys = ap (λ (l : List Event). op_event x ∷ l) (events-append xs ys)

Over-front : (n : ℕ) (xs ys : List CommittedOp) → Over n (xs ++ ys) → Over n xs
Over-front n [] ys h = tt
Over-front n (c ∷ xs) ys h = (h.0, Over-front n xs ys h.1)

Rising-front : (xs ys : List CommittedOp) → Rising (xs ++ ys) → Rising xs
Rising-front [] ys r = tt
Rising-front (c ∷ xs) ys r = (Over-front c.version xs ys r.0, Rising-front xs ys r.1)

-- What a stream sends of a list that it has room for.
record Sends (l : List CommittedOp) (s : Stream) (r : Stream × Bool) : Type 0 where
  holds : r.1 ≡ true
  sent : r.0.sent ≡ s.sent ++ events (newer s.last_seen l)
  last : r.0.last_seen ≡ seen_after s.last_seen l
  room : s.room ≤ r.0.room + length l

newest_first :
    (n : ℕ) (c : CommittedOp) (l : List CommittedOp)
    → leb c.version n ≡ false
    → Over c.version l
    → c ∷ newer c.version l ≡ newer n (c ∷ l)
newest_first n c l f o =
    let h : n ≤ c.version = ground (arith, f) in
    ap (λ (k : List CommittedOp). c ∷ k)
      (newer-Over c.version l o ∙ sym (newer-Over n l (Over-lower n c.version l h o)))
    ∙ sym (newer_new n c l f)

write_op-Sends :
    (room : ℕ) (c : CommittedOp) (l : List CommittedOp) (s : Stream)
    → s.room ≡ room
    → 0 < room
    → leb c.version s.last_seen ≡ false
    → Over c.version l
    → ((t : Stream) → suc t.room ≡ room → Sends l t (emit_ops l t))
    → Sends (c ∷ l) s (
        and_then
          (write_within room (op_event c) s)
          (λ (t : Stream). emit_ops l (record t { last_seen = c.version })))
write_op-Sends zero c l s e p f o h = absurd (omega arith)
write_op-Sends (suc room) c l s e p f o h =
    let t = record s { sent = s.sent ++ op_event c ∷ []; room = room; last_seen = c.version } in
    let i = h t refl in
    record {
      holds = i.holds;
      sent =
          i.sent
          ∙ append_assoc s.sent (op_event c ∷ []) _
          ∙ ap (λ (k : List CommittedOp). s.sent ++ events k) (newest_first s.last_seen c l f o);
      last = i.last ∙ sym (seen_new _ c l f);
      room = omega (arith, i.room, e);
    }

emit_ops-Sends :
    (l : List CommittedOp) (s : Stream) → Rising l → length l ≤ s.room → Sends l s (emit_ops l s)
unfolding emit_ops
emit_ops-Sends [] s r h = record {
  holds = refl;
  sent = sym (append-nil s.sent);
  last = refl;
  room = omega arith;
}
emit_ops-Sends (c ∷ l) s r h = elim (Bool-cases (leb c.version s.last_seen)) [
  | inl e ↦
      let i = emit_ops-Sends l s r.1 (omega (arith, h)) in
      rw e (record {
        holds = i.holds;
        sent = i.sent ∙ ap (λ (k : List CommittedOp). s.sent ++ events k) (sym (newer_old _ c l e));
        last = i.last ∙ sym (seen_old _ c l e);
        room = omega (arith, i.room);
      })
  | inr e ↦ rw e (
      write_op-Sends s.room c l s refl (omega (arith, h)) e r.0
        λ t q. emit_ops-Sends l t r.1 (omega (arith, h, q)))
]

-- A stream that has room for what it finds, and finds a list whose versions ascend strictly and
-- later one that goes on from it, sends by then exactly the operations that are newer than the
-- version it resumed from, each once and in order.
pub emit_ops-newer :
    (xs ys : List CommittedOp) (s : Stream)
    → Rising (xs ++ ys)
    → length xs + length (xs ++ ys) ≤ s.room
    → (let (t, b) = emit_ops xs s in
        let (u, b') = emit_ops (xs ++ ys) t in
        (b ≡ true) × (b' ≡ true) × (u.sent ≡ s.sent ++ events (newer s.last_seen (xs ++ ys))))
emit_ops-newer xs ys s r h =
    let p = emit_ops-Sends xs s (Rising-front xs ys r) (omega (arith, h)) in
    let q = emit_ops-Sends (xs ++ ys) (emit_ops xs s).0 r (omega (arith, h, p.room)) in
    let later = ap (λ (n : ℕ). newer n (xs ++ ys)) p.last ∙ newer-seen_after s.last_seen xs ys r in
    (
      p.holds,
      q.holds,
      q.sent
          ∙ ap (λ (k : List Event). k ++ events (newer (emit_ops xs s).0.last_seen (xs ++ ys)))
              p.sent
          ∙ append_assoc s.sent _ _
          ∙ ap (λ (k : List CommittedOp). s.sent ++ (events (newer s.last_seen xs) ++ events k))
              later
          ∙ ap (λ (k : List Event). s.sent ++ k)
              (sym (events-append (newer s.last_seen xs) (newer s.last_seen ys))
                ∙ ap events (sym (newer-append s.last_seen xs ys))),
    )
