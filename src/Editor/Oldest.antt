-- ===== src/Editor/Oldest.antt =====
-- Which committed operation an editor takes next.
use doom_draft.Base.{
  is_empty, not, ◌||◌, subst, ℕ, suc, ◌<◌, ◌≤◌, ◌≡◌, refl, sym, ◌∙◌, ap, true, false, List, [], ◌∷◌,
  Option, none, some, ◌⊎◌, inl, inr, if_cases, get_or, dec_lt, arith,
}
use doom_draft.DocOps.{DocOp}
use doom_draft.DocOps.Serial
use doom_draft.DocOps.Serial.{Result, deserialize}
use doom_draft.Msgs.{Errc, GetResponse}
use doom_draft.Editor.{EditorState, Best, is_ok, committed, usable, better, consider, choose_best}

-- `b` has a lower version than the operation of a peer, or the same one and no higher peer.
abbrev pub NotAfter : Best → ℕ → ℕ → Type 0
NotAfter b peer version = (b.version < version) ⊎ ((b.version ≡ version) × (b.peer ≤ peer))

-- An answer that came in time, without an error, and holds this operation under this version.
abbrev pub Offers : Option GetResponse → ℕ → DocOp → Type 0
Offers none version op = ⊥
Offers (some r) version op =
    (r.errcode ≡ Errc.ok)
    × (is_empty r.value ≡ false)
    × (deserialize r.value ≡ Serial.ok op)
    × (r.version ≡ version)

-- No operation that the peers from `peer` on offer comes before `b`.
abbrev pub NoneBefore : Best → ℕ → List (Option GetResponse) → Type 0
NoneBefore b peer [] = Unit
NoneBefore b peer (a ∷ answers) =
    ((version : ℕ) (op : DocOp) → Offers a version op → NotAfter b peer version)
    × NoneBefore b (suc peer) answers

-- One of the peers from `peer` on offers the operation taken, under its version.
abbrev pub Answers : Best → ℕ → List (Option GetResponse) → Type 0
Answers b peer [] = ⊥
Answers b peer (a ∷ answers) =
    ((b.peer ≡ peer) × Offers a b.version b.op) ⊎ Answers b (suc peer) answers

-- The operation taken is an answer, has the number that is awaited from its peer, and none comes
-- before it.
abbrev pub Takes : EditorState → List (Option GetResponse) → Best → Type 0
Takes es answers b =
    Answers b 0 answers × (b.seq ≡ get_or es.peer_next_seq b.peer 0) × NoneBefore b 0 answers

is_ok-ok : (e : Errc) → is_ok e ≡ true → e ≡ Errc.ok
is_ok-ok Errc.ok h = refl
is_ok-ok Errc.no_match h = absurd cc
is_ok-ok Errc.not_found h = absurd cc
is_ok-ok Errc.redirect h = absurd cc

Offers-usable :
    (a : Option GetResponse) (version : ℕ) (op : DocOp)
    → Offers a version op
    → usable a ≡ some (version, op)
unfolding usable
Offers-usable none version op h = absurd h
Offers-usable (some r) version op (e, n, d, v) = rw (e, n, d, v) refl

committed-Offers :
    (r : GetResponse) (parsed : Result DocOp) (version : ℕ) (op : DocOp)
    → committed r.version parsed ≡ some (version, op)
    → (parsed ≡ Serial.ok op) × (r.version ≡ version)
committed-Offers r (Serial.ok p) version op h = (cc h, cc h)
committed-Offers r (Serial.err e) version op h = absurd (cc h)

usable-Offers :
    (a : Option GetResponse) (version : ℕ) (op : DocOp)
    → usable a ≡ some (version, op)
    → Offers a version op
unfolding usable
usable-Offers none version op h = absurd (cc h)
usable-Offers (some r) version op h =
    if_cases (λ (o : Option (ℕ × DocOp)). o ≡ some (version, op) → Offers (some r) version op)
      (not (is_ok r.errcode) || is_empty r.value) (λ e k. absurd (cc k))
      (λ e k.
        let (d, v) = committed-Offers r (deserialize r.value) version op k in
        (is_ok-ok r.errcode (ground (arith, e)), ground (arith, e), d, v))
      h

-- What is read of a peer's answer has no operation that comes before `b`.
abbrev NotBefore : Best → ℕ → Option (ℕ × DocOp) → Type 0
NotBefore b peer none = Unit
NotBefore b peer (some (version, op)) = NotAfter b peer version

NotBefore-Offers :
    (b : Best) (peer : ℕ) (a : Option GetResponse)
    → NotBefore b peer (usable a)
    → (version : ℕ) (op : DocOp) → Offers a version op
    → NotAfter b peer version
NotBefore-Offers b peer a h version op o = subst (NotBefore b peer) (Offers-usable a version op o) h

abbrev Keeps : Best → Option Best → Type 0
Keeps b none = Unit
Keeps b (some c) = NotAfter b c.peer c.version

better-NotAfter :
    (b c : Best) (peer version : ℕ)
    → better (some c) peer version ≡ true
    → NotAfter b peer version
    → NotAfter b c.peer c.version
better-NotAfter b c peer version e (inl k) = inl (ground arith)
better-NotAfter b c peer version e (inr (k, l)) = elim (dec_lt version c.version) [
  | yes m ↦ inl (omega arith)
  | no m ↦ inr (ground arith)
]

worse-NotAfter :
    (b c : Best) (peer version : ℕ)
    → better (some c) peer version ≡ false
    → NotAfter b c.peer c.version
    → NotAfter b peer version
worse-NotAfter b c peer version e (inl k) = inl (ground arith)
worse-NotAfter b c peer version e (inr (k, l)) = elim (dec_lt c.version version) [
  | yes m ↦ inl (omega arith)
  | no m ↦ inr (ground arith)
]

consider-Keeps :
    (es : EditorState) (peer : ℕ) (best : Option Best) (o : Option (ℕ × DocOp)) (b : Best)
    → Keeps b (consider es peer best o)
    → Keeps b best × NotBefore b peer o
unfolding consider
consider-Keeps es peer none none b h = (tt, tt)
consider-Keeps es peer none (some (version, op)) b h = (tt, h)
consider-Keeps es peer (some c) none b h = (h, tt)
consider-Keeps es peer (some c) (some (version, op)) b h =
    if_cases (λ r. Keeps b r → Keeps b (some c) × NotBefore b peer (some (version, op)))
      (better (some c) peer version) (λ e k. (better-NotAfter b c peer version e k, k))
      (λ e k. (k, worse-NotAfter b c peer version e k)) h

choose_best-Keeps :
    (es : EditorState) (peer : ℕ) (best : Option Best) (answers : List (Option GetResponse))
    (b : Best)
    → choose_best es peer best answers ≡ some b
    → Keeps b best × NoneBefore b peer answers
unfolding choose_best
choose_best-Keeps es peer none [] b h = absurd (cc h)
choose_best-Keeps es peer (some c) [] b h =
    let e : c ≡ b = cc h in (rw e (inr (refl, omega arith)), tt)
choose_best-Keeps es peer best (a ∷ answers) b h =
    let (k, n) = choose_best-Keeps es (suc peer) (consider es peer best (usable a)) answers b h in
    let (k', m) = consider-Keeps es peer best (usable a) b k in
    (k', (NotBefore-Offers b peer a m, n))

-- What is the best so far: the best of before, or the answer of this peer.
abbrev From : EditorState → Option Best → ℕ → Option (ℕ × DocOp) → Best → Type 0
From es best peer o b =
    (best ≡ some b)
    ⊎ ((b.peer ≡ peer) × (b.seq ≡ get_or es.peer_next_seq peer 0) × (o ≡ some (b.version, b.op)))

consider-From :
    (es : EditorState) (peer : ℕ) (best : Option Best) (o : Option (ℕ × DocOp)) (b : Best)
    → consider es peer best o ≡ some b
    → From es best peer o b
unfolding consider
consider-From es peer best none b h = inl h
consider-From es peer best (some (version, op)) b h =
    if_cases (λ r. r ≡ some b → From es best peer (some (version, op)) b) (better best peer version)
      (λ e k.
        let new : Best = record {
          peer = peer;
          seq = get_or es.peer_next_seq peer 0;
          version = version;
          op = op;
        } in
        let same : new ≡ b = cc k in
        inr (
          sym (ap (λ (x : Best). x.peer) same),
          sym (ap (λ (x : Best). x.seq) same),
          ap (λ (x : Best). some (x.version, x.op)) same,
        ))
      (λ e k. inl k) h

-- The best of before, or an answer with the number awaited from its peer.
abbrev Chosen : EditorState → Option Best → ℕ → List (Option GetResponse) → Best → Type 0
Chosen es best peer answers b =
    (best ≡ some b) ⊎ (Answers b peer answers × (b.seq ≡ get_or es.peer_next_seq b.peer 0))

choose_best-Chosen :
    (es : EditorState) (peer : ℕ) (best : Option Best) (answers : List (Option GetResponse))
    (b : Best)
    → choose_best es peer best answers ≡ some b
    → Chosen es best peer answers b
unfolding choose_best
choose_best-Chosen es peer best [] b h = inl h
choose_best-Chosen es peer best (a ∷ answers) b h =
    elim (choose_best-Chosen es (suc peer) (consider es peer best (usable a)) answers b h) [
      | inr (k, s) ↦ inr (inr k, s)
      | inl e ↦ elim (consider-From es peer best (usable a) b e) [
        | inl k ↦ inl k
        | inr (p, s, u) ↦ inr (
          inl (p, usable-Offers a b.version b.op u),
          s ∙ ap (λ (x : ℕ). get_or es.peer_next_seq x 0) (sym p),
        )
      ]
    ]

-- The operation that the editor takes is offered by a peer, in an answer that came in time and is no
-- error, under that answer's version, and has the number awaited from that peer; every other
-- operation that is offered so has a higher version, or the same one and a higher peer.
pub choose_best-Takes :
    (es : EditorState) (answers : List (Option GetResponse)) (b : Best)
    → choose_best es 0 none answers ≡ some b
    → Takes es answers b
choose_best-Takes es answers b h = elim (choose_best-Chosen es 0 none answers b h) [
  | inl e ↦ absurd (cc e)
  | inr (a, s) ↦ (a, s, (choose_best-Keeps es 0 none answers b h).1)
]
