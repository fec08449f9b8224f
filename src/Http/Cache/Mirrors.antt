-- ===== src/Http/Cache/Mirrors.antt =====
-- A cache holds what the store holds, whether a commit is noted or polled first.
use doom_draft.Base.{
  ℕ, ◌<◌, ◌≤◌, ◌≡◌, refl, sym, ◌∙◌, ap, subst, true, false, is_empty, List, [], ◌∷◌, ◌++◌,
  append-nil, none, some, ◌==◌, ltb, Bool-cases, Option-cases, inl, inr, word, arith,
}
use doom_draft.OrdMap.{find}
use doom_draft.DocOps.{Bytes, DocOp, apply_op}
use doom_draft.DocOps.RoundTrip.{IsWords}
use doom_draft.Keys.{bytes_ord}
use doom_draft.Db.{PancyDb}
use doom_draft.Db.Invariant.{Inv}
use doom_draft.Db.Cells.{find_head-CellsOlder}
use doom_draft.DocState.{CommittedOp, op_key, read_ops, replay, reconstruct}
use doom_draft.DocState.Order.{sort-Older, reconstruct-append}
use doom_draft.DocState.Replay.{put_op, read_ops-put_op, reconstruct-put_op, collect-Older}
use doom_draft.Http.Cache.{
  PerDocCache, last_version, behind_prefix, append_fresh, restore_labels, with_version, reset,
  rebuild, refresh_with, refresh_ops_from_db, upgrade, remember, insert_committed, note_committed,
}
use doom_draft.Http.Cache.Prefix.{
  unlabel, unlabelled, unlabelled-append, unlabelled-Bare, read_ops-Bare, reconstruct-unlabelled,
  last-unlabelled, last-append, last-Older, unlabelled-restore, Recorded, unlabelled-Recorded,
  behind_prefix-front, append_fresh-ops, append_fresh-text, reconstruct-behind, upgrade-unlabelled,
}

-- The text and the version of a cache are those of its operations.
abbrev pub Agrees : PerDocCache → Type 0
Agrees c = (c.text ≡ reconstruct c.ops) × (c.version ≡ last_version c.ops)

-- A cache has these operations, up to labels, and their text and version.
abbrev pub Holds : List CommittedOp → PerDocCache → Type 0
Holds l c = (unlabelled c.ops ≡ l) × (c.text ≡ reconstruct l) × (c.version ≡ last_version l)

-- A cache holds what the store has for the document.
abbrev pub Mirrors : PancyDb → Bytes → PerDocCache → Type 0
Mirrors d doc c = Holds (read_ops d doc) c

reset-Holds : (c : PerDocCache) → Agrees c → Holds [] (reset c)
unfolding reconstruct replay
reset-Holds c a = reset_of (c.ops) refl
  where
    reset_of : (ops : List CommittedOp) → c.ops ≡ ops → Holds [] (reset c)
    reset_of [] e = rw e (refl, a.0 ∙ ap reconstruct e, a.1 ∙ ap last_version e)
    reset_of (x ∷ l) e = rw e (refl, refl, refl)

with_version-Holds :
    (l : List CommittedOp) (c : PerDocCache)
    → unlabelled c.ops ≡ l
    → c.text ≡ reconstruct l
    → Holds l (with_version (last_version l) c)
with_version-Holds l c o t = elim (Bool-cases (last_version l == c.version)) [
  | inl e ↦ let v : c.version ≡ last_version l = ground (arith, e) in rw e (o, t, v)
  | inr e ↦ rw e (o, t, refl)
]

append_fresh-Holds :
    (c : PerDocCache) (fresh new : List CommittedOp)
    → unlabelled fresh ≡ fresh
    → Agrees c
    → Recorded c.ops fresh
    → behind_prefix c.ops fresh ≡ some new
    → (unlabelled (append_fresh c new).ops ≡ fresh)
      × ((append_fresh c new).text ≡ reconstruct fresh)
append_fresh-Holds c fresh new b a r e =
    let joined : unlabelled c.ops ++ unlabelled new ≡ fresh =
      sym (behind_prefix-front c.ops fresh new r e) ∙ b in
    let behind : reconstruct (c.ops ++ new) ≡ reconstruct fresh =
      sym (reconstruct-unlabelled (c.ops ++ new))
      ∙ ap reconstruct (unlabelled-append c.ops new ∙ joined) in
    (
      append_fresh-ops c new ∙ joined,
      append_fresh-text c new
          ∙ ap (λ (t : Bytes). replay t new) a.0
          ∙ sym (reconstruct-behind c.ops new)
          ∙ behind,
    )

rebuild-Holds :
    (c : PerDocCache) (fresh : List CommittedOp)
    → unlabelled fresh ≡ fresh
    → Holds fresh (rebuild c fresh)
rebuild-Holds c fresh b =
    let o = unlabelled-restore c.ops fresh ∙ b in
    (o, sym (reconstruct-unlabelled (restore_labels c.ops fresh)) ∙ ap reconstruct o, refl)

refresh_with-Holds :
    (c : PerDocCache) (fresh : List CommittedOp)
    → unlabelled fresh ≡ fresh
    → Agrees c
    → Recorded c.ops fresh
    → Holds fresh (refresh_with c fresh)
unfolding refresh_with
refresh_with-Holds c [] b a r = reset-Holds c a
refresh_with-Holds c (f ∷ fresh) b a r = elim (Option-cases (behind_prefix c.ops (f ∷ fresh))) [
  | inl e ↦ rw (refresh_with, e) (rebuild-Holds c (f ∷ fresh) b)
  | inr (new, e) ↦
      let h = append_fresh-Holds c (f ∷ fresh) new b a r e in
      rw (refresh_with, e) (with_version-Holds (f ∷ fresh) (append_fresh c new) h.0 h.1)
]

-- Refreshing a cache whose text and version are those of its operations, and whose commits have
-- in the store the operations they have in the cache, gives a cache that holds the operations of
-- the store, up to labels, their text and their version; so do all three of its paths.
pub refresh_ops_from_db-Mirrors :
    (c : PerDocCache) (d : PancyDb) (doc : Bytes)
    → Agrees c
    → Recorded c.ops (read_ops d doc)
    → Mirrors d doc (refresh_ops_from_db c d doc)
unfolding refresh_ops_from_db
refresh_ops_from_db-Mirrors c d doc a r =
    refresh_with-Holds c (read_ops d doc) (unlabelled-Bare _ (read_ops-Bare d doc)) a r

Holds-Agrees : (l : List CommittedOp) (c : PerDocCache) → Holds l c → Agrees c
Holds-Agrees l c (o, t, v) = (
  t ∙ ap reconstruct (sym o) ∙ reconstruct-unlabelled c.ops,
  v ∙ ap last_version (sym o) ∙ last-unlabelled c.ops,
)

remember-Holds :
    (l : List CommittedOp) (cid : ℕ) (label : Bytes) (c : PerDocCache)
    → Holds l c
    → Holds l (remember cid label c)
remember-Holds l cid label c h = elim (Bool-cases (is_empty label)) [
  | inl e ↦ rw e h
  | inr e ↦ rw e h
]

remember-ops : (cid : ℕ) (label : Bytes) (c : PerDocCache) → (remember cid label c).ops ≡ c.ops
remember-ops cid label c = elim (Bool-cases (is_empty label)) [
  | inl e ↦ rw e refl
  | inr e ↦ rw e refl
]

-- An operation that is no newer than the cache gives a label at most.
insert_old-Holds :
    (l : List CommittedOp) (c : PerDocCache) (x : CommittedOp)
    → x.version ≤ last_version l
    → Holds l c
    → Holds l (insert_committed c x)
unfolding insert_committed
insert_old-Holds l c x h (o, t, v) = elim (Option-cases (upgrade c.ops x)) [
  | inl e ↦
      let late : ltb c.version x.version ≡ false = ground (arith, h, v) in
      rw (insert_committed, e, late) (o, t, v)
  | inr (ops, e) ↦ rw (insert_committed, e) (upgrade-unlabelled c.ops x ops e ∙ o, t, v)
]

-- A newer operation of another author is applied and comes last.
insert_new-Holds :
    (l : List CommittedOp) (c : PerDocCache) (x : CommittedOp)
    → last_version l < x.version
    → upgrade c.ops x ≡ none
    → Holds l c
    → Holds (l ++ unlabel x ∷ []) (insert_committed c x)
unfolding insert_committed
insert_new-Holds l c x h u (o, t, v) =
    let late : ltb c.version x.version ≡ true = ground (arith, h, v) in
    rw (insert_committed, u, late)
      (
        unlabelled-append c.ops (x ∷ []) ∙ ap (λ (k : List CommittedOp). k ++ unlabel x ∷ []) o,
        ap (λ (s : Bytes). apply_op s x.op) t ∙ sym (reconstruct-append l (unlabel x)),
        sym (last-append l (unlabel x)),
      )

-- Polling a store that the cache mirrors already.
polled_again :
    (d : PancyDb) (doc : Bytes) (c : PerDocCache)
    → Mirrors d doc c
    → Mirrors d doc (refresh_ops_from_db c d doc)
polled_again d doc c m =
    refresh_ops_from_db-Mirrors c d doc (Holds-Agrees _ c m)
      (subst (Recorded c.ops) (append-nil _ ∙ m.0) (unlabelled-Recorded c.ops []))

module _ (c : PerDocCache) (d : PancyDb) (doc label : Bytes) (serial cid seq : ℕ) (op : DocOp)
    (inv : Inv d) (fresh : find (op_key doc cid seq) d.db ≡ none) (b : cid < word) (s : seq < word)
    (w : IsWords op) where
  -- What the server notes when the put of an operation was answered.
  abbrev pub answered : CommittedOp
  answered = record {
    version = d.next_version;
    client_id = cid;
    client_seq = seq;
    op = op;
    client_id_label = label;
  }

  abbrev pub stored : PancyDb
  stored = put_op d doc serial cid seq op

  read_stored : read_ops stored doc ≡ read_ops d doc ++ unlabel answered ∷ []
  read_stored = read_ops-put_op d doc serial cid seq op inv fresh b s w

  cached_version : last_version (read_ops d doc) < d.next_version
  unfolding read_ops
  cached_version =
      let older =
        find_head-CellsOlder d.next_version d.db inv.sorted (λ k v e. (inv.versions k v e).1) in
      last-Older d.next_version (read_ops d doc) (ground (arith, inv.positive))
        (sort-Older d.next_version _ (collect-Older d.next_version doc d.db older))

  -- Noted.
  pub noted_first :
      Mirrors d doc c
      → upgrade c.ops answered ≡ none
      → Mirrors stored doc (note_committed c answered)
  unfolding note_committed
  noted_first m u = rw read_stored (
      insert_new-Holds (read_ops d doc) (remember cid label c) answered cached_version
        (ap (λ (k : List CommittedOp). upgrade k answered) (remember-ops cid label c) ∙ u)
        (remember-Holds _ cid label c m))

  refreshed : Mirrors d doc c → Mirrors stored doc (refresh_ops_from_db c stored doc)
  refreshed m = refresh_ops_from_db-Mirrors c stored doc (Holds-Agrees _ c m) (
      subst (Recorded c.ops) (sym read_stored) (
        subst (λ (l : List CommittedOp). Recorded c.ops (l ++ unlabel answered ∷ [])) m.0
          (unlabelled-Recorded c.ops _)))

  pub noted_late :
      (late : PerDocCache)
      → Mirrors stored doc late
      → Mirrors stored doc (note_committed late answered)
  unfolding note_committed
  noted_late late m =
      let newest = ap last_version read_stored ∙ last-append (read_ops d doc) (unlabel answered) in
      insert_old-Holds (read_ops stored doc) _ answered (ground (arith, newest))
        (remember-Holds _ cid label _ m)

  -- A cache that mirrors the store, and has no operation of this author, mirrors it again after
  -- the put of an operation under a fresh key: once the answer was noted, once the store was
  -- polled, after noting and polling, and after polling and noting. Its text is then the text of
  -- before with the operation applied once.
  pub note_committed-refresh_ops_from_db :
      Mirrors d doc c
      → upgrade c.ops answered ≡ none
      → Mirrors stored doc (note_committed c answered)
        × Mirrors stored doc (refresh_ops_from_db c stored doc)
        × Mirrors stored doc (refresh_ops_from_db (note_committed c answered) stored doc)
        × Mirrors stored doc (note_committed (refresh_ops_from_db c stored doc) answered)
        × (reconstruct (read_ops stored doc) ≡ apply_op c.text op)
  note_committed-refresh_ops_from_db m u =
      let n = noted_first m u in
      (
        n,
        refreshed m,
        polled_again stored doc (note_committed c answered) n,
        noted_late (refresh_ops_from_db c stored doc) (refreshed m),
        reconstruct-put_op d doc serial cid seq op inv fresh b s w
            ∙ ap (λ (t : Bytes). apply_op t op) (sym m.1),
      )
