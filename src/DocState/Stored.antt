-- ===== src/DocState/Stored.antt =====
-- Which operations are read from a store, and in which order.
use doom_draft.Base.{
  ℕ, ◌<◌, ◌≡◌, refl, sym, ◌∙◌, ap, true, false, List, [], ◌∷◌, Option, none, some, Bool-cases, ◌⊎◌,
  inl, inr, if_cases, ◌==◌, word, zero, suc, ◌++◌, take, drop, length, arith,
}
use doom_draft.OrdMap.{same_key, find}
use doom_draft.Keys.{bytes_ord, compare_bytes_iff}
use doom_draft.DocOps.{Bytes, DocOp}
use doom_draft.DocOps.Serial
use doom_draft.DocOps.Serial.{Result, serialize, deserialize}
use doom_draft.DocOps.RoundTrip.{IsWords}
use doom_draft.Msgs.{nonexistent_version}
use doom_draft.Db.{Vv, PancyDb}
use doom_draft.DocState.{
  CommittedOp, before, op_key, read_entry, committed, is_foreign, append_op, insert_op_sorted,
  sort_ops, collect_ops, read_ops, parse_op_suffix, doc_op_prefix,
}
use doom_draft.DocState.Keying.{read_entry-op_key}
use doom_draft.DocState.Order.{InOrder, sort-InOrder}

abbrev pub Has : CommittedOp → List CommittedOp → Type 0
Has c [] = ⊥
Has c (x ∷ l) = (c ≡ x) ⊎ Has c l

insert-Has :
    (c x : CommittedOp) (l : List CommittedOp) → ((c ≡ x) ⊎ Has c l) → Has c (insert_op_sorted x l)
unfolding insert_op_sorted
insert-Has c x [] h = h
insert-Has c x (y ∷ l) h =
    let added : ((c ≡ x) ⊎ Has c l) → Has c (insert_op_sorted x l) = insert-Has c x l in
    if_cases (Has c) (before y x)
      (λ e. elim h [
        | inl k ↦ inr (added (inl k))
        | inr (inl k) ↦ inl k
        | inr (inr k) ↦ inr (added (inr k))
      ])
      (λ e. h)

sort-Has : (c : CommittedOp) (l : List CommittedOp) → Has c l → Has c (sort_ops l)
unfolding sort_ops
sort-Has c [] h = h
sort-Has c (x ∷ l) (inl e) = insert-Has c x (sort_ops l) (inl e)
sort-Has c (x ∷ l) (inr h) = insert-Has c x (sort_ops l) (inr (sort-Has c l h))

Has-insert :
    (c x : CommittedOp) (l : List CommittedOp) → Has c (insert_op_sorted x l) → (c ≡ x) ⊎ Has c l
unfolding insert_op_sorted
Has-insert c x [] h = h
Has-insert c x (y ∷ l) h =
    let past : Has c (insert_op_sorted x l) → (c ≡ x) ⊎ Has c l = Has-insert c x l in
    if_cases (λ (m : List CommittedOp). Has c m → (c ≡ x) ⊎ Has c (y ∷ l)) (before y x)
      (λ e k. elim k [
        | inl a ↦ inr (inl a)
        | inr b ↦ elim (past b) [ inl a ↦ inl a | inr d ↦ inr (inr d) ]
      ])
      (λ e k. k) h

Has-sort : (c : CommittedOp) (l : List CommittedOp) → Has c (sort_ops l) → Has c l
unfolding sort_ops
Has-sort c [] h = h
Has-sort c (x ∷ l) h = elim (Has-insert c x (sort_ops l) h) [
  | inl e ↦ inl e
  | inr k ↦ inr (Has-sort c l k)
]

append-Has :
    (c : CommittedOp) (o : Option CommittedOp) (l : List CommittedOp)
    → Has c l
    → Has c (append_op o l)
append-Has c none l h = h
append-Has c (some x) l h = inr h

same_bytes : (a b : Bytes) → same_key a b ≡ true → a ≡ b
same_bytes a b h = ground (arith, compare_bytes_iff a b)

-- The operation that a cell stores is collected.
find-Has :
    (doc key : Bytes) (v : Vv) (c : CommittedOp) (m : List (Bytes × Vv))
    → read_entry doc key v ≡ some c
    → find key m ≡ some v
    → Has c (collect_ops doc m)
unfolding find collect_ops
find-Has doc key v c [] e h = absurd cc
find-Has doc key v c ((k, w) ∷ m) e h = elim (Bool-cases (same_key k key)) [
  | inl f ↦
      let here : some w ≡ some v = rw f at h in
      let same : w ≡ v = cc here in
      let read : read_entry doc k w ≡ some c =
        ap (λ (j : Bytes). read_entry doc j w) (same_bytes k key f)
        ∙ ap (read_entry doc key) same
        ∙ e in
      rw read (inl refl)
  | inr f ↦
      append-Has c (read_entry doc k w) (collect_ops doc m) (find-Has doc key v c m e (rw f at h))
]

-- Some cell of the document, under a key with its prefix, holds the operation with its version.
abbrev pub StoredIn : Bytes → CommittedOp → List (Bytes × Vv) → Type 0
StoredIn doc c [] = ⊥
StoredIn doc c ((key, v) ∷ m) =
    (((s : Bytes) × (key ≡ doc_op_prefix doc ++ s))
      × (c.version ≡ v.version)
      × (deserialize v.value ≡ Serial.ok c.op))
    ⊎ StoredIn doc c m

take-drop : (n : ℕ) (s : Bytes) → s ≡ take n s ++ drop n s
take-drop zero s = refl
take-drop (suc n) [] = refl
take-drop (suc n) (x ∷ s) = ap (λ (l : Bytes). x ∷ l) (take-drop n s)

own_prefix :
    (doc key : Bytes) → is_foreign doc key ≡ false → (s : Bytes) × (key ≡ doc_op_prefix doc ++ s)
own_prefix doc key h =
    let p = doc_op_prefix doc in
    let n = length p in
    let own : same_key (take n key) p ≡ true = ground (arith, h) in
    (
      drop n key,
      take-drop n key ∙ ap (λ (l : Bytes). l ++ drop n key) (same_bytes (take n key) p own),
    )

committed-Has :
    (v : Vv) (numbers : Option (ℕ × ℕ)) (parsed : Result DocOp) (c : CommittedOp)
    (l : List CommittedOp)
    → Has c (append_op (committed v numbers parsed) l)
    → ((c.version ≡ v.version) × (parsed ≡ Serial.ok c.op)) ⊎ Has c l
committed-Has v none parsed c l h = inr h
committed-Has v (some (cid, seq)) (Serial.err e) c l h = inr h
committed-Has v (some (cid, seq)) (Serial.ok op) c l h =
    if_cases
      (λ (o : Option CommittedOp).
        Has c (append_op o l)
        → ((c.version ≡ v.version) × (Serial.ok op ≡ Serial.ok c.op)) ⊎ Has c l)
      (v.version == nonexistent_version) (λ e k. inr k)
      (λ e k. elim k [
        | inl a ↦ inl (
          ap (λ (x : CommittedOp). x.version) a,
          sym (ap (λ (x : CommittedOp). Serial.ok x.op) a),
        )
        | inr b ↦ inr b
      ])
      h

collect-StoredIn :
    (doc : Bytes) (c : CommittedOp) (m : List (Bytes × Vv))
    → Has c (collect_ops doc m)
    → StoredIn doc c m
unfolding collect_ops read_entry
collect-StoredIn doc c [] h = h
collect-StoredIn doc c ((key, v) ∷ m) h = elim (Bool-cases (is_foreign doc key)) [
  | inl e ↦ inr (collect-StoredIn doc c m (rw e at h))
  | inr e ↦
      elim (committed-Has v (parse_op_suffix (drop (length (doc_op_prefix doc)) key))
        (deserialize v.value) c (collect_ops doc m) (rw e at h)) [
          | inl k ↦ inl (own_prefix doc key e, k.0, k.1)
          | inr k ↦ inr (collect-StoredIn doc c m k)
        ]
]

-- The list has every operation that the store holds under its key, with words for its numbers and
-- a positive version.
abbrev pub Complete : PancyDb → Bytes → List CommittedOp → Type 0
Complete d doc l =
    (cid seq : ℕ) (op : DocOp) (version : ℕ)
    → cid < word
    → seq < word
    → IsWords op
    → 0 < version
    → find (op_key doc cid seq) d.db ≡ some (record { value = serialize op; version = version })
    → Has
        (record {
          version = version;
          client_id = cid;
          client_seq = seq;
          op = op;
          client_id_label = [];
        })
        l

abbrev pub AllStored : PancyDb → Bytes → List CommittedOp → Type 0
AllStored d doc [] = Unit
AllStored d doc (c ∷ l) = StoredIn doc c d.db × AllStored d doc l

each-AllStored :
    (d : PancyDb) (doc : Bytes) (l : List CommittedOp)
    → ((c : CommittedOp) → Has c l → StoredIn doc c d.db)
    → AllStored d doc l
each-AllStored d doc [] h = tt
each-AllStored d doc (c ∷ l) h = (h c (inl refl), each-AllStored d doc l (λ x k. h x (inr k)))

-- The operations that are read for a document of a store stand in the order of their versions, and
-- those of one version in the order of the client and its counter; every operation that the store
-- holds under its key, with words for its numbers and a positive version, is among them; and each
-- of them is held by a cell under a key of the document, with its version.
pub read_ops-InOrder :
    (d : PancyDb) (doc : Bytes)
    → InOrder (read_ops d doc) × Complete d doc (read_ops d doc) × AllStored d doc (read_ops d doc)
unfolding read_ops
read_ops-InOrder d doc = (
  sort-InOrder (collect_ops doc d.db),
  λ cid seq op version h k w v f. sort-Has _ (collect_ops doc d.db) (
      find-Has doc (op_key doc cid seq) _ _ d.db (read_entry-op_key doc cid seq op version h k w v)
        f),
  each-AllStored d doc _ (λ c h. collect-StoredIn doc c d.db (Has-sort c (collect_ops doc d.db) h)),
)
