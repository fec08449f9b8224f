-- ===== src/Http/Handlers/Commit.antt =====
-- The caches after a posted operation was committed.
use Prim.Native.Nat.{bit_xor}
use native.Mathlib.Nat.{mod-lt}
use doom_draft.Base.{
  ℕ, ◌<◌, ◌≡◌, refl, sym, ◌∙◌, ap, subst, true, false, ◌&&◌, ◌*◌, ◌%◌, is_empty, ◌⊎◌, inl, inr,
  List, [], ◌∷◌, none, some, ◌==◌, Bool-cases, Option-cases, word, arith,
}
use doom_draft.OrdMap.{Ord, same_key, find, Sorted}
use doom_draft.OrdMap.Laws.{find-emplace, find-assign}
use doom_draft.Keys.{bytes_ord}
use doom_draft.DocOps.{Bytes}
use doom_draft.DocOps.RoundTrip.{IsWords}
use doom_draft.DocState.{CommittedOp, op_key}
use doom_draft.DocState.Replay.{put_op}
use doom_draft.Db.{PancyDb}
use doom_draft.Db.Invariant.{Inv}
use doom_draft.Http.Frames.{Reply, fnv_basis, fnv_prime, hash_from, hash_client_id}
use doom_draft.Http.Cache.{
  PerDocCache, set_entry, label_one, label_ops, note_client_label, upgrade, note_committed,
  ServerCacheState, doc, set_doc, or_empty,
}
use doom_draft.Http.Cache.Prefix.{unlabel, unlabelled}
use doom_draft.Http.Cache.Mirrors.{Holds, Mirrors, noted_first, noted_late}
use doom_draft.Http.Handlers.{PostedOp, noted_op, end_post_op, version_reply}

hash_from-word : (h : ℕ) (s : Bytes) → h < word → hash_from h s < word
unfolding hash_from
hash_from-word h [] b = b
hash_from-word h (c ∷ s) b =
    hash_from-word ((bit_xor h c * fnv_prime) % word) s
      (mod-lt (bit_xor h c * fnv_prime) {m = word} (omega arith))

hash-word : (s : Bytes) → hash_client_id s < word
unfolding hash_client_id
hash-word s = hash_from-word fnv_basis s (omega arith)

pub same_key-own {ℓ} : {K : Type ℓ} ⦃o : Ord K⦄ (k : K) → same_key k k ≡ true
same_key-own ⦃o⦄ k = rw (same_key, (o.cmp_iff k k).1 refl) refl

module _ {ℓ κ} {K : Type ℓ} {V : Type κ} ⦃o : Ord K⦄ where
  find-set_entry : (k : K) (v : V) (m : List (K × V)) → Sorted m → find k (set_entry k v m) ≡ some v
  find-set_entry k v m s = elim (Option-cases (find k m)) [
    | inl e ↦ rw e (find-emplace k k v m s ∙ rw (same_key-own k, e) refl)
    | inr (w, e) ↦ rw e (find-assign k k v m ∙ rw (same_key-own k, e) refl)
  ]

  find_other-set_entry :
      (j k : K) (v : V) (m : List (K × V))
      → Sorted m
      → same_key k j ≡ false
      → find j (set_entry k v m) ≡ find j m
  find_other-set_entry j k v m s d = elim (Option-cases (find k m)) [
    | inl e ↦ rw e (find-emplace j k v m s ∙ rw d refl)
    | inr (w, e) ↦ rw e (find-assign j k v m ∙ rw d refl)
  ]

label_one-unlabel :
    (cid : ℕ) (label : Bytes) (x : CommittedOp) → unlabel (label_one cid label x) ≡ unlabel x
label_one-unlabel cid label x =
    elim (Bool-cases (x.client_id == cid && is_empty x.client_id_label)) [
      | inl e ↦ rw e refl
      | inr e ↦ rw e refl
    ]

label_ops-unlabelled :
    (cid : ℕ) (label : Bytes) (ops : List CommittedOp)
    → unlabelled (label_ops cid label ops) ≡ unlabelled ops
unfolding label_ops
label_ops-unlabelled cid label [] = refl
label_ops-unlabelled cid label (x ∷ ops) =
    rw (label_one-unlabel cid label x, label_ops-unlabelled cid label ops) refl

pub label-Holds :
    (l : List CommittedOp) (cid : ℕ) (label : Bytes) (c : PerDocCache)
    → Holds l c
    → Holds l (note_client_label c cid label)
unfolding note_client_label
label-Holds l cid label c h = elim (Bool-cases (is_empty label)) [
  | inl e ↦ rw e h
  | inr e ↦ rw e (label_ops-unlabelled cid label c.ops ∙ h.0, h.1, h.2)
]

pub doc-set_doc :
    (g : ServerCacheState) (i : Bytes) (c : PerDocCache)
    → Sorted g.by_doc
    → doc (set_doc g i c) i ≡ c
doc-set_doc g i c s = ap or_empty (find-set_entry i c g.by_doc s)

doc_other-set_doc :
    (g : ServerCacheState) (i j : Bytes) (c : PerDocCache)
    → Sorted g.by_doc
    → same_key i j ≡ false
    → doc (set_doc g i c) j ≡ doc g j
doc_other-set_doc g i j c s d = ap or_empty (find_other-set_entry j i c g.by_doc s d)

-- The server and the store after a posted operation was committed as the newest version.
module _ (g : ServerCacheState) (doc_id : Bytes) (p : PostedOp) (d : PancyDb) (serial : ℕ) where
  abbrev pub with_put : PancyDb
  with_put = put_op d doc_id serial (hash_client_id p.client_id) p.seq p.op

  abbrev pub replied : ServerCacheState × Reply
  replied = end_post_op g doc_id p d.next_version

  -- A cache that mirrors the store from before the put of a posted operation, or, polled since,
  -- the one from after it, mirrors the store from after it once the handler replied with the
  -- version; the caches of other documents stay.
  pub end_post_op-Mirrors :
      Sorted g.by_doc
      → Inv d
      → find (op_key doc_id (hash_client_id p.client_id) p.seq) d.db ≡ none
      → p.seq < word
      → IsWords p.op
      → (Mirrors d doc_id (doc g doc_id)
          × (upgrade (doc g doc_id).ops (noted_op d.next_version p) ≡ none))
        ⊎ Mirrors with_put doc_id (doc g doc_id)
      → Mirrors with_put doc_id (doc replied.0 doc_id)
        × (replied.1 ≡ version_reply d.next_version)
        × ((j : Bytes) → same_key doc_id j ≡ false → doc replied.0 j ≡ doc g j)
  unfolding end_post_op
  end_post_op-Mirrors s inv fresh b w m =
      let positive : (d.next_version == 0) ≡ false = ground (arith, inv.positive) in
      rw (end_post_op, positive)
        (
          subst (Mirrors with_put doc_id) (sym (doc-set_doc g doc_id noted s)) (noted-Mirrors m),
          refl,
          λ j e. doc_other-set_doc g doc_id j noted s e,
        )
    where
      noted : PerDocCache
      noted = note_committed (doc g doc_id) (noted_op d.next_version p)

      noted-Mirrors :
          (Mirrors d doc_id (doc g doc_id)
              × (upgrade (doc g doc_id).ops (noted_op d.next_version p) ≡ none))
            ⊎ Mirrors with_put doc_id (doc g doc_id)
          → Mirrors with_put doc_id noted
      noted-Mirrors (inl (before, u)) =
          noted_first (doc g doc_id) d doc_id p.client_id serial (hash_client_id p.client_id) p.seq
            p.op inv fresh (hash-word p.client_id) b w before u
      noted-Mirrors (inr after) =
          noted_late (doc g doc_id) d doc_id p.client_id serial (hash_client_id p.client_id) p.seq
            p.op inv fresh (hash-word p.client_id) b w (doc g doc_id) after
