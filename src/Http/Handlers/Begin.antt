-- ===== src/Http/Handlers/Begin.antt =====
-- What the server does with a posted operation before it is committed.
use doom_draft.Base.{
  ℕ, ◌≡◌, ◌≢◌, refl, sym, ◌∙◌, subst, ◌⊎◌, inl, inr, Option, none, some, codes, if_both,
}
use doom_draft.OrdMap.{same_key, Sorted}
use doom_draft.Keys.{bytes_ord}
use doom_draft.DocOps.{Bytes, DocOp}
use doom_draft.DocState.{op_key, read_ops}
use doom_draft.Db.{PancyDb}
use doom_draft.DocOps.Serial.{serialize}
use doom_draft.Msgs.{ℤ, pos, negsuc}
use doom_draft.Http.Json.{json_get_string}
use doom_draft.Http.Handlers.PostOp.{Reads, check_op-Reads}
use doom_draft.Http.Frames.{Reply, hash_client_id}
use doom_draft.Http.Cache.{ServerCacheState, doc}
use doom_draft.Http.Cache.Mirrors.{Mirrors}
use doom_draft.Http.Handlers.Commit.{label-Holds, doc-set_doc}
use doom_draft.Http.Handlers.{
  Checked, refused, accepted, PostedOp, check_op, start_op, Submitting, begin_post_op, parse_posted,
  insert_of, delete_of, post_as, post_fields,
}

-- What a check refused, it refused with status 400.
abbrev Refuses : {A : Type 0} → Checked A → Type 0
Refuses (refused r) = r.status ≡ 400
Refuses (accepted a) = Unit

parse_posted-Refuses : (body type : Bytes) (p : ℕ) → Refuses (parse_posted body type p)
unfolding parse_posted
parse_posted-Refuses body type p =
    if_both Refuses (same_key type (codes "I")) (insertion (json_get_string body (codes "text")))
      (if_both Refuses (same_key type (codes "D")) (deletion _) refl)
  where
    insertion : (o : Option Bytes) → Refuses (insert_of p o)
    insertion none = refl
    insertion (some text) = tt

    deletion : (o : Option ℕ) → Refuses (delete_of p o)
    deletion none = refl
    deletion (some len) = tt

post_as-Refuses :
    (client_id : Bytes) (seq : ℕ) (c : Checked DocOp)
    → Refuses c
    → Refuses (post_as client_id seq c)
post_as-Refuses client_id seq (refused r) h = h
post_as-Refuses client_id seq (accepted op) h = tt

post_fields-Refuses :
    (body : Bytes) (t : Option Bytes) (p : Option ℤ) (c : Option Bytes) (s : Option ℤ)
    → Refuses (post_fields body t p c s)
post_fields-Refuses body none p c s = refl
post_fields-Refuses body (some t) none c s = refl
post_fields-Refuses body (some t) (some p) none s = refl
post_fields-Refuses body (some t) (some p) (some c) none = refl
post_fields-Refuses body (some t) (some (negsuc n)) (some c) (some s) = refl
post_fields-Refuses body (some t) (some (pos n)) (some c) (some (negsuc m)) = refl
post_fields-Refuses body (some t) (some (pos n)) (some c) (some (pos m)) =
    post_as-Refuses c m _ (parse_posted-Refuses body t n)

-- The answer to a body that has no operation.
abbrev pub TurnedAway :
    ServerCacheState → Bytes → ServerCacheState × Checked (Submitting PostedOp) → Type 0
TurnedAway g body (g', outcome) =
    (r : Reply) × (outcome ≡ refused r)
    × (r.status ≡ 400)
    × (g' ≡ g)
    × ((q : PostedOp) → ¬ Reads body q)

-- What is submitted for the operation of a body.
abbrev pub Submits :
    ServerCacheState → Bytes → Bytes → ServerCacheState × Checked (Submitting PostedOp) → Type 0
Submits g doc_id body (g', outcome) =
    (q : PostedOp) × Reads body q
    × (outcome
        ≡ accepted (record {
          key = op_key doc_id (hash_client_id q.client_id) q.seq;
          value = serialize q.op;
          posted = q;
        }))
    × ((d : PancyDb) → Mirrors d doc_id (doc g doc_id) → Mirrors d doc_id (doc g' doc_id))

start_op-cases :
    (g : ServerCacheState) (doc_id body : Bytes) (c : Checked PostedOp)
    → Sorted g.by_doc
    → check_op body ≡ c
    → Refuses c
    → TurnedAway g body (start_op g doc_id c) ⊎ Submits g doc_id body (start_op g doc_id c)
start_op-cases g doc_id body (refused r) s e h =
    inl (r, refl, h, refl, λ q k. refused_none r q (sym e ∙ (check_op-Reads body q).1 k))
  where
    refused_none : (r : Reply) (q : PostedOp) → refused r ≢ accepted q
    refused_none r q f = cc
start_op-cases g doc_id body (accepted q) s e h = inr (
  q,
  (check_op-Reads body q).0 e,
  refl,
  λ d m.
      subst (Mirrors d doc_id) (sym (doc-set_doc g doc_id _ s))
        (label-Holds (read_ops d doc_id) (hash_client_id q.client_id) q.client_id (doc g doc_id) m),
)

-- A body that has no operation is refused with status 400, nothing is submitted and no cache
-- changes; one that has is submitted under the key of the operation as its serialization, and the
-- cache of the document mirrors every store that it mirrored before.
pub begin_post_op-Reads :
    (g : ServerCacheState) (doc_id body : Bytes)
    → Sorted g.by_doc
    → TurnedAway g body (begin_post_op g doc_id body)
      ⊎ Submits g doc_id body (begin_post_op g doc_id body)
unfolding begin_post_op check_op
begin_post_op-Reads g doc_id body s =
    start_op-cases g doc_id body (check_op body) s refl (post_fields-Refuses body _ _ _ _)
