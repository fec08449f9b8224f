-- ===== src/Http/Handlers/PostOp.antt =====
-- Which posted operations are taken, and what becomes of one.
use doom_draft.Base.{
  ℕ, ◌≡◌, refl, ap, ◌↔◌, ◌⊎◌, inl, inr, Option, none, some, Bool-cases, arith, codes,
}
use doom_draft.OrdMap.{same_key}
use doom_draft.Keys.{bytes_ord, compare_bytes}
use doom_draft.DocOps.{Bytes, DocOp, insert_op, delete_op}
use doom_draft.Msgs.{ℤ, pos, negsuc}
use doom_draft.Db.Invariant.{same_key_iff}
use doom_draft.Http.Json.{json_get_string, json_get_int}
use doom_draft.Http.Handlers.{
  Checked, refused, accepted, natural, insert_of, delete_of, parse_posted, PostedOp, post_as,
  post_fields, check_op,
}

-- The body has the operation: an insertion or a deletion.
abbrev pub ReadsOp : Bytes → Bytes → ℕ → DocOp → Type 0
ReadsOp body type p op =
    ((text : Bytes) × (type ≡ codes "I")
      × (json_get_string body (codes "text") ≡ some text)
      × (op ≡ insert_op p text))
    ⊎ ((len : ℕ) × (type ≡ codes "D")
        × (json_get_int body (codes "len") ≡ some (pos len))
        × (op ≡ delete_op p len))

-- The body has the fields, with numbers that are not negative, and an operation.
abbrev pub Reads : Bytes → PostedOp → Type 0
Reads body q =
    (type : Bytes) × (p : ℕ) × (json_get_string body (codes "type") ≡ some type)
    × (json_get_int body (codes "pos") ≡ some (pos p))
    × (json_get_string body (codes "client_id") ≡ some q.client_id)
    × (json_get_int body (codes "seq") ≡ some (pos q.seq))
    × ReadsOp body type p q.op

insert_of-some :
    (p : ℕ) (o : Option Bytes) (op : DocOp)
    → insert_of p o ≡ accepted op
    → (text : Bytes) × (o ≡ some text) × (op ≡ insert_op p text)
insert_of-some p none op e = absurd cc
insert_of-some p (some text) op e = (text, refl, cc)

delete_of-some :
    (p : ℕ) (o : Option ℤ) (op : DocOp)
    → delete_of p (natural o) ≡ accepted op
    → (len : ℕ) × (o ≡ some (pos len)) × (op ≡ delete_op p len)
delete_of-some p none op e = absurd cc
delete_of-some p (some (negsuc n)) op e = absurd cc
delete_of-some p (some (pos len)) op e = (len, refl, cc)

parse_posted-ReadsOp :
    (body type : Bytes) (p : ℕ) (op : DocOp)
    → parse_posted body type p ≡ accepted op
    → ReadsOp body type p op
unfolding parse_posted
parse_posted-ReadsOp body type p op e = elim (Bool-cases (same_key type (codes "I"))) [
  | inl i ↦
      let (text, f, g) =
        insert_of-some p (json_get_string body (codes "text")) op (ground (arith, e, i)) in
      inl (text, same_key_iff type (codes "I") i, f, g)
  | inr i ↦ elim (Bool-cases (same_key type (codes "D"))) [
    | inl d ↦
        let (len, f, g) =
          delete_of-some p (json_get_int body (codes "len")) op (ground (arith, e, i, d)) in
        inr (len, same_key_iff type (codes "D") d, f, g)
    | inr d ↦ absurd (ground (arith, e, i, d))
  ]
]

ReadsOp-parse_posted :
    (body type : Bytes) (p : ℕ) (op : DocOp)
    → ReadsOp body type p op
    → parse_posted body type p ≡ accepted op
unfolding parse_posted compare_bytes
ReadsOp-parse_posted body type p op (inl (text, i, f, g)) = rw (i, f, g) refl
ReadsOp-parse_posted body type p op (inr (len, i, f, g)) = rw (i, f, g) refl

accepted_same : {A : Type 0} (x y : A) → accepted x ≡ accepted y → x ≡ y
accepted_same x y e = cc

posted_fields :
    (x y : PostedOp)
    → x ≡ y
    → (accepted x.op ≡ accepted y.op) × (x.client_id ≡ y.client_id) × (x.seq ≡ y.seq)
posted_fields x y e = (
  ap (λ (z : PostedOp). accepted z.op) e,
  ap (λ (z : PostedOp). z.client_id) e,
  ap (λ (z : PostedOp). z.seq) e,
)

post_as-accepted :
    (client_id : Bytes) (seq : ℕ) (c : Checked DocOp) (q : PostedOp)
    → post_as client_id seq c ≡ accepted q
    → (c ≡ accepted q.op) × (client_id ≡ q.client_id) × (seq ≡ q.seq)
post_as-accepted client_id seq (refused r) q e = absurd cc
post_as-accepted client_id seq (accepted op) q e = posted_fields _ q (accepted_same _ q e)

post_fields-Reads :
    (body : Bytes) (t : Option Bytes) (p : Option ℤ) (c : Option Bytes) (s : Option ℤ)
    (q : PostedOp)
    → post_fields body t p c s ≡ accepted q
    → (type : Bytes) × (n : ℕ) × (t ≡ some type)
      × (p ≡ some (pos n))
      × (c ≡ some q.client_id)
      × (s ≡ some (pos q.seq))
      × (parse_posted body type n ≡ accepted q.op)
post_fields-Reads body none p c s q e = absurd cc
post_fields-Reads body (some t) none c s q e = absurd cc
post_fields-Reads body (some t) (some p) none s q e = absurd cc
post_fields-Reads body (some t) (some p) (some c) none q e = absurd cc
post_fields-Reads body (some t) (some (negsuc n)) (some c) (some s) q e = absurd cc
post_fields-Reads body (some t) (some (pos n)) (some c) (some (negsuc m)) q e = absurd cc
post_fields-Reads body (some t) (some (pos n)) (some c) (some (pos m)) q e =
    let (f, g, h) = post_as-accepted c m (parse_posted body t n) q e in
    (t, n, refl, refl, ap some g, ap (λ (x : ℕ). some (pos x)) h, f)

-- A posted operation is taken exactly if the body has all of its fields, with no negative number
-- and one of the two types; it is then the one that the fields say.
pub check_op-Reads : (body : Bytes) (q : PostedOp) → (check_op body ≡ accepted q) ↔ Reads body q
unfolding check_op
check_op-Reads body q = (forth, back)
  where
    forth : check_op body ≡ accepted q → Reads body q
    forth e =
        let (type, n, t, p, c, s, o) = post_fields-Reads body _ _ _ _ q e in
        (type, n, t, p, c, s, parse_posted-ReadsOp body type n q.op o)

    back : Reads body q → check_op body ≡ accepted q
    back (type, n, t, p, c, s, o) = rw (t, p, c, s, ReadsOp-parse_posted body type n q.op o) refl
