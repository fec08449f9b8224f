-- ===== src/Http/Cache/Prefix.antt =====
-- The operations of a cache beside those of the store, up to the labels that only the cache has.
use doom_draft.Base.{
  ℕ, ◌<◌, ◌≡◌, refl, sym, ◌∙◌, ap, true, not, ◌&&◌, is_empty, List, [], ◌∷◌, ◌++◌, append_assoc,
  append-nil, Option, none, some, Bool-cases, inl, inr, arith,
}
use doom_draft.DocOps.{Bytes, apply_op}
use doom_draft.DocOps.Serial.{Result, ok, err}
use doom_draft.Db.{Vv, PancyDb}
use doom_draft.DocOps.{DocOp}
use doom_draft.DocState.{
  CommittedOp, committed, read_entry, append_op, is_foreign, collect_ops, insert_op_sorted,
  sort_ops, read_ops, replay, reconstruct,
}
use doom_draft.DocState.Order.{Older}
use doom_draft.Http.Cache.{
  PerDocCache, last_version, same_commit, behind_prefix, append_fresh, restore_labels, upgrade,
  with_known, give_label, same_author, cons_op,
}

abbrev pub unlabel : CommittedOp → CommittedOp
unlabel c = record c { client_id_label = [] }

abbrev pub unlabelled : List CommittedOp → List CommittedOp
unlabelled [] = []
unlabelled (x ∷ l) = unlabel x ∷ unlabelled l

-- What was read has no labels.
abbrev pub Bare : List CommittedOp → Type 0
Bare [] = Unit
Bare (x ∷ l) = (x.client_id_label ≡ []) × Bare l

pub unlabelled-append :
    (xs ys : List CommittedOp) → unlabelled (xs ++ ys) ≡ unlabelled xs ++ unlabelled ys
unlabelled-append [] ys = refl
unlabelled-append (x ∷ xs) ys =
    ap (λ (l : List CommittedOp). unlabel x ∷ l) (unlabelled-append xs ys)

unlabel-bare : (x : CommittedOp) → x.client_id_label ≡ [] → unlabel x ≡ x
unlabel-bare x e = ap (λ (l : Bytes). record x { client_id_label = l }) (sym e)

pub unlabelled-Bare : (l : List CommittedOp) → Bare l → unlabelled l ≡ l
unlabelled-Bare [] b = refl
unlabelled-Bare (x ∷ l) b = rw (unlabel-bare x b.0, unlabelled-Bare l b.1)

committed-Bare :
    (v : Vv) (numbers : Option (ℕ × ℕ)) (parsed : Result DocOp) (l : List CommittedOp)
    → Bare l
    → Bare (append_op (committed v numbers parsed) l)
committed-Bare v none parsed l b = b
committed-Bare v (some (cid, seq)) (err e) l b = b
committed-Bare v (some (cid, seq)) (ok op) l b = ground arith

read_entry-Bare :
    (doc key : Bytes) (v : Vv) (l : List CommittedOp)
    → Bare l
    → Bare (append_op (read_entry doc key v) l)
unfolding read_entry
read_entry-Bare doc key v l b = elim (Bool-cases (is_foreign doc key)) [
  | inl e ↦ rw e b
  | inr e ↦ rw e (committed-Bare v _ _ l b)
]

collect-Bare : (doc : Bytes) (m : List (Bytes × Vv)) → Bare (collect_ops doc m)
unfolding collect_ops
collect-Bare doc [] = tt
collect-Bare doc ((key, v) ∷ m) = read_entry-Bare doc key v _ (collect-Bare doc m)

insert-Bare :
    (x : CommittedOp) (l : List CommittedOp)
    → x.client_id_label ≡ []
    → Bare l
    → Bare (insert_op_sorted x l)
unfolding insert_op_sorted
insert-Bare x [] e b = (e, tt)
insert-Bare x (y ∷ l) e b = ground (arith, insert-Bare x l e b.1)

sort-Bare : (l : List CommittedOp) → Bare l → Bare (sort_ops l)
unfolding sort_ops
sort-Bare [] b = tt
sort-Bare (x ∷ l) b = insert-Bare x (sort_ops l) b.0 (sort-Bare l b.1)

pub read_ops-Bare : (d : PancyDb) (doc : Bytes) → Bare (read_ops d doc)
unfolding read_ops
read_ops-Bare d doc = sort-Bare (collect_ops doc d.db) (collect-Bare doc d.db)

replay-unlabelled : (t : Bytes) (l : List CommittedOp) → replay t (unlabelled l) ≡ replay t l
unfolding replay
replay-unlabelled t [] = refl
replay-unlabelled t (x ∷ l) = replay-unlabelled (apply_op t x.op) l

pub reconstruct-unlabelled : (l : List CommittedOp) → reconstruct (unlabelled l) ≡ reconstruct l
unfolding reconstruct
reconstruct-unlabelled l = replay-unlabelled [] l

pub last-unlabelled : (l : List CommittedOp) → last_version (unlabelled l) ≡ last_version l
last-unlabelled [] = refl
last-unlabelled (x ∷ []) = refl
last-unlabelled (x ∷ y ∷ l) = last-unlabelled (y ∷ l)

pub last-append : (l : List CommittedOp) (x : CommittedOp) → last_version (l ++ x ∷ []) ≡ x.version
last-append [] x = refl
last-append (y ∷ []) x = refl
last-append (y ∷ z ∷ l) x = last-append (z ∷ l) x

pub last-Older : (n : ℕ) (l : List CommittedOp) → 0 < n → Older n l → last_version l < n
last-Older n [] p h = p
last-Older n (x ∷ []) p h = h.0
last-Older n (x ∷ y ∷ l) p h = last-Older n (y ∷ l) p h.1

pub unlabelled-restore :
    (ops fresh : List CommittedOp) → unlabelled (restore_labels ops fresh) ≡ unlabelled fresh
unfolding restore_labels
unlabelled-restore ops [] = refl
unlabelled-restore ops (x ∷ fresh) =
    ap (λ (l : List CommittedOp). unlabel x ∷ l) (unlabelled-restore ops fresh)

-- Where both lists have the same commit at the same place, it has the same operation.
abbrev pub Recorded : List CommittedOp → List CommittedOp → Type 0
Recorded [] fresh = Unit
Recorded (x ∷ ops) [] = Unit
Recorded (x ∷ ops) (y ∷ fresh) = (same_commit y x ≡ true → x.op ≡ y.op) × Recorded ops fresh

pub unlabelled-Recorded : (ops ys : List CommittedOp) → Recorded ops (unlabelled ops ++ ys)
unlabelled-Recorded [] ys = tt
unlabelled-Recorded (x ∷ ops) ys = (λ e. refl, unlabelled-Recorded ops ys)

same_commit-fields :
    (x y : CommittedOp)
    → same_commit y x ≡ true
    → (y.version ≡ x.version) × (y.client_id ≡ x.client_id) × (y.client_seq ≡ x.client_seq)
same_commit-fields x y e = (ground (arith, e), ground (arith, e), ground (arith, e))

unlabel-same : (x y : CommittedOp) → same_commit y x ≡ true → x.op ≡ y.op → unlabel y ≡ unlabel x
unlabel-same x y e f = let (v, i, s) = same_commit-fields x y e in rw (v, i, s, sym f) refl

some-same : {A : Type 0} (x y : A) → some x ≡ some y → x ≡ y
some-same x y e = cc

pub behind_prefix-front :
    (ops fresh new : List CommittedOp)
    → Recorded ops fresh
    → behind_prefix ops fresh ≡ some new
    → unlabelled fresh ≡ unlabelled ops ++ unlabelled new
unfolding behind_prefix
behind_prefix-front [] fresh new r e = ap unlabelled (some-same fresh new e)
behind_prefix-front (x ∷ ops) [] new r e = absurd cc
behind_prefix-front (x ∷ ops) (y ∷ fresh) new r e = elim (Bool-cases (same_commit y x)) [
  | inl s ↦
      let ih = behind_prefix-front ops fresh new r.1 (ground (arith, e, s)) in
      rw (unlabel-same x y s (r.0 s), ih) refl
  | inr s ↦ absurd (ground (arith, e, s))
]

-- One round of the fast path.
abbrev applied : PerDocCache → CommittedOp → PerDocCache
applied c x = record c {
  text = apply_op c.text x.op;
  ops = c.ops ++ with_known c.client_labels x ∷ [];
}

pub append_fresh-ops :
    (c : PerDocCache) (new : List CommittedOp)
    → unlabelled (append_fresh c new).ops ≡ unlabelled c.ops ++ unlabelled new
unfolding append_fresh
append_fresh-ops c [] = sym (append-nil _)
append_fresh-ops c (x ∷ new) =
    append_fresh-ops (applied c x) new
    ∙ ap (λ (l : List CommittedOp). l ++ unlabelled new) (unlabelled-append c.ops _)
    ∙ append_assoc (unlabelled c.ops) _ _

pub append_fresh-text :
    (c : PerDocCache) (new : List CommittedOp) → (append_fresh c new).text ≡ replay c.text new
unfolding append_fresh replay
append_fresh-text c [] = refl
append_fresh-text c (x ∷ new) = append_fresh-text (applied c x) new

pub append_fresh-version :
    (c : PerDocCache) (new : List CommittedOp) → (append_fresh c new).version ≡ c.version
unfolding append_fresh
append_fresh-version c [] = refl
append_fresh-version c (x ∷ new) = append_fresh-version (applied c x) new

replay-append :
    (t : Bytes) (xs ys : List CommittedOp) → replay t (xs ++ ys) ≡ replay (replay t xs) ys
unfolding replay
replay-append t [] ys = refl
replay-append t (x ∷ xs) ys = replay-append (apply_op t x.op) xs ys

pub reconstruct-behind :
    (xs ys : List CommittedOp) → reconstruct (xs ++ ys) ≡ replay (reconstruct xs) ys
unfolding reconstruct
reconstruct-behind xs ys = replay-append [] xs ys

-- Giving a label keeps everything else.
give_label-unlabel : (label : Bytes) (x : CommittedOp) → unlabel (give_label label x) ≡ unlabel x
give_label-unlabel label x =
    elim (Bool-cases (is_empty x.client_id_label && not (is_empty label))) [
      | inl e ↦ rw e refl
      | inr e ↦ rw e refl
    ]

cons_op-some :
    (x : CommittedOp) (o : Option (List CommittedOp)) (l : List CommittedOp)
    → cons_op x o ≡ some l
    → (k : List CommittedOp) × (o ≡ some k) × (x ∷ k ≡ l)
cons_op-some x none l e = absurd cc
cons_op-some x (some k) l e = (k, refl, some-same (x ∷ k) l e)

pub upgrade-unlabelled :
    (ops : List CommittedOp) (x : CommittedOp) (ops' : List CommittedOp)
    → upgrade ops x ≡ some ops'
    → unlabelled ops' ≡ unlabelled ops
unfolding upgrade
upgrade-unlabelled [] x ops' e = absurd cc
upgrade-unlabelled (y ∷ ops) x ops' e = elim (Bool-cases (same_author y x)) [
  | inl s ↦
      let l : give_label x.client_id_label y ∷ ops ≡ ops' = ground (arith, e, s) in
      rw (sym l, give_label-unlabel x.client_id_label y) refl
  | inr s ↦
      let (k, f, g) = cons_op-some y (upgrade ops x) ops' (ground (arith, e, s)) in
      rw (sym g, upgrade-unlabelled ops x k f) refl
]
