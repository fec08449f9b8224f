-- ===== src/DocState/Order.antt =====
-- The order in which operations are replayed.
use doom_draft.Base.{
  ℕ, ◌<◌, ◌≤◌, ◌≡◌, refl, ◌∙◌, ap, Bool, true, false, not, ◌==◌, ◌⊎◌, inl, inr, if_cases, List, [],
  ◌∷◌, ◌++◌, arith,
}
use doom_draft.DocOps.{Bytes, apply_op}
use doom_draft.DocState.{CommittedOp, before, insert_op_sorted, sort_ops, replay, reconstruct}

-- Every operation is older than version `n`.
abbrev pub Older : ℕ → List CommittedOp → Type 0
Older n [] = Unit
Older n (c ∷ l) = (c.version < n) × Older n l

insert_last :
    (c : CommittedOp) (l : List CommittedOp)
    → Older c.version l
    → insert_op_sorted c l ≡ l ++ c ∷ []
unfolding insert_op_sorted
insert_last c [] h = refl
insert_last c (x ∷ l) h = ground (arith, insert_last c l h.1)

insert_before_last :
    (x c : CommittedOp) (l : List CommittedOp)
    → x.version < c.version
    → insert_op_sorted x (l ++ c ∷ []) ≡ insert_op_sorted x l ++ c ∷ []
unfolding insert_op_sorted
insert_before_last x c [] h = ground arith
insert_before_last x c (y ∷ l) h = ground (arith, insert_before_last x c l h)

insert-Older :
    (n : ℕ) (x : CommittedOp) (l : List CommittedOp)
    → x.version < n
    → Older n l
    → Older n (insert_op_sorted x l)
unfolding insert_op_sorted
insert-Older n x [] h k = (h, tt)
insert-Older n x (y ∷ l) h k = ground (arith, insert-Older n x l h k.1)

pub sort-Older : (n : ℕ) (l : List CommittedOp) → Older n l → Older n (sort_ops l)
unfolding sort_ops
sort-Older n [] h = tt
sort-Older n (x ∷ l) h = insert-Older n x (sort_ops l) h.0 (sort-Older n l h.1)

-- The newest operation comes last, wherever it stood.
pub sort_newest :
    (c : CommittedOp) (xs ys : List CommittedOp)
    → Older c.version xs
    → Older c.version ys
    → sort_ops (xs ++ c ∷ ys) ≡ sort_ops (xs ++ ys) ++ c ∷ []
unfolding sort_ops
sort_newest c [] ys h k = insert_last c (sort_ops ys) (sort-Older c.version ys k)
sort_newest c (x ∷ xs) ys h k =
    ap (insert_op_sorted x) (sort_newest c xs ys h.1 k)
    ∙ insert_before_last x c (sort_ops (xs ++ ys)) h.0

replay-append :
    (text : Bytes) (l : List CommittedOp) (c : CommittedOp)
    → replay text (l ++ c ∷ []) ≡ apply_op (replay text l) c.op
unfolding replay
replay-append text [] c = refl
replay-append text (x ∷ l) c = replay-append (apply_op text x.op) l c

pub reconstruct-append :
    (l : List CommittedOp) (c : CommittedOp)
    → reconstruct (l ++ c ∷ []) ≡ apply_op (reconstruct l) c.op
unfolding reconstruct
reconstruct-append l c = replay-append [] l c

-- `x` is replayed before `y`: it has the lower version; of one version, the lower client; and of
-- one client, not the higher counter.
abbrev pub Precedes : CommittedOp → CommittedOp → Type 0
Precedes x y =
    (x.version < y.version)
    ⊎ ((x.version ≡ y.version) × (x.client_id < y.client_id))
    ⊎ ((x.version ≡ y.version) × (x.client_id ≡ y.client_id) × (x.client_seq ≤ y.client_seq))

abbrev pub InOrder : List CommittedOp → Type 0
InOrder [] = Unit
InOrder (x ∷ []) = Unit
InOrder (x ∷ y ∷ l) = Precedes x y × InOrder (y ∷ l)

before-Precedes : (x y : CommittedOp) → before x y ≡ true → Precedes x y
before-Precedes x y h =
    if_cases (λ (b : Bool). b ≡ true → Precedes x y) (not (x.version == y.version))
      (λ e k. inl (ground arith))
      (λ e.
        if_cases (λ (b : Bool). b ≡ true → Precedes x y) (not (x.client_id == y.client_id))
          (λ f k. inr (inl (ground arith))) (λ f k. inr (inr (ground arith))))
      h

not_before-Precedes : (x y : CommittedOp) → before y x ≡ false → Precedes x y
not_before-Precedes x y h =
    if_cases (λ (b : Bool). b ≡ false → Precedes x y) (not (y.version == x.version))
      (λ e k. inl (ground arith))
      (λ e.
        if_cases (λ (b : Bool). b ≡ false → Precedes x y) (not (y.client_id == x.client_id))
          (λ f k. inr (inl (ground arith))) (λ f k. inr (inr (ground arith))))
      h

insert-InOrder :
    (x : CommittedOp) (l : List CommittedOp) → InOrder l → InOrder (insert_op_sorted x l)
unfolding insert_op_sorted
insert-InOrder x [] h = tt
insert-InOrder x (y ∷ []) h =
    if_cases InOrder (before y x) (λ e. (before-Precedes y x e, tt))
      (λ e. (not_before-Precedes x y e, tt))
insert-InOrder x (y ∷ z ∷ l) h =
    if_cases InOrder (before y x)
      (λ e.
        let rest = insert-InOrder x (z ∷ l) h.1 in
        if_cases (λ (m : List CommittedOp). InOrder m → InOrder (y ∷ m)) (before z x)
          (λ f r. (h.0, r)) (λ f r. (before-Precedes y x e, r)) rest)
      (λ e. (not_before-Precedes x y e, h))

pub sort-InOrder : (l : List CommittedOp) → InOrder (sort_ops l)
unfolding sort_ops
sort-InOrder [] = tt
sort-InOrder (x ∷ l) = insert-InOrder x (sort_ops l) (sort-InOrder l)
