-- ===== src/DocOps/Inserts.antt =====
-- An insertion beside a concurrent insertion or deletion.
use doom_draft.Base.{
  ℕ, ◌+◌, ◌-◌, ◌≤◌, ◌<◌, ◌≡◌, true, false, [], length, get_elem?, get_elem?-ext, leb, dec_lt,
  dec_le, add64_exact, word, arith,
}
use doom_draft.DocOps.{Bytes, insert_op, delete_op, apply_op, transform}
use doom_draft.DocOps.Edits.{get_elem?-insert, get_elem?-delete, length-insert, length-delete}
use doom_draft.DocOps.Convergence.{Converges}

insert-insert_at :
    (xs : Bytes) (p : ℕ) (t : Bytes) (q : ℕ) (u : Bytes) (i : ℕ)
    → p ≤ length xs
    → q < p
    → get_elem? (apply_op (apply_op xs (insert_op p t)) (insert_op q u)) i
      ≡ get_elem? (apply_op (apply_op xs (insert_op q u)) (insert_op (p + length u) t)) i
insert-insert_at xs p t q u i h k =
    let outer = get_elem?-insert (apply_op xs (insert_op p t)) q u i in
    let outer' = get_elem?-insert (apply_op xs (insert_op q u)) (p + length u) t i in
    let inner = get_elem?-insert xs q u i in
    let l = length-insert xs p t in
    let l' = length-insert xs q u in
    elim (dec_lt i (q + length u)) [
      | yes before ↦ ground (arith, outer, outer', inner, l, l', get_elem?-insert xs p t i)
      | no after ↦ ground (
        arith,
        outer,
        outer',
        inner,
        l,
        l',
        get_elem?-insert xs p t (i - length u),
        get_elem?-insert xs q u (i - length t),
      )
    ]

insert-delete_before_at :
    (xs : Bytes) (p : ℕ) (t : Bytes) (q n i : ℕ)
    → p ≤ length xs
    → p ≤ q
    → get_elem? (apply_op (apply_op xs (insert_op p t)) (delete_op (q + length t) n)) i
      ≡ get_elem? (apply_op (apply_op xs (delete_op q n)) (insert_op p t)) i
insert-delete_before_at xs p t q n i h k = ground (
  arith,
  get_elem?-delete (apply_op xs (insert_op p t)) (q + length t) n i,
  get_elem?-insert xs p t i,
  get_elem?-insert xs p t (i + n),
  get_elem?-insert (apply_op xs (delete_op q n)) p t i,
  get_elem?-delete xs q n i,
  get_elem?-delete xs q n (i - length t),
  length-delete xs q n,
)

insert-delete_after_at :
    (xs : Bytes) (p : ℕ) (t : Bytes) (q n i : ℕ)
    → p ≤ length xs
    → q + n ≤ p
    → get_elem? (apply_op (apply_op xs (insert_op p t)) (delete_op q n)) i
      ≡ get_elem? (apply_op (apply_op xs (delete_op q n)) (insert_op (p - n) t)) i
insert-delete_after_at xs p t q n i h k = ground (
  arith,
  get_elem?-delete (apply_op xs (insert_op p t)) q n i,
  get_elem?-insert xs p t i,
  get_elem?-insert xs p t (i + n),
  get_elem?-insert (apply_op xs (delete_op q n)) (p - n) t i,
  get_elem?-delete xs q n i,
  get_elem?-delete xs q n (i - length t),
  length-delete xs q n,
)

insert-delete_inside_at :
    (xs : Bytes) (p : ℕ) (t : Bytes) (q n i : ℕ)
    → p ≤ length xs
    → q < p
    → p < q + n
    → get_elem? (apply_op (apply_op xs (insert_op p t)) (delete_op q (n + length t))) i
      ≡ get_elem? (apply_op xs (delete_op q n)) i
insert-delete_inside_at xs p t q n i h k l = ground (
  arith,
  get_elem?-delete (apply_op xs (insert_op p t)) q (n + length t) i,
  get_elem?-insert xs p t i,
  get_elem?-insert xs p t (i + (n + length t)),
  get_elem?-delete xs q n i,
)

insert-delete_inside_noop :
    (xs : Bytes) (p : ℕ) (t : Bytes) (q n i : ℕ)
    → p ≤ length xs
    → q < p
    → p < q + n
    → get_elem? (apply_op (apply_op xs (insert_op p t)) (delete_op q (n + length t))) i
      ≡ get_elem? (apply_op (apply_op xs (delete_op q n)) (insert_op 0 [])) i
insert-delete_inside_noop xs p t q n i h k l = ground (
  arith,
  insert-delete_inside_at xs p t q n i h k l,
  get_elem?-insert (apply_op xs (delete_op q n)) 0 [] i,
)

-- What `transform` makes of an insertion before, behind and inside a deletion.
module _ (p : ℕ) (t : Bytes) (q n : ℕ) (v : p < word) (w : q + n + length t < word) where
  insert-delete_before :
      p ≤ q
      → p < q + n
      → (transform (delete_op q n) (insert_op p t) ≡ delete_op (q + length t) n)
        × (transform (insert_op p t) (delete_op q n) ≡ insert_op p t)
  unfolding transform
  insert-delete_before a b = (ground arith, ground arith)

  insert-delete_after :
      q + n ≤ p
      → (transform (delete_op q n) (insert_op p t) ≡ delete_op q n)
        × (transform (insert_op p t) (delete_op q n) ≡ insert_op (p - n) t)
  unfolding transform
  insert-delete_after a = (ground arith, ground arith)

  insert-delete_inside :
      q < p
      → p < q + n
      → (transform (delete_op q n) (insert_op p t) ≡ delete_op q (n + length t))
        × (transform (insert_op p t) (delete_op q n) ≡ insert_op 0 [])
  unfolding transform
  insert-delete_inside a b = (ground arith, ground arith)

pub insert-insert :
    (xs : Bytes) (p : ℕ) (t : Bytes) (q : ℕ) (u : Bytes)
    → p ≤ length xs
    → q < p
    → p + length u < word
    → Converges xs (insert_op p t) (insert_op q u)
unfolding transform
insert-insert xs p t q u h k w =
    let e : leb p q ≡ false = ground arith in
    let e' : leb q p ≡ true = ground arith in
    rw (e, e', add64_exact p (length u) w)
      (get_elem?-ext _ _ λ i. insert-insert_at xs p t q u i h k)

pub insert-delete :
    (xs : Bytes) (p : ℕ) (t : Bytes) (q n : ℕ)
    → p ≤ length xs
    → p < word
    → q + n + length t < word
    → Converges xs (insert_op p t) (delete_op q n)
insert-delete xs p t q n h v w = elim (dec_le (q + n) p) [
  | yes a ↦
      let (e, f) = insert-delete_after p t q n v w a in
      rw (e, f) (get_elem?-ext _ _ λ i. insert-delete_after_at xs p t q n i h a)
  | no a ↦ elim (dec_le p q) [
    | yes b ↦
        let (e, f) = insert-delete_before p t q n v w b (omega arith) in
        rw (e, f) (get_elem?-ext _ _ λ i. insert-delete_before_at xs p t q n i h b)
    | no b ↦
        let (e, f) = insert-delete_inside p t q n v w (omega arith) (omega arith) in
        rw (e, f)
          (get_elem?-ext _ _
            λ i. insert-delete_inside_noop xs p t q n i h (omega arith) (omega arith))
  ]
]
