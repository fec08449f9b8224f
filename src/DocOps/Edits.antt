-- ===== src/DocOps/Edits.antt =====
-- `apply_op`, read byte by byte.
use doom_draft.Base.{
  ℕ, ◌+◌, ◌-◌, ◌≤◌, min, ◌≡◌, [], ◌∷◌, ◌++◌, length, get_elem?, take, drop, ltb, if◌then◌else◌,
  get_elem?-append, get_elem?-take, get_elem?-drop, get_elem?_beyond, length-append, length-take,
  length-drop, arith,
}
use doom_draft.DocOps.{Bytes, insert_op, delete_op, insert_at, erase_at, apply_op}

get_elem?-insert_at :
    (xs : Bytes) (p : ℕ) (t : Bytes) (i : ℕ)
    → p ≤ length xs
    → get_elem? (insert_at xs p t) i ≡ (
        if ltb i p
        then get_elem? xs i
        else if ltb i (p + length t)
        then get_elem? t (i - p)
        else get_elem? xs (i - length t))
get_elem?-insert_at xs p t i h = ground (
  arith,
  get_elem?-append (take p xs) (t ++ drop p xs) i,
  get_elem?-append t (drop p xs) (i - p),
  length-take p xs,
  get_elem?-take p xs i,
  get_elem?-drop p xs (i - p - length t),
)

get_elem?-erase_at :
    (xs : Bytes) (p n i : ℕ)
    → p ≤ length xs
    → get_elem? (erase_at xs p n) i ≡ (if ltb i p then get_elem? xs i else get_elem? xs (i + n))
get_elem?-erase_at xs p n i h = ground (
  arith,
  get_elem?-append (take p xs) (drop (p + n) xs) i,
  length-take p xs,
  get_elem?-take p xs i,
  get_elem?-drop (p + n) xs (i - p),
)

-- An insertion within the text, whatever it inserts.
pub get_elem?-insert :
    (xs : Bytes) (p : ℕ) (t : Bytes) (i : ℕ)
    → p ≤ length xs
    → get_elem? (apply_op xs (insert_op p t)) i ≡ (
        if ltb i p
        then get_elem? xs i
        else if ltb i (p + length t)
        then get_elem? t (i - p)
        else get_elem? xs (i - length t))
unfolding apply_op
get_elem?-insert xs p [] i h = ground arith
get_elem?-insert xs p (c ∷ t) i h =
    let e : min p (length xs) ≡ p = omega arith in rw e (get_elem?-insert_at xs p (c ∷ t) i h)

-- A deletion anywhere, with the clamping of the source.
pub get_elem?-delete :
    (xs : Bytes) (p n i : ℕ)
    → get_elem? (apply_op xs (delete_op p n)) i
      ≡ (if ltb i p then get_elem? xs i else get_elem? xs (i + n))
unfolding apply_op
get_elem?-delete xs p n i =
    let p' = min p (length xs) in
    let n' = min n (length xs - p') in
    ground (
      arith,
      get_elem?-erase_at xs p' n' i,
      get_elem?_beyond xs i,
      get_elem?_beyond xs (i + n),
      get_elem?_beyond xs (i + n'),
    )

pub length-insert :
    (xs : Bytes) (p : ℕ) (t : Bytes) → length (apply_op xs (insert_op p t)) ≡ length xs + length t
unfolding apply_op
length-insert xs p [] = omega arith
length-insert xs p (c ∷ t) =
    let p' = min p (length xs) in
    omega (
      arith,
      length-append (take p' xs) ((c ∷ t) ++ drop p' xs),
      length-append (c ∷ t) (drop p' xs),
      length-take p' xs,
      length-drop p' xs,
    )

pub length-delete :
    (xs : Bytes) (p n : ℕ)
    → length (apply_op xs (delete_op p n)) ≡ length xs - min n (length xs - min p (length xs))
unfolding apply_op
length-delete xs p n =
    let p' = min p (length xs) in
    let n' = min n (length xs - p') in
    ground (
      arith,
      length-append (take p' xs) (drop (p' + n') xs),
      length-take p' xs,
      length-drop (p' + n') xs,
    )
