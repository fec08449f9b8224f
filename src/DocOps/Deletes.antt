-- ===== src/DocOps/Deletes.antt =====
-- Two concurrent deletions.
use doom_draft.Base.{
  ℕ, ◌+◌, ◌-◌, ◌≤◌, ◌<◌, ◌≡◌, ◌∙◌, ap, sym, ◌&&◌, get_elem?, get_elem?-ext, ltb, leb, if◌then◌else◌,
  dec_le, word, arith,
}
use doom_draft.DocOps.{Bytes, delete_op, apply_op, transform, transform_delete}
use doom_draft.DocOps.Edits.{get_elem?-delete}
use doom_draft.DocOps.Convergence.{Converges}

-- Two deletions in a row, byte by byte.
get_elem?-delete_twice :
    (xs : Bytes) (p n q m i : ℕ)
    → get_elem? (apply_op (apply_op xs (delete_op p n)) (delete_op q m)) i
      ≡ get_elem? xs (
          if ltb i q
          then (if ltb i p then i else i + n)
          else (if ltb (i + m) p then i + m else i + m + n))
get_elem?-delete_twice xs p n q m i = ground (
  arith,
  get_elem?-delete (apply_op xs (delete_op p n)) q m i,
  get_elem?-delete xs p n i,
  get_elem?-delete xs p n (i + m),
)

-- Where the byte at `i` after both deletions stood before them.
abbrev origin : ℕ → ℕ → ℕ → ℕ → ℕ → ℕ
origin p n q m i =
    if ltb i q then (if ltb i p then i else i + n) else (if ltb (i + m) p then i + m else i + m + n)

-- `transform_delete` over plain numbers, as a position and a length.
abbrev shift_pos : ℕ → ℕ → ℕ → ℕ → ℕ
shift_pos pa la pb lb =
    if leb (pa + la) pb
    then pa
    else if leb (pb + lb) pa
    then pa - lb
    else if leb pb pa && leb (pa + la) (pb + lb)
    then 0
    else if leb pa pb && leb (pb + lb) (pa + la)
    then pa
    else if ltb pa pb
    then pa
    else pb

abbrev shift_len : ℕ → ℕ → ℕ → ℕ → ℕ
shift_len pa la pb lb =
    if leb (pa + la) pb
    then la
    else if leb (pb + lb) pa
    then la
    else if leb pb pa && leb (pa + la) (pb + lb)
    then 0
    else if leb pa pb && leb (pb + lb) (pa + la)
    then la - lb
    else if ltb pa pb
    then pb - pa
    else pa + la - pb - lb

transform_delete-exact :
    (pa la pb lb : ℕ)
    → pa + la < word
    → pb + lb < word
    → transform_delete pa la pb lb ≡ delete_op (shift_pos pa la pb lb) (shift_len pa la pb lb)
unfolding transform_delete
transform_delete-exact pa la pb lb h k = ground arith

-- The two sides of disjoint deletions.
shift_before :
    (p n q m : ℕ)
    → p + n ≤ q
    → (shift_pos p n q m ≡ p)
      × (shift_len p n q m ≡ n)
      × (shift_pos q m p n ≡ q - n)
      × (shift_len q m p n ≡ m)
shift_before p n q m h = (ground arith, ground arith, ground arith, ground arith)

origin_before : (p n q m i : ℕ) → p + n ≤ q → origin p n (q - n) m i ≡ origin q m p n i
origin_before p n q m i h = ground arith

origin_nested : (p n q m i : ℕ) → p ≤ q → q + m ≤ p + n → origin p n 0 0 i ≡ origin q m p (n - m) i
origin_nested p n q m i h k = ground arith

origin_staggered :
    (p n q m i : ℕ)
    → p ≤ q
    → q < p + n
    → p + n ≤ q + m
    → origin p n p (q + m - p - n) i ≡ origin q m p (q - p) i
origin_staggered p n q m i h k l = ground arith

-- Two overlapping deletions, the first of which starts no later.
origin_within :
    (p n q m i : ℕ)
    → p ≤ q
    → q < p + n
    → q + m ≤ p + n
    → origin p n (shift_pos q m p n) (shift_len q m p n) i
      ≡ origin q m (shift_pos p n q m) (shift_len p n q m) i
origin_within p n q m i h k l = elim (dec_le q p) [
  | yes a ↦ elim (dec_le (p + n) (q + m)) [ yes b ↦ ground arith | no b ↦ ground arith ]
  | no a ↦
      let e : shift_pos p n q m ≡ p = ground arith in
      let f : shift_len p n q m ≡ n - m = ground arith in
      let g : shift_pos q m p n ≡ 0 = ground arith in
      let j : shift_len q m p n ≡ 0 = ground arith in rw (e, f, g, j) (origin_nested p n q m i h l)
]

origin_overlap :
    (p n q m i : ℕ)
    → p ≤ q
    → q < p + n
    → origin p n (shift_pos q m p n) (shift_len q m p n) i
      ≡ origin q m (shift_pos p n q m) (shift_len p n q m) i
origin_overlap p n q m i h k = elim (dec_le (q + m) (p + n)) [
  | yes a ↦ origin_within p n q m i h k a
  | no a ↦ elim (dec_le q p) [
    | yes b ↦ ground arith
    | no b ↦
        let e : shift_pos p n q m ≡ p = ground arith in
        let f : shift_len p n q m ≡ q - p = ground arith in
        let g : shift_pos q m p n ≡ p = ground arith in
        let j : shift_len q m p n ≡ q + m - p - n = ground arith in
        rw (e, f, g, j) (origin_staggered p n q m i h k (omega arith))
  ]
]

origin-shift :
    (p n q m i : ℕ)
    → origin p n (shift_pos q m p n) (shift_len q m p n) i
      ≡ origin q m (shift_pos p n q m) (shift_len p n q m) i
origin-shift p n q m i = elim (dec_le (p + n) q) [
  | yes a ↦ let (e, f, g, h) = shift_before p n q m a in rw (e, f, g, h) (origin_before p n q m i a)
  | no a ↦ elim (dec_le (q + m) p) [
    | yes b ↦
        let (e, f, g, h) = shift_before q m p n b in
        rw (e, f, g, h) (sym (origin_before q m p n i b))
    | no b ↦ elim (dec_le p q) [
      | yes c ↦ origin_overlap p n q m i c (omega arith)
      | no c ↦ sym (origin_overlap q m p n i (omega arith) (omega arith))
    ]
  ]
]

pub delete-delete :
    (xs : Bytes) (p n q m : ℕ)
    → p + n < word
    → q + m < word
    → Converges xs (delete_op p n) (delete_op q m)
unfolding transform
delete-delete xs p n q m h k =
    rw (transform_delete-exact p n q m h k, transform_delete-exact q m p n k h)
      (get_elem?-ext _ _ λ i.
        get_elem?-delete_twice xs p n _ _ i
        ∙ ap (get_elem? xs) (origin-shift p n q m i)
        ∙ sym (get_elem?-delete_twice xs q m _ _ i))
