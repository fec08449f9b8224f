-- ===== src/DocOps/RoundTrip.antt =====
-- `deserialize` against `serialize`, with the wrap-around of `read_uint`.
use doom_draft.Base.{
  ℕ, zero, suc, ◌+◌, ◌/◌, ◌%◌, ◌<◌, ◌≡◌, refl, ◌∙◌, ap, Bool, true, false, [], ◌∷◌, ◌++◌,
  append-nil, word, arith,
}
use doom_draft.Decimal.{emit, emit-append, to_string, EndsNumber}
use doom_draft.DocOps.{Bytes, DocOp, insert_op, delete_op}
use doom_draft.DocOps.Serial.{ok, serialize, read_digits, skip_space, read_uint, deserialize}

read_digits-emit :
    (f n : ℕ) (got : Bool) (out : Bytes)
    → n < f
    → read_digits 0 got (emit f n out) ≡ read_digits (n % word) true out
unfolding read_digits emit
read_digits-emit zero n got out h = elim h [ ]
read_digits-emit (suc f) n got out h =
    ground (arith, read_digits-emit f (n / 10) got ((b'0' + n % 10) ∷ out))

read_digits_end :
    (v : ℕ) (got : Bool) (rest : Bytes) → EndsNumber rest → read_digits v got rest ≡ (v, got, rest)
unfolding read_digits
read_digits_end v got [] h = refl
read_digits_end v got (c ∷ s) h = ground arith

-- A printed number is read back modulo 2^64, whatever stands behind it.
pub read_uint-to_string :
    (n : ℕ) (rest : Bytes)
    → EndsNumber rest
    → read_uint (to_string n ++ rest) ≡ ok (n % word, skip_space rest)
unfolding read_uint to_string
read_uint-to_string n rest h = rw (
  emit-append (suc n) n [] rest,
  read_digits-emit (suc n) n false rest (omega arith),
  read_digits_end (n % word) true rest h,
)

abbrev pub IsWords : DocOp → Type 0
IsWords (insert_op pos text) = pos < word
IsWords (delete_op pos len) = (pos < word) × (len < word)

-- What 64-bit positions make of an operation.
abbrev pub narrow : DocOp → DocOp
narrow (insert_op pos text) = insert_op (pos % word) text
narrow (delete_op pos len) = delete_op (pos % word) (len % word)

narrow_words : (op : DocOp) → IsWords op → narrow op ≡ op
narrow_words (insert_op pos text) h = ground arith
narrow_words (delete_op pos len) h = ground arith

read_uint-to_string_end : (n : ℕ) → read_uint (to_string n) ≡ ok (n % word, [])
read_uint-to_string_end n = rw (append-nil (to_string n)) at (read_uint-to_string n [] tt)

-- An operation that is written out with numbers of any size is read back with each number reduced
-- modulo 2^64: `read_uint` wraps around and refuses nothing.
pub deserialize-serialize_any : (op : DocOp) → deserialize (serialize op) ≡ ok (narrow op)
unfolding deserialize serialize
deserialize-serialize_any (insert_op pos text) = rw (read_uint-to_string pos (b' ' ∷ text) refl)
deserialize-serialize_any (delete_op pos len) =
    rw (read_uint-to_string pos (b' ' ∷ to_string len) refl, read_uint-to_string_end len)

-- `deserialize` undoes `serialize`, for every text, if the numbers fit 64 bits.
pub deserialize-serialize : (op : DocOp) → IsWords op → deserialize (serialize op) ≡ ok op
deserialize-serialize op h = deserialize-serialize_any op ∙ ap ok (narrow_words op h)
