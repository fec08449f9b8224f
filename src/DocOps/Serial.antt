-- ===== src/DocOps/Serial.antt =====
-- `serialize` and `deserialize` of pset4/doc_ops.cc, the form in which operations are stored.
use doom_draft.Base.{
  ℕ, ◌+◌, ◌-◌, ◌*◌, ◌%◌, Bool, true, false, [], ◌∷◌, ◌++◌, ◌==◌, if◌then◌else◌, word,
}
use doom_draft.Decimal.{is_digit, to_string}
use doom_draft.DocOps.{Bytes, DocOp, insert_op, delete_op}

-- What `std::invalid_argument` is thrown with.
pub data SerialError : Type 0 where
  too_short expected_integer : SerialError
  unknown_op : ℕ → SerialError

pub data Result {ℓ} (A : Type ℓ) : Type ℓ where
  ok : A → Result A
  err : SerialError → Result A

infixl 5 ◌>>=◌
abbrev pub ◌>>=◌ {ℓ κ} : {A : Type ℓ} {B : Type κ} → Result A → (A → Result B) → Result B
ok a >>= f = f a
err e >>= f = err e

unfoldable pub serialize : DocOp → Bytes
serialize (insert_op pos text) = b'I' ∷ b' ' ∷ (to_string pos ++ b' ' ∷ text)
serialize (delete_op pos len) = b'D' ∷ b' ' ∷ (to_string pos ++ b' ' ∷ to_string len)

-- The loop of `read_uint`: `v` and `got`, and what is left of the view.
unfoldable pub read_digits : ℕ → Bool → Bytes → ℕ × Bool × Bytes
read_digits v got [] = (v, got, [])
read_digits v got (c ∷ s) =
    let more = read_digits ((v * 10 + (c - b'0')) % word) true s in
    if is_digit c then more else (v, got, c ∷ s)

-- One space behind the number is skipped.
abbrev pub skip_space : Bytes → Bytes
skip_space [] = []
skip_space (c ∷ s) = if c == b' ' then s else c ∷ s

abbrev pub finish_uint : ℕ × Bool × Bytes → Result (ℕ × Bytes)
finish_uint (v, true, rest) = ok (v, skip_space rest)
finish_uint (v, false, rest) = err expected_integer

unfoldable pub read_uint : Bytes → Result (ℕ × Bytes)
unfolding read_digits
read_uint s = finish_uint (read_digits 0 false s)

-- By the type byte; the byte behind it is dropped unread.
abbrev pub parse_op : ℕ → Bytes → Result DocOp
parse_op type s =
    if type == b'I'
    then (do (pos, rest) ← read_uint s; ok (insert_op pos rest))
    else if type == b'D'
    then (do (pos, rest) ← read_uint s; (len, rest') ← read_uint rest; ok (delete_op pos len))
    else err (unknown_op type)

unfoldable pub deserialize : Bytes → Result DocOp
deserialize [] = err too_short
deserialize (type ∷ []) = err too_short
deserialize (type ∷ sep ∷ s) = parse_op type s
