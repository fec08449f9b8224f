-- ===== src/DocState/Keying.antt =====
-- The key of an operation is read back.
use doom_draft.Base.{
  ℕ, zero, suc, ◌+◌, ◌/◌, ◌%◌, ◌<◌, ◌≡◌, refl, ap, sym, true, false, ◌||◌, [], ◌∷◌, ◌++◌,
  append-nil, append_assoc, none, some, ◌==◌, leb, take, drop, length, length-append, word, arith,
}
use doom_draft.OrdMap.{same_key}
use doom_draft.Keys.{bytes_ord, compare_bytes_iff}
use doom_draft.Decimal.{
  to_string, is_digit, from_chars, from_chars-to_string, to_string-StartsDigit, StartsDigit, emit,
}
use doom_draft.DocOps.{Bytes, DocOp}
use doom_draft.DocOps.Serial.{serialize, deserialize}
use doom_draft.DocOps.RoundTrip.{IsWords, deserialize-serialize}
use doom_draft.Db.{Vv}
use doom_draft.DocState.{
  op_key, doc_op_prefix, find_slash, parse_op_suffix, read_entry, committed, no_slash,
}

-- Text of digits only.
abbrev pub Digits : Bytes → Type 0
Digits [] = Unit
Digits (c ∷ s) = (is_digit c ≡ true) × Digits s

emit-Digits : (f n : ℕ) (out : Bytes) → Digits out → Digits (emit f n out)
unfolding emit
emit-Digits zero n out h = h
emit-Digits (suc f) n out h = ground (arith, emit-Digits f (n / 10) ((b'0' + n % 10) ∷ out))

pub to_string-Digits : (n : ℕ) → Digits (to_string n)
unfolding to_string
to_string-Digits n = emit-Digits (suc n) n [] tt

find_slash-Digits : (s rest : Bytes) → Digits s → find_slash (s ++ b'/' ∷ rest) ≡ some (length s)
unfolding find_slash
find_slash-Digits [] rest h = refl
find_slash-Digits (c ∷ s) rest h = ground (arith, find_slash-Digits s rest h.1)

find_slash-none : (s : Bytes) → Digits s → find_slash s ≡ none
unfolding find_slash
find_slash-none [] h = refl
find_slash-none (c ∷ s) h = ground (arith, find_slash-none s h.1)

take_append : (s t : Bytes) → take (length s) (s ++ t) ≡ s
take_append [] t = refl
take_append (c ∷ s) t = ap (λ l. c ∷ l) (take_append s t)

pub drop_append : (s t : Bytes) → drop (length s) (s ++ t) ≡ t
drop_append [] t = refl
drop_append (c ∷ s) t = drop_append s t

from_chars-to_string_end : (n : ℕ) → n < word → from_chars (to_string n) ≡ some (n, [])
from_chars-to_string_end n h = rw (append-nil (to_string n)) at (from_chars-to_string n [] h tt)

drop_suc_append : (s t : Bytes) (c : ℕ) → drop (length s + 1) (s ++ c ∷ t) ≡ t
drop_suc_append [] t c = refl
drop_suc_append (d ∷ s) t c =
    let e : length (d ∷ s) + 1 ≡ suc (length s + 1) = omega arith in rw e (drop_suc_append s t c)

StartsDigit-pos : (s : Bytes) → StartsDigit s → 0 < length s
StartsDigit-pos [] h = absurd h
StartsDigit-pos (c ∷ s) h = omega arith

no_slash-to_string : (n : ℕ) → no_slash (to_string n) ≡ true
unfolding no_slash
no_slash-to_string n = rw (find_slash-none (to_string n) (to_string-Digits n), no_slash)

pub length-to_string_pos : (n : ℕ) → 0 < length (to_string n)
length-to_string_pos n =
    StartsDigit-pos (to_string n) (rw (append-nil (to_string n)) at (to_string-StartsDigit n []))

-- The numbers in a key are read back.
pub parse_op_suffix-to_string :
    (cid seq : ℕ)
    → cid < word
    → seq < word
    → parse_op_suffix (to_string cid ++ b'/' ∷ to_string seq) ≡ some (cid, seq)
unfolding parse_op_suffix
parse_op_suffix-to_string cid seq h k =
    let a = to_string cid in
    let b = to_string seq in
    let within : (length a == 0 || leb (length (a ++ b'/' ∷ b)) (length a + 1)) ≡ false =
      ground
        (arith, length-to_string_pos cid, length-to_string_pos seq, length-append a (b'/' ∷ b)) in
    rw (find_slash-Digits a b (to_string-Digits cid), parse_op_suffix, within)
      (simp (
        drop_suc_append a b,
        take_append a (b'/' ∷ b),
        no_slash-to_string seq,
        from_chars-to_string_end cid h,
        from_chars-to_string_end seq k,
      ))

op_key-prefix :
    (doc : Bytes) (cid seq : ℕ)
    → op_key doc cid seq ≡ doc_op_prefix doc ++ (to_string cid ++ b'/' ∷ to_string seq)
unfolding op_key doc_op_prefix
op_key-prefix doc cid seq = ap (λ l. b'd' ∷ b'o' ∷ b'c' ∷ b'/' ∷ l) (sym (append_assoc doc _ _))

read_entry_prefix :
    (doc suffix : Bytes) (cell : Vv)
    → 0 < length suffix
    → read_entry doc (doc_op_prefix doc ++ suffix) cell
      ≡ committed cell (parse_op_suffix suffix) (deserialize cell.value)
unfolding read_entry
read_entry_prefix doc suffix cell h =
    let p = doc_op_prefix doc in
    let longer : leb (length (p ++ suffix)) (length p) ≡ false =
      ground (arith, length-append p suffix) in
    let same : same_key p p ≡ true = ground (arith, compare_bytes_iff p p) in
    rw (longer, take_append p suffix, drop_append p suffix, same)

-- The entry that stores an operation is read back as that operation, with its version and the
-- numbers of its key.
pub read_entry-op_key :
    (doc : Bytes) (cid seq : ℕ) (op : DocOp) (version : ℕ)
    → cid < word
    → seq < word
    → IsWords op
    → 0 < version
    → read_entry doc (op_key doc cid seq) (record { value = serialize op; version = version })
      ≡ some (record {
        version = version;
        client_id = cid;
        client_seq = seq;
        op = op;
        client_id_label = [];
      })
read_entry-op_key doc cid seq op version h k w v =
    let suffix = to_string cid ++ b'/' ∷ to_string seq in
    let longer : 0 < length suffix =
      omega (arith, length-append (to_string cid) (b'/' ∷ to_string seq)) in
    let new : (version == 0) ≡ false = ground arith in
    rw (
      op_key-prefix doc cid seq,
      read_entry_prefix doc suffix _ longer,
      parse_op_suffix-to_string cid seq h k,
      deserialize-serialize op w,
      new,
    )
