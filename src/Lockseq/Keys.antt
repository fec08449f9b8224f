-- ===== src/Lockseq/Keys.antt =====
-- The keys of a group are read back by the check.
use doom_draft.Base.{
  ℕ, zero, suc, ◌+◌, ◌/◌, ◌%◌, ◌<◌, ◌≤◌, ◌≡◌, refl, sym, ◌∙◌, ap, [], ◌∷◌, ◌++◌, append-nil, some,
  ltb, length, Bool-cases, inl, inr, arith,
}
use doom_draft.Keys.{bytes_ord}
use doom_draft.Decimal.{emit, to_string, emit-append}
use doom_draft.DocOps.{Bytes}
use doom_draft.Lockseq.{unsigned, three_digits, checked, digits_from, parse_digits, value_index}

-- The digits of a number are read from left to right.
digits_from-emit :
    (f n : ℕ) (out : Bytes)
    → n < f
    → n < unsigned
    → digits_from 0 (emit f n out) ≡ digits_from n out
unfolding digits_from emit
digits_from-emit zero n out h w = absurd (omega arith)
digits_from-emit (suc f) n out h w =
    ground (arith, digits_from-emit f (n / 10) ((b'0' + n % 10) ∷ out))

digits_from-to_string :
    (n : ℕ) (out : Bytes) → n < unsigned → digits_from 0 (to_string n ++ out) ≡ digits_from n out
unfolding to_string
digits_from-to_string n out w =
    rw (emit-append (suc n) n [] out) (digits_from-emit (suc n) n out (omega arith) w)

checked_small : (n : ℕ) → n + 1 < unsigned → checked n ≡ some n
checked_small n h = ground arith

emit_last : (f n : ℕ) (out : Bytes) → n < 10 → emit (suc f) n out ≡ (b'0' + n % 10) ∷ out
unfolding emit
emit_last f n out h = ground arith

emit_more :
    (f n : ℕ) (out : Bytes) → 10 ≤ n → emit (suc f) n out ≡ emit f (n / 10) ((b'0' + n % 10) ∷ out)
unfolding emit
emit_more f n out h = ground arith

-- A number below a hundred, or a thousand, has two or three digits.
length_two : (n : ℕ) → 10 ≤ n → n < 100 → length (to_string n) ≡ 2
unfolding to_string
length_two zero h l = absurd (omega arith)
length_two (suc m) h l =
    ap length (emit_more (suc m) (suc m) [] h)
    ∙ ap length (emit_last m (suc m / 10) ((b'0' + suc m % 10) ∷ []) (omega arith))

length_three : (n : ℕ) → 100 ≤ n → n < 1000 → length (to_string n) ≡ 3
unfolding to_string
length_three zero h l = absurd (omega arith)
length_three (suc zero) h l = absurd (omega arith)
length_three (suc (suc k)) h l =
    let d = (b'0' + suc (suc k) % 10) ∷ [] in
    let e = (b'0' + suc (suc k) / 10 % 10) ∷ d in
    ap length (emit_more (suc (suc k)) (suc (suc k)) [] (omega arith))
    ∙ ap length (emit_more (suc k) (suc (suc k) / 10) d (omega arith))
    ∙ ap length (emit_last k (suc (suc k) / 10 / 10) e (omega arith))

length_one : (n : ℕ) → n < 10 → length (to_string n) ≡ 1
unfolding to_string
length_one n l = ap length (emit_last n n [] l)

pub length-three_digits : (n : ℕ) → n < 1000 → length (three_digits n) ≡ 3
length-three_digits n h = elim (Bool-cases (ltb n 10)) [
  | inl e ↦ rw (e, length_one n (ground (arith, e)))
  | inr e ↦ elim (Bool-cases (ltb n 100)) [
    | inl f ↦ rw (e, f, length_two n (ground (arith, e)) (ground (arith, f)))
    | inr f ↦ rw (e, f, length_three n (ground (arith, f)) h)
  ]
]

pub digits_to_string : (n : ℕ) → n + 1 < unsigned → digits_from 0 (to_string n) ≡ some n
unfolding digits_from
digits_to_string n h =
    ap (digits_from 0) (sym (append-nil (to_string n)))
    ∙ digits_from-to_string n [] (omega (arith, h))
    ∙ checked_small n h

digits_three : (n : ℕ) → n < 1000 → digits_from 0 (three_digits n) ≡ some n
unfolding digits_from
digits_three n h = elim (Bool-cases (ltb n 10)) [
  | inl e ↦ rw e (digits_to_string n (omega (arith, h)))
  | inr e ↦ elim (Bool-cases (ltb n 100)) [
    | inl f ↦ rw (e, f) (digits_to_string n (omega (arith, h)))
    | inr f ↦ rw (e, f) (digits_to_string n (omega (arith, h)))
  ]
]

pub parse_nonempty : (s : Bytes) → 0 < length s → parse_digits s ≡ digits_from 0 s
unfolding parse_digits
parse_nonempty [] h = absurd (omega arith)
parse_nonempty (c ∷ s) h = refl

-- The index of a value key.
pub value_index-three_digits : (n : ℕ) → n < 1000 → value_index (b'v' ∷ three_digits n) ≡ some n
unfolding value_index
value_index-three_digits n h =
    let l = length-three_digits n h in
    rw (l, parse_nonempty (three_digits n) (omega (arith, l)), digits_three n h)
