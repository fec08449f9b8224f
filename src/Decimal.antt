-- ===== src/Decimal.antt =====
-- Decimal numbers as bytes: `std::to_string`, `std::format("{}")` and `std::from_chars` of an
-- unsigned 64-bit number, which pset4/doc_ops.cc and pset4/doc_state.cc call.
use doom_draft.Base.{
  ℕ, zero, suc, ◌+◌, ◌-◌, ◌*◌, ◌/◌, ◌%◌, ◌<◌, ◌≡◌, refl, Bool, true, false, ◌&&◌, List, [], ◌∷◌,
  ◌++◌, Option, none, some, ltb, leb, if◌then◌else◌, word, arith,
}

abbrev pub is_digit : ℕ → Bool
is_digit c = leb b'0' c && leb c b'9'

-- The digits of `n` before `out`, most significant first; `fuel` bounds the number of digits.
unfoldable pub emit : ℕ → ℕ → List ℕ → List ℕ
emit zero n out = out
emit (suc fuel) n out =
    let more = emit fuel (n / 10) ((b'0' + n % 10) ∷ out) in
    if ltb n 10 then (b'0' + n % 10) ∷ out else more

unfoldable pub to_string : ℕ → List ℕ
unfolding emit
to_string n = emit (suc n) n []

pub emit-append : (f n : ℕ) (out rest : List ℕ) → emit f n out ++ rest ≡ emit f n (out ++ rest)
unfolding emit
emit-append zero n out rest = refl
emit-append (suc f) n out rest = ground (arith, emit-append f (n / 10) ((b'0' + n % 10) ∷ out) rest)

-- The first byte is a digit.
abbrev pub StartsDigit : List ℕ → Type 0
StartsDigit [] = ⊥
StartsDigit (c ∷ s) = is_digit c ≡ true

pub emit-StartsDigit : (f n : ℕ) (out : List ℕ) → n < f → StartsDigit (emit f n out)
unfolding emit
emit-StartsDigit zero n out h = elim h [ ]
emit-StartsDigit (suc f) n out h =
    ground (arith, emit-StartsDigit f (n / 10) ((b'0' + n % 10) ∷ out))

pub to_string-StartsDigit : (n : ℕ) (rest : List ℕ) → StartsDigit (to_string n ++ rest)
unfolding to_string
to_string-StartsDigit n rest =
    rw (emit-append (suc n) n [] rest) (emit-StartsDigit (suc n) n rest (omega arith))

-- The longest run of digits, its value with no bound, and what follows.
pub scan : ℕ → List ℕ → ℕ × List ℕ
scan v [] = (v, [])
scan v (c ∷ s) = let more = scan (v * 10 + (c - b'0')) s in if is_digit c then more else (v, c ∷ s)

-- `from_chars` into a uint64: none if no digit stands in front or the value does not fit.
unfoldable pub from_chars : List ℕ → Option (ℕ × List ℕ)
unfolding scan
from_chars [] = none
from_chars (c ∷ s) =
    if is_digit c
    then (let (v, rest) = scan 0 (c ∷ s) in if ltb v word then some (v, rest) else none)
    else none

-- No byte of it is a digit in front.
abbrev pub EndsNumber : List ℕ → Type 0
EndsNumber [] = Unit
EndsNumber (c ∷ s) = is_digit c ≡ false

scan-emit : (f n : ℕ) (out : List ℕ) → n < f → scan 0 (emit f n out) ≡ scan n out
unfolding scan emit
scan-emit zero n out h = elim h [ ]
scan-emit (suc f) n out h = ground (arith, scan-emit f (n / 10) ((b'0' + n % 10) ∷ out))

scan_end : (v : ℕ) (rest : List ℕ) → EndsNumber rest → scan v rest ≡ (v, rest)
unfolding scan
scan_end v [] h = refl
scan_end v (c ∷ s) h = ground arith

pub scan-to_string :
    (n : ℕ) (rest : List ℕ) → EndsNumber rest → scan 0 (to_string n ++ rest) ≡ (n, rest)
unfolding to_string
scan-to_string n rest e =
    rw (emit-append (suc n) n [] rest, scan-emit (suc n) n rest (omega arith)) (scan_end n rest e)

from_chars_step :
    (s : List ℕ) {v : ℕ} {rest : List ℕ}
    → StartsDigit s
    → scan 0 s ≡ (v, rest)
    → v < word
    → from_chars s ≡ some (v, rest)
unfolding from_chars
from_chars_step [] h e l = absurd h
from_chars_step (c ∷ s) h e l = ground arith

pub from_chars-to_string :
    (n : ℕ) (rest : List ℕ)
    → n < word
    → EndsNumber rest
    → from_chars (to_string n ++ rest) ≡ some (n, rest)
from_chars-to_string n rest h e =
    from_chars_step _ (to_string-StartsDigit n rest) (scan-to_string n rest e) h
