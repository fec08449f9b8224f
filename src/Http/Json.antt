-- ===== src/Http/Json.antt =====
-- The flat JSON that pset4/http_server.cc reads and writes.
pub mod Reread
use doom_draft.Base.{
  ℕ, zero, suc, ◌+◌, ◌-◌, ◌*◌, ◌/◌, ◌%◌, Bool, true, false, ◌&&◌, ◌||◌, List, [], ◌∷◌, ◌++◌, Option,
  none, some, ◌==◌, ltb, leb, if◌then◌else◌, codes,
}
use doom_draft.Decimal.{is_digit, scan}
use doom_draft.DocOps.{Bytes}
use doom_draft.Msgs.{ℤ, pos, negsuc}
use doom_draft.Http.Text.{strip_prefix, split_byte, split_on, behind}

infixl 5 ◌>>=◌
abbrev pub ◌>>=◌ {ℓ κ} : {A : Type ℓ} {B : Type κ} → Option A → (A → Option B) → Option B
none >>= f = none
some a >>= f = f a

abbrev pub quoted : Bytes → Bytes
quoted key = b'"' ∷ (key ++ b'"' ∷ [])

-- Behind the colon that follows the first `"key"`.
unfoldable pub value_of : Bytes → Bytes → Option Bytes
unfolding split_on split_byte
value_of body key = do s ← behind (split_on (quoted key) body); behind (split_byte b':' s)

abbrev pub unescape : ℕ → ℕ
unescape n = if n == b'n' then b'\n' else if n == b't' then b'\t' else n

abbrev pub push_byte : ℕ → Option Bytes → Option Bytes
push_byte c none = none
push_byte c (some out) = some (c ∷ out)

-- The loop of `json_get_string`, up to the closing quote.
unfoldable pub read_string : Bytes → Option Bytes
read_string [] = none
read_string (c ∷ []) = if c == b'"' then some [] else none
read_string (c ∷ n ∷ s) =
    let escaped = push_byte (unescape n) (read_string s) in
    let plain = push_byte c (read_string (n ∷ s)) in
    if c == b'\\' then escaped else if c == b'"' then some [] else plain

unfoldable pub json_get_string : Bytes → Bytes → Option Bytes
unfolding value_of read_string
json_get_string body key = do
  s ← value_of body key
  text ← behind (split_byte b'"' s)
  read_string text

unfoldable pub skip_blanks : Bytes → Bytes
skip_blanks [] = []
skip_blanks (c ∷ s) = let more = skip_blanks s in if c == b' ' || c == b'\t' then more else c ∷ s

-- `int64_t`; a number out of its range is undefined in the source, and unbounded here.
abbrev pub negate : ℕ → ℤ
negate zero = pos 0
negate (suc n) = negsuc n

unfoldable pub read_number : Bytes → Option ℕ
read_number [] = none
read_number (c ∷ s) = if is_digit c then some (scan 0 (c ∷ s)).0 else none

abbrev pub as_pos : Option ℕ → Option ℤ
as_pos none = none
as_pos (some n) = some (pos n)

abbrev pub as_neg : Option ℕ → Option ℤ
as_neg none = none
as_neg (some n) = some (negate n)

unfoldable pub read_signed : Bytes → Option ℤ
unfolding read_number
read_signed [] = none
read_signed (c ∷ s) =
    if c == b'-'
    then as_neg (read_number s)
    else if c == b'+'
    then as_pos (read_number s)
    else as_pos (read_number (c ∷ s))

unfoldable pub json_get_int : Bytes → Bytes → Option ℤ
unfolding value_of skip_blanks read_signed
json_get_int body key = do s ← value_of body key; read_signed (skip_blanks s)

abbrev pub hex_digit : ℕ → ℕ
hex_digit d = if ltb d 10 then b'0' + d else b'a' + (d - 10)

-- `{:04x}` of a byte.
abbrev pub hex4 : ℕ → Bytes
hex4 c = b'0' ∷ b'0' ∷ hex_digit (c / 16) ∷ hex_digit (c % 16) ∷ []

unfoldable pub escape_byte : ℕ → Bytes
escape_byte c =
    if c == b'"'
    then b'\\' ∷ b'"' ∷ []
    else if c == b'\\'
    then b'\\' ∷ b'\\' ∷ []
    else if c == b'\n'
    then b'\\' ∷ b'n' ∷ []
    else if c == b'\r'
    then b'\\' ∷ b'r' ∷ []
    else if c == b'\t'
    then b'\\' ∷ b't' ∷ []
    else if c == b'{'
    then b'\\' ∷ b'u' ∷ hex4 c
    else if c == b'}'
    then b'\\' ∷ b'u' ∷ hex4 c
    else if ltb c 32
    then b'\\' ∷ b'u' ∷ hex4 c
    else c ∷ []

unfoldable pub json_escape : Bytes → Bytes
unfolding escape_byte
json_escape [] = []
json_escape (c ∷ s) = escape_byte c ++ json_escape s
