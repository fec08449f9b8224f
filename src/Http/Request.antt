-- ===== src/Http/Request.antt =====
-- Reading a request: its first line, its headers and its route.
pub mod Parts
use doom_draft.Base.{
  ℕ, zero, suc, ◌+◌, ◌-◌, ◌%◌, Bool, true, false, ◌&&◌, ◌||◌, List, [], ◌∷◌, ◌++◌, Option, none,
  some, ◌==◌, ltb, leb, if◌then◌else◌, is_empty, length, word, codes,
}
use doom_draft.OrdMap.{same_key}
use doom_draft.Keys.{bytes_ord}
use doom_draft.Decimal.{is_digit, scan}
use doom_draft.DocOps.{Bytes}
use doom_draft.Http.Text.{strip_prefix, split_byte, split_on, valid_doc_id, ascii_lower}

pub record RequestLine : Type 0 where
  pub method : Bytes
  pub path : Bytes
  pub body_offset : ℕ

abbrev pub no_request : RequestLine
no_request = record { method = []; path = []; body_offset = 0 }

abbrev pub crlf : Bytes
crlf = b'\r' ∷ b'\n' ∷ []

abbrev pub blank_line : Bytes
blank_line = b'\r' ∷ b'\n' ∷ b'\r' ∷ b'\n' ∷ []

-- The two spaces of the first line, `head` being all that stands before the blank line.
abbrev pub from_line : Bytes → Option (Bytes × Bytes) → RequestLine
from_line head none = no_request
from_line head (some (method, s)) = elim (split_byte b' ' s) [
  | none ↦ no_request
  | some (path, version) ↦ record { method = method; path = path; body_offset = length head + 4 }
]

unfoldable pub parse_request_line : Bytes → RequestLine
unfolding split_on split_byte
parse_request_line buf = elim (split_on blank_line buf) [
  | none ↦ no_request
  | some (head, body) ↦ elim (split_on crlf buf) [
    | none ↦ no_request
    | some (line, s) ↦ from_line head (split_byte b' ' line)
  ]
]

unfoldable pub trim_start : Bytes → Bytes
trim_start [] = []
trim_start (c ∷ s) = let more = trim_start s in if c == b' ' then more else c ∷ s

unfoldable pub trim_end : Bytes → Bytes
trim_end [] = []
trim_end (c ∷ s) = let more = trim_end s in if c == b' ' && is_empty more then [] else c ∷ more

-- The value of a line if it is the header of that name, which is in lower case.
unfoldable pub header_value : Bytes → Bytes → Option Bytes
unfolding split_byte trim_start trim_end ascii_lower
header_value name line = elim (split_byte b':' line) [
  | none ↦ none
  | some (field, value) ↦
      if same_key (trim_end (ascii_lower field)) name
      then some (trim_end (trim_start value))
      else none
]

-- A last line has no end.
abbrev pub first_line : Bytes → Bytes × Bytes
first_line s = elim (split_on crlf s) [ none ↦ (s, []) | some p ↦ p ]

-- The loop of `find_header`, with fuel for a line for each byte.
unfoldable pub find_header_from : ℕ → Bytes → Bytes → Bytes
unfolding header_value split_on
find_header_from zero name head = []
find_header_from (suc fuel) name [] = []
find_header_from (suc fuel) name (c ∷ s) =
    let (line, rest) = first_line (c ∷ s) in
    let later = find_header_from fuel name rest in
    elim (header_value name line) [ none ↦ later | some value ↦ value ]

unfoldable pub find_header : Bytes → Bytes → Bytes
unfolding find_header_from ascii_lower
find_header head name = find_header_from (length head) (ascii_lower name) head

-- `std::stoul`, with none for its exceptions: white space, a sign, digits, and a value that fits.
abbrev pub is_space : ℕ → Bool
is_space c = c == b' ' || leb 9 c && leb c 13

unfoldable pub skip_space : Bytes → Bytes
skip_space [] = []
skip_space (c ∷ s) = let more = skip_space s in if is_space c then more else c ∷ s

unfoldable pub digits_of : Bytes → Option ℕ
digits_of [] = none
digits_of (c ∷ s) =
    let n = (scan 0 (c ∷ s)).0 in if is_digit c then (if ltb n word then some n else none) else none

abbrev pub negated : Option ℕ → Option ℕ
negated none = none
negated (some n) = some ((word - n) % word)

abbrev pub signed : Bytes → Option ℕ
signed [] = none
signed (c ∷ s) =
    if c == b'-'
    then negated (digits_of s)
    else if c == b'+'
    then digits_of s
    else digits_of (c ∷ s)

unfoldable pub stoul : Bytes → Option ℕ
unfolding skip_space digits_of
stoul s = signed (skip_space s)

-- The length that a request announces; 0 without a header that can be read.
unfoldable pub content_length : Bytes → ℕ
unfolding find_header stoul
content_length head = elim (stoul (find_header head (codes "content-length"))) [
  | none ↦ 0
  | some n ↦ n
]

abbrev pub doc_prefix : Bytes
doc_prefix = codes "/doc/"

unfoldable pub parse_doc_route : Bytes → Option (Bytes × Bytes)
unfolding split_byte valid_doc_id
parse_doc_route path = elim (strip_prefix doc_prefix path) [
  | none ↦ none
  | some rest ↦ elim (split_byte b'/' rest) [
    | none ↦ if valid_doc_id rest then some (rest, []) else none
    | some (doc, sub) ↦ if valid_doc_id doc then some (doc, sub) else none
  ]
]
