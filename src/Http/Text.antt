-- ===== src/Http/Text.antt =====
-- The searches of `std::string_view` that pset4/http_server.cc makes, with positions as the text
-- before and behind them; and `valid_doc_id` and `ascii_lower`.
use doom_draft.Base.{
  ℕ, ◌+◌, Bool, true, false, ◌&&◌, ◌||◌, [], ◌∷◌, Option, none, some, ◌==◌, leb, if◌then◌else◌,
}
use doom_draft.Decimal.{is_digit}
use doom_draft.DocOps.{Bytes}

-- `starts_with`, with the text behind the prefix.
abbrev pub strip_prefix : Bytes → Bytes → Option Bytes
strip_prefix [] s = some s
strip_prefix (p ∷ prefix) [] = none
strip_prefix (p ∷ prefix) (c ∷ s) = if p == c then strip_prefix prefix s else none

abbrev pub push_before : ℕ → Option (Bytes × Bytes) → Option (Bytes × Bytes)
push_before c none = none
push_before c (some (before, behind)) = some (c ∷ before, behind)

-- `find` of a byte.
unfoldable pub split_byte : ℕ → Bytes → Option (Bytes × Bytes)
split_byte b [] = none
split_byte b (c ∷ s) =
    let later = push_before c (split_byte b s) in if c == b then some ([], s) else later

-- `find` of a text that is not empty.
unfoldable pub split_on : Bytes → Bytes → Option (Bytes × Bytes)
split_on needle [] = none
split_on needle (c ∷ s) =
    let later = push_before c (split_on needle s) in
    elim (strip_prefix needle (c ∷ s)) [ none ↦ later | some behind ↦ some ([], behind) ]

abbrev pub behind : Option (Bytes × Bytes) → Option Bytes
behind none = none
behind (some (before, s)) = some s

abbrev pub is_upper : ℕ → Bool
is_upper c = leb b'A' c && leb c b'Z'

abbrev pub is_alnum : ℕ → Bool
is_alnum c = is_digit c || is_upper c || leb b'a' c && leb c b'z'

abbrev pub is_id_byte : ℕ → Bool
is_id_byte c = is_alnum c || c == b'_' || c == b'-' || c == b'.'

unfoldable pub all_id_bytes : Bytes → Bool
all_id_bytes [] = true
all_id_bytes (c ∷ s) = is_id_byte c && all_id_bytes s

unfoldable pub valid_doc_id : Bytes → Bool
unfolding all_id_bytes
valid_doc_id [] = false
valid_doc_id (c ∷ s) = all_id_bytes (c ∷ s)

unfoldable pub ascii_lower : Bytes → Bytes
ascii_lower [] = []
ascii_lower (c ∷ s) = (if is_upper c then c + 32 else c) ∷ ascii_lower s
