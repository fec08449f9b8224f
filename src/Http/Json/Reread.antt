-- ===== src/Http/Json/Reread.antt =====
-- What `json_get_string` makes of what `json_escape` wrote.
use doom_draft.Base.{
  ℕ, ◌/◌, ◌%◌, ◌≤◌, ◌<◌, ◌≡◌, ◌≢◌, refl, sym, ◌∙◌, ap, ◌||◌, [], ◌∷◌, ◌++◌, append_assoc, Option,
  none, some, ◌⊎◌, ◌==◌, ltb, if◌then◌else◌, if_cases, arith,
}
use doom_draft.DocOps.{Bytes}
use doom_draft.Http.Json.{
  read_string, push_byte, unescape, hex4, hex_digit, escape_byte, json_escape,
}

-- A byte that is escaped as `\u` or `\r` comes back without its backslash.
abbrev pub reread_byte : ℕ → Bytes
reread_byte c =
    if c == b'\r'
    then b'r' ∷ []
    else if c == b'\n' || c == b'\t'
    then c ∷ []
    else if c == b'{' || c == b'}' || ltb c 32
    then b'u' ∷ hex4 c
    else c ∷ []

abbrev pub reread : Bytes → Bytes
reread [] = []
reread (c ∷ s) = reread_byte c ++ reread s

abbrev push_all : Bytes → Option Bytes → Option Bytes
push_all s none = none
push_all s (some out) = some (s ++ out)

-- A byte of plain text, in front of what ends with a quote.
read_plain :
    (c : ℕ) (s : Bytes) → c ≢ b'\\' → c ≢ b'"' → read_string (c ∷ s) ≡ push_byte c (read_string s)
unfolding read_string
read_plain c [] h k = ground arith
read_plain c (n ∷ s) h k = ground arith

read_escaped :
    (n : ℕ) (s : Bytes) → read_string (b'\\' ∷ n ∷ s) ≡ push_byte (unescape n) (read_string s)
unfolding read_string
read_escaped n s = refl

read_quote : (s : Bytes) → read_string (b'"' ∷ s) ≡ some []
unfolding read_string
read_quote [] = refl
read_quote (n ∷ s) = refl

hex_digit_plain : (d : ℕ) → d < 16 → (hex_digit d ≢ b'\\') × (hex_digit d ≢ b'"')
hex_digit_plain d h = (λ e. ground (arith, e), λ e. ground (arith, e))

push_twice : (a b : ℕ) (o : Option Bytes) → push_byte a (push_byte b o) ≡ push_all (a ∷ b ∷ []) o
push_twice a b none = refl
push_twice a b (some out) = refl

push_all-append : (s t : Bytes) (o : Option Bytes) → push_all s (push_all t o) ≡ push_all (s ++ t) o
push_all-append s t none = refl
push_all-append s t (some out) = ap some (sym (append_assoc s t out))

push_all-byte : (c : ℕ) (o : Option Bytes) → push_byte c o ≡ push_all (c ∷ []) o
push_all-byte c none = refl
push_all-byte c (some out) = refl

read_hex4 :
    (c : ℕ) (s : Bytes) → c < 256 → read_string (hex4 c ++ s) ≡ push_all (hex4 c) (read_string s)
read_hex4 c s h =
    let (a, b) = hex_digit_plain (c / 16) (omega arith) in
    let (a', b') = hex_digit_plain (c % 16) (omega arith) in
    rw
      (
        read_plain b'0' (b'0' ∷ hex_digit (c / 16) ∷ hex_digit (c % 16) ∷ s) (omega arith)
            (omega arith),
        read_plain b'0' (hex_digit (c / 16) ∷ hex_digit (c % 16) ∷ s) (omega arith) (omega arith),
        read_plain (hex_digit (c / 16)) (hex_digit (c % 16) ∷ s) a b,
        read_plain (hex_digit (c % 16)) s a' b',
        push_twice (hex_digit (c / 16)) (hex_digit (c % 16)) (read_string s),
      )
      (push_twice b'0' b'0'
          (push_all (hex_digit (c / 16) ∷ hex_digit (c % 16) ∷ []) (read_string s))
        ∙ push_all-append (b'0' ∷ b'0' ∷ []) (hex_digit (c / 16) ∷ hex_digit (c % 16) ∷ [])
            (read_string s))

read_u :
    (c : ℕ) (s : Bytes)
    → c < 256
    → read_string (b'\\' ∷ b'u' ∷ (hex4 c ++ s)) ≡ push_all (b'u' ∷ hex4 c) (read_string s)
read_u c s h =
    read_escaped b'u' (hex4 c ++ s)
    ∙ ap (push_byte b'u') (read_hex4 c s h)
    ∙ push_all-byte b'u' (push_all (hex4 c) (read_string s))
    ∙ push_all-append (b'u' ∷ []) (hex4 c) (read_string s)

-- Where the byte that follows the backslash is not a `u`.
read_pair :
    (c n : ℕ) (s : Bytes)
    → reread_byte c ≡ unescape n ∷ []
    → read_string (b'\\' ∷ n ∷ s) ≡ push_all (reread_byte c) (read_string s)
read_pair c n s e =
    read_escaped n s
    ∙ push_all-byte (unescape n) (read_string s)
    ∙ ap (λ r. push_all r (read_string s)) (sym e)

read_unicode :
    (c : ℕ) (s : Bytes)
    → c < 256
    → reread_byte c ≡ b'u' ∷ hex4 c
    → read_string (b'\\' ∷ b'u' ∷ (hex4 c ++ s)) ≡ push_all (reread_byte c) (read_string s)
read_unicode c s h e = read_u c s h ∙ ap (λ r. push_all r (read_string s)) (sym e)

read_verbatim :
    (c : ℕ) (s : Bytes)
    → c ≢ b'\\'
    → c ≢ b'"'
    → reread_byte c ≡ c ∷ []
    → read_string (c ∷ s) ≡ push_all (reread_byte c) (read_string s)
read_verbatim c s h k e =
    read_plain c s h k
    ∙ push_all-byte c (read_string s)
    ∙ ap (λ r. push_all r (read_string s)) (sym e)

read_escape_byte :
    (c : ℕ) (s : Bytes)
    → read_string (escape_byte c ++ s) ≡ push_all (reread_byte c) (read_string s)
unfolding escape_byte
read_escape_byte c s =
    let P = λ (e : Bytes). read_string (e ++ s) ≡ push_all (reread_byte c) (read_string s) in
    if_cases P (c == b'"') (λ e. read_pair c b'"' s (ground (arith, e)))
      (λ e1.
        if_cases P (c == b'\\') (λ e. read_pair c b'\\' s (ground (arith, e)))
          (λ e2.
            if_cases P (c == b'\n') (λ e. read_pair c b'n' s (ground (arith, e)))
              (λ e3.
                if_cases P (c == b'\r') (λ e. read_pair c b'r' s (ground (arith, e)))
                  (λ e4.
                    if_cases P (c == b'\t') (λ e. read_pair c b't' s (ground (arith, e)))
                      (λ e5.
                        if_cases P (c == b'{')
                          (λ e. read_unicode c s (ground (arith, e)) (ground (arith, e)))
                          (λ e6.
                            if_cases P (c == b'}')
                              (λ e. read_unicode c s (ground (arith, e)) (ground (arith, e)))
                              (λ e7.
                                if_cases P (ltb c 32)
                                  (λ e.
                                    read_unicode c s (ground (arith, e))
                                      (ground (arith, e, e3, e4, e5)))
                                  (λ e8.
                                    read_verbatim c s (ground (arith, e2)) (ground (arith, e1))
                                      (ground (arith, e3, e4, e5, e6, e7, e8))))))))))

-- Reading back an escaped text, up to the quote that ends it, gives the text with each carriage
-- return turned into `r` and each brace and other control byte into `u` and four hexadecimal
-- digits; every other byte comes back as it was.
pub read_string-json_escape :
    (text rest : Bytes) → read_string (json_escape text ++ b'"' ∷ rest) ≡ some (reread text)
unfolding json_escape
read_string-json_escape [] rest = read_quote rest
read_string-json_escape (c ∷ text) rest = rw (
  append_assoc (escape_byte c) (json_escape text) (b'"' ∷ rest),
  read_escape_byte c (json_escape text ++ b'"' ∷ rest),
  read_string-json_escape text rest,
)

-- Text that needs no such escape.
abbrev pub Plain : Bytes → Type 0
Plain [] = Unit
Plain (c ∷ s) = ((c ≡ b'\n') ⊎ (c ≡ b'\t') ⊎ ((32 ≤ c) × (c ≢ b'{') × (c ≢ b'}'))) × Plain s

pub reread-Plain : (text : Bytes) → Plain text → reread text ≡ text
reread-Plain [] h = refl
reread-Plain (c ∷ s) (h, k) =
    let e : reread_byte c ≡ c ∷ [] = ground (arith, h) in rw (e, reread-Plain s k)
