-- ===== src/Http/Request/Parts.antt =====
-- What the parts of a request are parts of.
use doom_draft.Base.{
  ℕ, ◌+◌, ◌≡◌, refl, sym, ◌∙◌, ap, true, [], ◌∷◌, ◌++◌, append_assoc, none, some, ◌↔◌, ◌⊎◌, inl,
  inr, Option-cases, drop, length, length-append, arith,
}
use doom_draft.DocOps.{Bytes}
use doom_draft.Http.Text.{strip_prefix, split_byte, split_on, all_id_bytes, valid_doc_id}
use doom_draft.Http.Request.{
  RequestLine, no_request, crlf, blank_line, from_line, parse_request_line, doc_prefix,
  parse_doc_route,
}

strip_prefix-append : (p s t : Bytes) → strip_prefix p s ≡ some t → s ≡ p ++ t
strip_prefix-append [] s t h = cc h
strip_prefix-append (b ∷ p) [] t h = cc h
strip_prefix-append (b ∷ p) (c ∷ s) t h = ground (arith, h, strip_prefix-append p s t)

-- `x` has no such byte, and the text is `x`, that byte, and `y`.
pub split_byte-append : (b : ℕ) (s x y : Bytes) → split_byte b s ≡ some (x, y) → s ≡ x ++ b ∷ y
unfolding split_byte
split_byte-append b [] x y h = cc h
split_byte-append b (c ∷ s) x y h = elim (Option-cases (split_byte b s)) [
  | inl e ↦ ground (arith, h, e)
  | inr ((u, v), e) ↦ ground (arith, h, e, split_byte-append b s u v e)
]

pub split_on-append :
    (needle s x y : Bytes) → split_on needle s ≡ some (x, y) → s ≡ x ++ (needle ++ y)
unfolding split_on
split_on-append needle [] x y h = cc h
split_on-append needle (c ∷ s) x y h = elim (Option-cases (strip_prefix needle (c ∷ s))) [
  | inl e ↦ elim (Option-cases (split_on needle s)) [
    | inl f ↦ absurd (cc (rw (split_on, e, f) at h))
    | inr ((u, v), f) ↦
        let g = rw (split_on, e, f) at h in
        let p : x ≡ c ∷ u = cc g in
        let q : y ≡ v = cc g in rw (p, q, ← split_on-append needle s u v f)
  ]
  | inr (t, e) ↦
      let g = rw (split_on, e) at h in
      let p : x ≡ [] = cc g in
      let q : y ≡ t = cc g in rw (p, q) (strip_prefix-append needle (c ∷ s) t e)
]

drop-append : (x y : Bytes) → drop (length x) (x ++ y) ≡ y
drop-append [] y = refl
drop-append (c ∷ x) y = drop-append x y

-- What a request says: the method and the path stand in front, each with a space behind it, and
-- the body is all that follows the blank line.
abbrev pub Reads : Bytes → RequestLine → Type 0
Reads buf r =
    ((rest : Bytes) × (buf ≡ r.method ++ b' ' ∷ (r.path ++ b' ' ∷ rest)))
    × ((head : Bytes) × (body : Bytes) × (buf ≡ head ++ (blank_line ++ body))
        × (drop r.body_offset buf ≡ body))

body_after :
    (buf head body : Bytes) → buf ≡ head ++ (blank_line ++ body) → drop (length head + 4) buf ≡ body
body_after buf head body h =
    rw (h, ← append_assoc head blank_line body, ← length-append head blank_line)
      (drop-append (head ++ blank_line) body)

line-Reads :
    (buf head body line after method s path version : Bytes)
    → buf ≡ head ++ (blank_line ++ body)
    → buf ≡ line ++ (crlf ++ after)
    → line ≡ method ++ b' ' ∷ s
    → s ≡ path ++ b' ' ∷ version
    → Reads buf (record { method = method; path = path; body_offset = length head + 4 })
line-Reads buf head body line after method s path version h l m p = (
  (
    version ++ (crlf ++ after),
    l
        ∙ ap (λ t. t ++ (crlf ++ after)) (m ∙ ap (λ t. method ++ b' ' ∷ t) p)
        ∙ append_assoc method (b' ' ∷ (path ++ b' ' ∷ version)) (crlf ++ after)
        ∙ ap (λ t. method ++ b' ' ∷ t) (append_assoc path (b' ' ∷ version) (crlf ++ after)),
  ),
  (head, body, h, body_after buf head body h),
)

-- Of every input, `parse_request_line` either gives up, with an empty method, or splits it into
-- method, path and body.
pub parse_request_line-Reads :
    (buf : Bytes) → (parse_request_line buf ≡ no_request) ⊎ Reads buf (parse_request_line buf)
unfolding parse_request_line
parse_request_line-Reads buf = elim (Option-cases (split_on blank_line buf)) [
  | inl e ↦ inl (rw (parse_request_line, e))
  | inr ((head, body), e) ↦ elim (Option-cases (split_on crlf buf)) [
    | inl f ↦ inl (rw (parse_request_line, e, f))
    | inr ((line, after), f) ↦ elim (Option-cases (split_byte b' ' line)) [
      | inl g ↦ inl (rw (parse_request_line, e, f, g))
      | inr ((method, s), g) ↦ elim (Option-cases (split_byte b' ' s)) [
        | inl i ↦ inl (rw (parse_request_line, e, f, g, from_line, i))
        | inr ((path, version), i) ↦ inr (
            rw (parse_request_line, e, f, g, from_line, i)
              (line-Reads buf head body line after method s path version
                (split_on-append blank_line buf head body e) (split_on-append crlf buf line after f)
                (split_byte-append b' ' line method s g) (split_byte-append b' ' s path version i)))
      ]
    ]
  ]
]

split_slash : (d s : Bytes) → all_id_bytes d ≡ true → split_byte b'/' (d ++ b'/' ∷ s) ≡ some (d, s)
unfolding split_byte all_id_bytes
split_slash [] s h = refl
split_slash (c ∷ d) s h = ground (arith, h, split_slash d s (ground (arith, h)))

no_slash_in_id : (d : Bytes) → all_id_bytes d ≡ true → split_byte b'/' d ≡ none
unfolding split_byte all_id_bytes
no_slash_in_id [] h = refl
no_slash_in_id (c ∷ d) h = ground (arith, h, no_slash_in_id d (ground (arith, h)))

id_bytes : (d : Bytes) → valid_doc_id d ≡ true → all_id_bytes d ≡ true
unfolding valid_doc_id
id_bytes [] h = cc
id_bytes (c ∷ d) h = h

-- The paths of a document, with what follows its id.
abbrev pub Routes : Bytes → Bytes → Bytes → Type 0
Routes path doc sub =
    (valid_doc_id doc ≡ true)
    × (((path ≡ doc_prefix ++ doc) × (sub ≡ [])) ⊎ (path ≡ doc_prefix ++ (doc ++ b'/' ∷ sub)))

route_found : (path doc sub : Bytes) → Routes path doc sub → parse_doc_route path ≡ some (doc, sub)
unfolding parse_doc_route
route_found path doc sub (v, inl (p, s)) =
    ap parse_doc_route p ∙ rw (parse_doc_route, no_slash_in_id doc (id_bytes doc v), v, s)
route_found path doc sub (v, inr p) =
    ap parse_doc_route p ∙ rw (parse_doc_route, split_slash doc sub (id_bytes doc v), v)

route_sound : (path doc sub : Bytes) → parse_doc_route path ≡ some (doc, sub) → Routes path doc sub
unfolding parse_doc_route
route_sound path doc sub h = elim (Option-cases (strip_prefix doc_prefix path)) [
  | inl e ↦ absurd (cc (rw (parse_doc_route, e) at h))
  | inr (rest, e) ↦ elim (Option-cases (split_byte b'/' rest)) [
    | inl f ↦
        let g = rw (parse_doc_route, e, f) at h in
        let v : valid_doc_id rest ≡ true = ground (arith, g) in
        let p : rest ≡ doc = ground (arith, g) in
        let q : sub ≡ [] = ground (arith, g) in
        (
          ap valid_doc_id (sym p) ∙ v,
          inl (strip_prefix-append doc_prefix path rest e ∙ ap (λ s. doc_prefix ++ s) p, q),
        )
    | inr ((d, s), f) ↦
        let g = rw (parse_doc_route, e, f) at h in
        let v : valid_doc_id d ≡ true = ground (arith, g) in
        let p : d ≡ doc = ground (arith, g) in
        let q : s ≡ sub = ground (arith, g) in
        (
          ap valid_doc_id (sym p) ∙ v,
          inr (
              strip_prefix-append doc_prefix path rest e
              ∙ ap (λ t. doc_prefix ++ t) (split_byte-append b'/' rest d s f ∙ cc (p, q))),
        )
  ]
]

-- `parse_doc_route` finds a document and what follows it exactly if the path is `/doc/`, a valid
-- id, and nothing more or a slash and the rest.
pub parse_doc_route-Routes :
    (path doc sub : Bytes) → (parse_doc_route path ≡ some (doc, sub)) ↔ Routes path doc sub
parse_doc_route-Routes path doc sub = (route_sound path doc sub, route_found path doc sub)
