-- ===== src/Http/Registry/RoundTrip.antt =====
-- The registry comes back from the store as it was written.
use Prim.Native.Nat.{Ordering}
use doom_draft.Base.{
  ℕ, zero, suc, ◌+◌, ◌≤◌, ◌≡◌, ◌≢◌, refl, sym, ◌∙◌, ap, subst, Bool, true, false, [], ◌∷◌, ◌++◌,
  append_assoc, append-nil, some, length, length-append, arith,
}
use doom_draft.OrdMap.{flip, emplace, Above, Sorted}
use doom_draft.Keys.{bytes_ord, compare_bytes, compare_bytes-flip}
use doom_draft.DocOps.{Bytes}
use doom_draft.Http.Text.{split_byte, all_id_bytes, valid_doc_id}
use doom_draft.Http.Json.{quoted, escape_byte, json_escape}
use doom_draft.Http.Registry.{
  Docs, registry_items, docs_registry_json, parse_items, parse_docs_registry,
}

abbrev pub AllValid : Docs → Type 0
AllValid [] = Unit
AllValid ((d, u) ∷ docs) = (valid_doc_id d ≡ true) × AllValid docs

-- Bytes of an id are not escaped, and none is a quote.
pub escape_id : (d : Bytes) → all_id_bytes d ≡ true → json_escape d ≡ d
unfolding json_escape escape_byte all_id_bytes
escape_id [] h = refl
escape_id (c ∷ d) h =
    let e : escape_byte c ≡ c ∷ [] = ground (arith, h) in rw (e, escape_id d (ground (arith, h)))

split_id :
    (d rest : Bytes) → all_id_bytes d ≡ true → split_byte b'"' (d ++ b'"' ∷ rest) ≡ some (d, rest)
unfolding split_byte all_id_bytes
split_id [] rest h = refl
split_id (c ∷ d) rest h = ground (arith, h, split_id d rest (ground (arith, h)))

valid_bytes : (d : Bytes) → valid_doc_id d ≡ true → all_id_bytes d ≡ true
unfolding valid_doc_id
valid_bytes [] h = cc
valid_bytes (c ∷ d) h = h

last-Above :
    (j : Bytes) (out docs : Docs) (d : Bytes)
    → Above j (out ++ (d, tt) ∷ docs)
    → compare_bytes j d ≡ Ordering.lt
last-Above j [] docs d h = h.0
last-Above j ((k, u) ∷ out) docs d h = last-Above j out docs d h.1

-- Insertion of the greatest key so far.
emplace_last :
    (out docs : Docs) (d : Bytes)
    → Sorted (out ++ (d, tt) ∷ docs)
    → emplace d tt out ≡ out ++ (d, tt) ∷ []
unfolding emplace
emplace_last [] docs d h = refl
emplace_last ((j, u) ∷ out) docs d (a, h) =
    let e : compare_bytes d j ≡ Ordering.gt =
      compare_bytes-flip j d ∙ ap flip (last-Above j out docs d a) in
    rw (emplace, e, emplace_last out docs d h)

skip_byte :
    (fuel c : ℕ) (s : Bytes) (docs : Docs)
    → c ≢ b'"'
    → parse_items (suc fuel) (c ∷ s) docs ≡ parse_items fuel s docs
unfolding parse_items
skip_byte fuel c s docs h = ground arith

take_item :
    (fuel : ℕ) (d rest : Bytes) (docs : Docs)
    → valid_doc_id d ≡ true
    → parse_items (suc fuel) (quoted (json_escape d) ++ rest) docs
      ≡ parse_items fuel rest (emplace d tt docs)
unfolding parse_items
take_item fuel d rest docs h =
    let bytes = valid_bytes d h in
    rw (escape_id d bytes, parse_items, append_assoc d (b'"' ∷ []) rest, split_id d rest bytes, h)

parse_end : (fuel : ℕ) (docs : Docs) → parse_items fuel [] docs ≡ docs
unfolding parse_items
parse_end zero docs = refl
parse_end (suc fuel) docs = refl

length-quoted : (s rest : Bytes) → length (quoted s ++ rest) ≡ length s + 2 + length rest
length-quoted s rest =
    omega (arith, length-append (s ++ b'"' ∷ []) rest, length-append s (b'"' ∷ []))

-- One item, and then the others.
item_lem :
    (docs out : Docs) (d : Bytes) (fuel : ℕ)
    → ((f : ℕ)
        → length (registry_items false docs) ≤ f
        → parse_items f (registry_items false docs) (out ++ (d, tt) ∷ [])
          ≡ (out ++ (d, tt) ∷ []) ++ docs)
    → length (quoted (json_escape d) ++ registry_items false docs) ≤ fuel
    → valid_doc_id d ≡ true
    → Sorted (out ++ (d, tt) ∷ docs)
    → parse_items fuel (quoted (json_escape d) ++ registry_items false docs) out
      ≡ out ++ (d, tt) ∷ docs
item_lem docs out d zero others f h s =
    absurd (omega (arith, f, length-quoted (json_escape d) (registry_items false docs)))
item_lem docs out d (suc fuel) others f h s =
    take_item fuel d (registry_items false docs) out h
    ∙ ap (parse_items fuel (registry_items false docs)) (emplace_last out docs d s)
    ∙ others fuel (omega (arith, f, length-quoted (json_escape d) (registry_items false docs)))
    ∙ append_assoc out ((d, tt) ∷ []) docs

-- With as much fuel as there are bytes, each item is taken in turn.
items_lem :
    (docs out : Docs) (fuel : ℕ) (first : Bool)
    → length (registry_items first docs) ≤ fuel
    → AllValid docs
    → Sorted (out ++ docs)
    → parse_items fuel (registry_items first docs) out ≡ out ++ docs
unfolding registry_items
items_lem [] out zero first f v s = absurd (omega (arith, f))
items_lem [] out (suc fuel) first f v s =
    skip_byte fuel b']' [] out (omega arith) ∙ parse_end fuel out ∙ sym (append-nil out)
items_lem ((d, u) ∷ docs) out zero false f v s = absurd (omega (arith, f))
items_lem ((d, u) ∷ docs) out (suc fuel) false f (h, v) s =
    let s' = subst Sorted (sym (append_assoc out ((d, tt) ∷ []) docs)) s in
    skip_byte fuel b',' (quoted (json_escape d) ++ registry_items false docs) out (omega arith)
    ∙ item_lem docs out d fuel (λ g k. items_lem docs (out ++ (d, tt) ∷ []) g false k v s')
        (omega (arith, f)) h s
items_lem ((d, u) ∷ docs) out fuel true f (h, v) s =
    let s' = subst Sorted (sym (append_assoc out ((d, tt) ∷ []) docs)) s in
    item_lem docs out d fuel (λ g k. items_lem docs (out ++ (d, tt) ∷ []) g false k v s') f h s

-- The registry that `docs_registry_json` writes is read back by `parse_docs_registry` as the same
-- set, for every set of valid document ids.
pub parse_docs_registry-docs_registry_json :
    (docs : Docs)
    → AllValid docs
    → Sorted docs
    → parse_docs_registry (docs_registry_json docs) ≡ docs
unfolding parse_docs_registry docs_registry_json
parse_docs_registry-docs_registry_json docs v s =
    skip_byte (length (registry_items true docs)) b'[' (registry_items true docs) [] (omega arith)
    ∙ items_lem docs [] (length (registry_items true docs)) true (omega arith) v s
