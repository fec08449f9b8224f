-- ===== src/Http/Registry.antt =====
-- The registry of documents, a JSON list that is kept under one key of the store.
pub mod RoundTrip
use doom_draft.Base.{
  ℕ, zero, suc, Bool, true, false, ◌&&◌, not, List, [], ◌∷◌, ◌++◌, Option, none, some, ◌==◌,
  if◌then◌else◌, is_empty, length, codes,
}
use doom_draft.OrdMap.{emplace}
use doom_draft.Keys.{bytes_ord}
use doom_draft.DocOps.{Bytes}
use doom_draft.Http.Text.{split_byte, valid_doc_id}
use doom_draft.Http.Json.{quoted, json_escape}

-- `std::set<std::string>`.
abbrev pub Docs : Type 0
Docs = List (Bytes × Unit {0})

abbrev pub docs_registry_key : Bytes
docs_registry_key = codes "docs/registry"

-- The loop of `docs_registry_json`; `first` says that no comma is needed yet.
unfoldable pub registry_items : Bool → Docs → Bytes
registry_items first [] = b']' ∷ []
registry_items first ((d, u) ∷ docs) =
    (if first then [] else b',' ∷ []) ++ (quoted (json_escape d) ++ registry_items false docs)

unfoldable pub docs_registry_json : Docs → Bytes
unfolding registry_items json_escape
docs_registry_json docs = b'[' ∷ registry_items true docs

-- What stands between two quotes is taken if it is a valid id; an empty one is none.
abbrev pub add_doc : Bytes → Docs → Docs
add_doc d docs = if valid_doc_id d then emplace d tt docs else docs

-- The loop of `parse_docs_registry`, with fuel for a round for each byte.
unfoldable pub parse_items : ℕ → Bytes → Docs → Docs
unfolding split_byte valid_doc_id
parse_items zero body docs = docs
parse_items (suc fuel) [] docs = docs
parse_items (suc fuel) (c ∷ s) docs =
    let inside : Docs = elim (split_byte b'"' s) [
      | none ↦ docs
      | some (d, rest) ↦ parse_items fuel rest (add_doc d docs)
    ] in
    let outside = parse_items fuel s docs in if c == b'"' then inside else outside

unfoldable pub parse_docs_registry : Bytes → Docs
unfolding parse_items
parse_docs_registry body = parse_items (length body) body []
