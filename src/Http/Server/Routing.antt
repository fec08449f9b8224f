-- ===== src/Http/Server/Routing.antt =====
-- Routes name valid documents only.
use doom_draft.Base.{◌≡◌, refl, Bool, true, false, ◌&&◌, List, [], ◌∷◌, Option, none, some, codes}
use doom_draft.OrdMap.{same_key}
use doom_draft.Keys.{bytes_ord}
use doom_draft.DocOps.{Bytes}
use doom_draft.Http.Text.{valid_doc_id}
use doom_draft.Http.Request.{RequestLine, parse_doc_route}
use doom_draft.Http.Request.Parts.{parse_doc_route-Routes}
use doom_draft.Http.Server.{
  Route, get_doc, debug_log, post_op, post_cursor, doc_stream, get_docs, post_docs, editor_html,
  editor_js, preflight, admin_fail, no_route, first_route, on_path, on_doc, on_prefix, route_of,
  routes,
}

-- A route that names a document names a valid id.
abbrev pub ValidRoute : Route → Type 0
ValidRoute (get_doc d) = valid_doc_id d ≡ true
ValidRoute (post_op d) = valid_doc_id d ≡ true
ValidRoute (post_cursor d) = valid_doc_id d ≡ true
ValidRoute (doc_stream d) = valid_doc_id d ≡ true
ValidRoute debug_log = Unit
ValidRoute get_docs = Unit
ValidRoute post_docs = Unit
ValidRoute editor_html = Unit
ValidRoute editor_js = Unit
ValidRoute preflight = Unit
ValidRoute (admin_fail suffix) = Unit
ValidRoute no_route = Unit

abbrev ValidOption : Option Route → Type 0
ValidOption none = Unit
ValidOption (some r) = ValidRoute r

abbrev AllRoutes : List (Option Route) → Type 0
AllRoutes [] = Unit
AllRoutes (o ∷ l) = ValidOption o × AllRoutes l

first-ValidRoute : (l : List (Option Route)) → AllRoutes l → ValidRoute (first_route l)
first-ValidRoute [] h = tt
first-ValidRoute (none ∷ l) h = first-ValidRoute l h.1
first-ValidRoute (some r ∷ l) h = h.0

on_path-valid : (m : Bool) (r : Route) → ValidRoute r → ValidOption (on_path m r)
on_path-valid true r h = h
on_path-valid false r h = tt

on_doc-valid :
    (m : Bool) (o : Option (Bytes × Bytes)) (sub : Bytes) (to_route : Bytes → Route)
    → ((d s : Bytes) → o ≡ some (d, s) → valid_doc_id d ≡ true)
    → ((d : Bytes) → valid_doc_id d ≡ true → ValidRoute (to_route d))
    → ValidOption (on_doc m o sub to_route)
on_doc-valid m none sub to_route h k = tt
on_doc-valid m (some (d, s)) sub to_route h k =
    on_path-valid (m && same_key s sub) (to_route d) (k d (h d s refl))

on_prefix-valid : (m : Bool) (o : Option Bytes) → ValidOption (on_prefix m o admin_fail)
on_prefix-valid m none = tt
on_prefix-valid m (some suffix) = on_path-valid m (admin_fail suffix) tt

routes-AllRoutes : (rl : RequestLine) → AllRoutes (routes rl)
routes-AllRoutes rl =
    let valid : (d s : Bytes) → parse_doc_route rl.path ≡ some (d, s) → valid_doc_id d ≡ true =
      λ d s e. ((parse_doc_route-Routes rl.path d s).0 e).0 in
    (
      on_doc-valid _ _ [] get_doc valid (λ d v. v),
      (
        on_path-valid _ debug_log tt,
        (
          on_doc-valid _ _ (codes "op") post_op valid (λ d v. v),
          (
            on_doc-valid _ _ (codes "cursor") post_cursor valid (λ d v. v),
            (
              on_doc-valid _ _ (codes "stream") doc_stream valid (λ d v. v),
              (
                on_path-valid _ get_docs tt,
                (
                  on_path-valid _ post_docs tt,
                  (
                    on_path-valid _ editor_html tt,
                    (
                      on_path-valid _ editor_js tt,
                      (on_path-valid _ preflight tt, (on_prefix-valid _ _, tt)),
                    ),
                  ),
                ),
              ),
            ),
          ),
        ),
      ),
    )

pub route_of-ValidRoute : (rl : RequestLine) → ValidRoute (route_of rl)
unfolding route_of
route_of-ValidRoute rl = first-ValidRoute (routes rl) (routes-AllRoutes rl)
