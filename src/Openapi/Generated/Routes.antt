-- ===== src/Openapi/Generated/Routes.antt =====
-- internal/openapi/openapi.gen.go: what a mux with the four patterns alone chooses.
use go_clipboard.Base.{
  ◌≡◌, refl, ap, subst, sym, ◌∙◌, inl, inr, Bool, true, false, Bytes, ascii, ◌==◌, ==_iff, List, [],
  ◌∷◌, ◌++◌, Option, none, if◌then◌else◌, Bool-cases, arith,
}
use go_clipboard.Http.Mux.{
  Registered, Match, or_else, match_path, for_method, match_request, is_exact, choice_of, choose,
}
use go_clipboard.Http.Mux.Depth.{match_path-IsShort}
use go_clipboard.Http.Server.{Target, register_routes, get_method, head_method}
use go_clipboard.Http.Server.Tables.{
  api, outside, other_api, page_of, get_patterns, post_patterns, get_table, post_table, match-get,
  match-post,
}
use go_clipboard.Http.Server.Methods.{all_routes, method_table, match_request_parts}
use go_clipboard.Http.Server.Routes.{slash_page, none-other, none-outside}

abbrev pub routes : List (Registered Target)
routes = register_routes all_routes

or_else-none : (x : Option (Match Target)) → or_else x none ≡ x
or_else-none x = ground arith

for_get : for_method get_method routes ≡ get_patterns
unfolding register_routes for_method ◌==◌
for_get = refl

for_any : for_method [] routes ≡ []
unfolding register_routes for_method ◌==◌
for_any = refl

for_head : for_method head_method routes ≡ []
unfolding register_routes for_method ◌==◌
for_head = refl

for_post : for_method (ascii "POST") routes ≡ post_patterns
unfolding register_routes for_method ◌==◌
for_post = refl

for_other :
    (method : Bytes)
    → (get_method == method) ≡ false
    → (ascii "POST" == method) ≡ false
    → for_method method routes ≡ []
unfolding register_routes for_method
for_other method not_get not_post = rw (not_get, not_post) refl

module _ (a : Bytes) (parts : List Bytes) where
  nothing : match_path {H = Target} [] [] (a ∷ parts) ≡ none
  nothing = match_path-IsShort [] [] (a ∷ parts) tt

  any : match_path (for_method [] routes) [] (a ∷ parts) ≡ none
  any = ap (λ ps. match_path ps [] (a ∷ parts)) for_any ∙ nothing

  own_get :
      match_path (for_method get_method routes) [] (a ∷ parts) ≡ get_table (page_of (a ∷ parts))
  own_get = ap (λ ps. match_path ps [] (a ∷ parts)) for_get ∙ match-get (a ∷ parts)

  match_get :
      match_request routes get_method (a ∷ parts) ≡ method_table get_method (page_of (a ∷ parts))
  unfolding ◌==◌ method_table
  match_get =
      match_request_parts routes get_method (a ∷ parts) false _ _ _ own_get refl own_get any
      ∙ or_else-none (get_table (page_of (a ∷ parts)))

  match_head :
      match_request routes head_method (a ∷ parts) ≡ method_table head_method (page_of (a ∷ parts))
  unfolding ◌==◌ method_table
  match_head =
      match_request_parts routes head_method (a ∷ parts) true _ _ _
        (ap (λ ps. match_path ps [] (a ∷ parts)) for_head ∙ nothing) refl own_get any
      ∙ or_else-none (get_table (page_of (a ∷ parts)))

  match_post :
      match_request routes (ascii "POST") (a ∷ parts)
      ≡ method_table (ascii "POST") (page_of (a ∷ parts))
  unfolding ◌==◌ method_table
  match_post =
      match_request_parts routes (ascii "POST") (a ∷ parts) false _ _ _
        (ap (λ ps. match_path ps [] (a ∷ parts)) for_post ∙ match-post (a ∷ parts)) refl own_get any
      ∙ or_else-none (post_table (page_of (a ∷ parts)))

  match_other :
      (method : Bytes)
      → (get_method == method) ≡ false
      → (ascii "POST" == method) ≡ false
      → (method == head_method) ≡ false
      → match_request routes method (a ∷ parts) ≡ method_table method (page_of (a ∷ parts))
  unfolding match_request method_table
  match_other method not_get not_post not_head =
      rw (for_other method not_get not_post, not_head, not_get, not_post, nothing, any) refl

  -- Without the patterns of any method, a request is matched by its method's table alone.
  match_request-routes :
      (method : Bytes)
      → match_request routes method (a ∷ parts) ≡ method_table method (page_of (a ∷ parts))
  match_request-routes method = elim (Bool-cases (get_method == method)) [
    | inl get ↦ at_method get_method ((==_iff get_method method).0 get) match_get
    | inr not_get ↦ elim (Bool-cases (method == head_method)) [
      | inl head ↦ at_method head_method (sym ((==_iff method head_method).0 head)) match_head
      | inr not_head ↦ elim (Bool-cases (ascii "POST" == method)) [
        | inl post ↦ at_method (ascii "POST") ((==_iff (ascii "POST") method).0 post) match_post
        | inr not_post ↦ match_other method not_get not_post not_head
      ]
    ]
  ]
    where
      at_method :
          (m : Bytes)
          → m ≡ method
          → match_request routes m (a ∷ parts) ≡ method_table m (page_of (a ∷ parts))
          → match_request routes method (a ∷ parts) ≡ method_table method (page_of (a ∷ parts))
      at_method m same =
          subst (λ x. match_request routes x (a ∷ parts) ≡ method_table x (page_of (a ∷ parts)))
            same

slash-none :
    (method a : Bytes) (parts : List Bytes)
    → match_request routes method (a ∷ (parts ++ ([] ∷ []))) ≡ none
slash-none method a parts =
    match_request-routes a (parts ++ ([] ∷ [])) method
    ∙ ap (method_table method) (slash_page a parts)
    ∙ either_page (api == a)
  where
    either_page : (b : Bool) → method_table method (if b then other_api else outside) ≡ none
    either_page true = none-other method
    either_page false = none-outside method

pub choose-routes :
    (method a : Bytes) (parts : List Bytes)
    → choose routes method (a ∷ parts) ≡ choice_of (method_table method (page_of (a ∷ parts)))
unfolding choose is_exact
choose-routes method a parts =
    rw (slash-none method a parts, match_request-routes a parts method) (ground arith)
