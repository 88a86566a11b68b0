-- ===== src/Http/Server/Routes.antt =====
-- internal/httpapi/server.go: which handler a request reaches.
use go_clipboard.Base.{
  ◌+◌, ◌≡◌, ◌≢◌, refl, ap, subst, ◌∙◌, inl, inr, Bool, true, false, ◌&&◌, ◌||◌, Bytes, ascii, ◌==◌,
  ==_iff, List, [], ◌∷◌, ◌++◌, Option, none, if◌then◌else◌, arith, Bool-cases, eqb, length,
  length-append, List-cases,
}
use go_clipboard.Http.Mux.{
  Registered, Match, Choice, or_else, matched, redirected, match_request, is_exact, choice_of,
  choose, ends_in_slash,
}
use go_clipboard.Http.Server.Tables.{
  api, Page, health_page, clips_page, clip_page, hint_page, bare_api, other_api, outside, api_page,
  page_of, found, get_head, in_subtree, get_table, post_table, any_table,
}
use go_clipboard.Http.Server.{
  health, create, read, availability, Target, endpoint, method_not_allowed, api_fallback, register,
  get_method, head_method,
}
use go_clipboard.Http.Server.Methods.{
  all_routes, root_of, registered, register-eq, method_table, match_request_lem,
}

-- GET and HEAD.
abbrev pub serves_get : Bytes → Bool
serves_get method = get_method == method || method == head_method

-- What NewServer's mux makes of a page and a method.
unfoldable pub route : Target → Bytes → Page → Choice Target
route root method health_page =
    if serves_get method
    then matched (endpoint health) []
    else matched (method_not_allowed get_head) []
route root method clips_page =
    if ascii "POST" == method
    then matched (endpoint create) []
    else matched (method_not_allowed (ascii "POST" ∷ [])) []
route root method (clip_page slug) =
    if serves_get method
    then matched (endpoint read) (slug ∷ [])
    else matched (method_not_allowed get_head) (slug ∷ [])
route root method (hint_page slug) =
    if serves_get method
    then matched (endpoint availability) (slug ∷ [])
    else matched (method_not_allowed get_head) (slug ∷ [])
route root method bare_api = redirected
route root method other_api = matched api_fallback []
route root method outside = matched root []

pub get-ne-post : (method : Bytes) → (ascii "POST" == method) ≡ true → serves_get method ≡ false
unfolding ◌==◌
get-ne-post method h = subst (λ m. serves_get m ≡ false) ((==_iff (ascii "POST") method).0 h) refl

choice-route :
    (root : Target) (method : Bytes) (page : Page)
    → page ≢ bare_api
    → choice_of (or_else (method_table method page) (any_table root page)) ≡ route root method page
unfolding method_table get_table post_table any_table choice_of route
choice-route root method health_page h = ground arith
choice-route root method clips_page h = ground (arith, get-ne-post method)
choice-route root method (clip_page slug) h = ground arith
choice-route root method (hint_page slug) h = ground arith
choice-route root method bare_api h = absurd (h refl)
choice-route root method other_api h = ground arith
choice-route root method outside h = ground arith

pub slash_page :
    (a : Bytes) (parts : List Bytes)
    → page_of (a ∷ (parts ++ ([] ∷ []))) ≡ (if api == a then other_api else outside)
unfolding page_of api_page ◌==◌
slash_page a [] = refl
slash_page a (b ∷ []) = ground arith
slash_page a (b ∷ c ∷ []) = ground arith
slash_page a (b ∷ c ∷ d ∷ []) = refl
slash_page a (b ∷ c ∷ d ∷ e ∷ parts) = refl

slash-ends : (parts : List Bytes) → ends_in_slash (parts ++ ([] ∷ [])) ≡ true
unfolding ends_in_slash ◌==◌
slash-ends [] = refl
slash-ends (a ∷ []) = refl
slash-ends (a ∷ b ∷ parts) = slash-ends (b ∷ parts)

length-slash : (parts : List Bytes) → length (parts ++ ([] ∷ [])) ≡ length parts + 1
length-slash parts = length-append parts ([] ∷ [])

pub none-other : (method : Bytes) → method_table method other_api ≡ none
unfolding method_table get_table post_table
none-other method = ground arith

pub none-outside : (method : Bytes) → method_table method outside ≡ none
unfolding method_table get_table post_table
none-outside method = ground arith

-- Only /api itself is a subtree's path without its slash.
redirects :
    (root : Target) (method a : Bytes) (parts : List Bytes)
    → ([] == method) ≡ false
    → is_exact
        (a ∷ (parts ++ ([] ∷ [])))
        (match_request (registered root) method (a ∷ (parts ++ ([] ∷ []))))
      ≡ (api == a && eqb (length parts) 0)
unfolding is_exact any_table
redirects root method a parts given =
    let both = slash_page a parts in
    rw (match_request_lem root method a (parts ++ ([] ∷ [])) given, both)
      (elim (Bool-cases (api == a)) [
        | inl inside ↦
            rw (inside, none-other method, is_exact)
              (ground (arith, slash-ends (a ∷ parts), length-slash parts))
        | inr apart ↦
            rw (apart, none-outside method, is_exact)
              (ground (arith, slash-ends (a ∷ parts), length-slash parts))
      ])

choose_parts :
    (rs : List (Registered Target)) (method : Bytes) (path : List Bytes) (t : Option (Match Target))
    (b : Bool)
    → match_request rs method path ≡ t
    → is_exact (path ++ ([] ∷ [])) (match_request rs method (path ++ ([] ∷ []))) ≡ b
    → choose rs method path ≡ (
        if is_exact path t || ends_in_slash path
        then choice_of t
        else if b
        then redirected
        else choice_of t)
unfolding choose
choose_parts rs method path t b found redirect = λ i.
    if is_exact path (found i) || ends_in_slash path
    then choice_of (found i)
    else if redirect i
    then redirected
    else choice_of (found i)

api_page-inside : (b : Bytes) (parts : List Bytes) → api_page (b ∷ parts) ≢ bare_api
unfolding api_page
api_page-inside b [] h = ground arith
api_page-inside b (c ∷ []) h = ground arith
api_page-inside b (c ∷ d ∷ []) h = ground arith
api_page-inside b (c ∷ d ∷ e ∷ parts) h = ground arith

choose-api :
    (root : Target) (method : Bytes)
    → ([] == method) ≡ false
    → choose (registered root) method (api ∷ []) ≡ redirected
unfolding page_of api_page ◌==◌ is_exact ends_in_slash any_table method_table get_table post_table
choose-api root method given =
    choose_parts (registered root) method (api ∷ []) (in_subtree root 0) true
      (match_request_lem root method api [] given ∙ bare method)
      (redirects root method api [] given)
  where
    bare :
        (m : Bytes)
        → or_else (method_table m bare_api) (any_table root bare_api) ≡ in_subtree root 0
    bare m = ground arith

module _ (static : Bool) (method a : Bytes) (given : ([] == method) ≡ false) where
  choose_page :
      (parts : List Bytes)
      → page_of (a ∷ parts) ≢ bare_api
      → (api == a && eqb (length parts) 0) ≡ false
      → choose (register static all_routes) method (a ∷ parts)
        ≡ route (root_of static) method (page_of (a ∷ parts))
  choose_page parts not_bare stays =
      let root = root_of static in
      ap (λ rs. choose rs method (a ∷ parts)) (register-eq static)
      ∙ choose_parts (registered root) method (a ∷ parts) _ false
          (match_request_lem root method a parts given)
          (redirects root method a parts given ∙ stays)
      ∙ either_way _ _
      ∙ choice-route root method (page_of (a ∷ parts)) not_bare
    where
      either_way :
          (b : Bool) (x : Choice Target) → (if b then x else if false then redirected else x) ≡ x
      either_way b x = ground arith

  choose_bare : (api == a) ≡ true → choose (register static all_routes) method (a ∷ []) ≡ redirected
  choose_bare inside =
      subst (λ x. choose (register static all_routes) method (x ∷ []) ≡ redirected)
        ((==_iff api a).0 inside)
        (ap (λ rs. choose rs method (api ∷ [])) (register-eq static)
          ∙ choose-api (root_of static) method given)

  pub choose-route :
      (parts : List Bytes)
      → choose (register static all_routes) method (a ∷ parts)
        ≡ route (root_of static) method (page_of (a ∷ parts))
  unfolding route page_of api_page
  choose-route parts = elim (Bool-cases (api == a)) [
    | inr apart ↦ choose_page parts (λ h. ground (arith, h, apart)) (rw apart refl)
    | inl inside ↦ elim (List-cases parts) [
      | inl none_left ↦ rw (none_left, inside) (choose_bare inside)
      | inr (b, rest, more) ↦ rw more (
          choose_page (b ∷ rest) (λ h. api_page-inside b rest (ground (arith, h, inside)))
            (ground arith))
    ]
  ]
