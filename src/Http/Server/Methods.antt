-- ===== src/Http/Server/Methods.antt =====
-- internal/httpapi/server.go: the match of a request among the registered patterns, for each method.
use go_clipboard.Base.{
  ◌≡◌, refl, ap, subst, sym, ◌∙◌, inl, inr, Bool, true, false, ◌||◌, Bytes, ascii, ◌==◌, ==_iff,
  List, [], ◌∷◌, ◌++◌, map, Option, none, if◌then◌else◌, Bool-cases,
}
use go_clipboard.Base.Map.{lookup, insert}
use go_clipboard.Http.Mux.{
  literal, wildcard, Pattern, Registered, Match, or_else, match_path, for_method, match_request,
}
use go_clipboard.Http.Mux.Depth.{match_path-IsShort}
use go_clipboard.Http.Server.Tables.{
  api, clips, Page, page_of, get_patterns, post_patterns, any_patterns, get_table, post_table,
  any_table, match-get, match-post, match-any,
}
use go_clipboard.Http.Server.{
  ApiRoute, health, create, read, availability, Target, endpoint, root_fallback, static_files,
  register, append_method, health_routes, clip_routes, get_method, head_method,
}

abbrev pub all_routes : List ApiRoute
all_routes = health_routes ++ clip_routes

abbrev pub root_of : Bool → Target
root_of static = if static then static_files else root_fallback

abbrev pub at : Bytes → Pattern Target → Registered Target
at method p = record { method = method; pattern = p }

abbrev pub registered : Target → List (Registered Target)
registered root =
    at get_method (record {
      segments = literal api ∷ literal (ascii "health") ∷ [];
      subtree = false;
      depth = 2;
      handler = endpoint health;
    })
    ∷ at (ascii "POST") (record {
      segments = literal api ∷ literal clips ∷ [];
      subtree = false;
      depth = 2;
      handler = endpoint create;
    })
    ∷ at get_method (record {
      segments = literal api ∷ literal clips ∷ wildcard ∷ [];
      subtree = false;
      depth = 3;
      handler = endpoint read;
    })
    ∷ at get_method (record {
      segments = literal api ∷ literal clips ∷ wildcard ∷ literal (ascii "availability") ∷ [];
      subtree = false;
      depth = 4;
      handler = endpoint availability;
    })
    ∷ map (at []) (any_patterns root)

pub register-eq : (static : Bool) → register static all_routes ≡ registered (root_of static)
unfolding register lookup insert append_method ◌==◌
register-eq static = refl

unfoldable pub method_table : Bytes → Page → Option (Match Target)
method_table method page =
    if get_method == method || method == head_method
    then get_table page
    else if ascii "POST" == method
    then post_table page
    else none

for_get : (root : Target) → for_method get_method (registered root) ≡ get_patterns
unfolding for_method ◌==◌
for_get root = refl

for_any : (root : Target) → for_method [] (registered root) ≡ any_patterns root
unfolding for_method ◌==◌
for_any root = refl

for_head : (root : Target) → for_method head_method (registered root) ≡ []
unfolding for_method ◌==◌
for_head root = refl

for_post : (root : Target) → for_method (ascii "POST") (registered root) ≡ post_patterns
unfolding for_method ◌==◌
for_post root = refl

for_other :
    (root : Target) (method : Bytes)
    → ([] == method) ≡ false
    → (get_method == method) ≡ false
    → (ascii "POST" == method) ≡ false
    → for_method method (registered root) ≡ []
unfolding for_method
for_other root method given not_get not_post = rw (given, not_get, not_post) refl

pub match_request_parts :
    (rs : List (Registered Target)) (method : Bytes) (path : List Bytes) (head : Bool)
    (x y z : Option (Match Target))
    → match_path (for_method method rs) [] path ≡ x
    → (method == head_method) ≡ head
    → match_path (for_method get_method rs) [] path ≡ y
    → match_path (for_method [] rs) [] path ≡ z
    → match_request rs method path ≡ or_else x (or_else (if head then y else none) z)
unfolding match_request
match_request_parts rs method path head x y z own is_head get any =
    λ i. or_else (own i) (or_else (if is_head i then get i else none) (any i))

module _ (root : Target) (a : Bytes) (parts : List Bytes)
    (any : match_path (for_method [] (registered root)) [] (a ∷ parts)
      ≡ any_table root (page_of (a ∷ parts))) where
  own_get :
      match_path (for_method get_method (registered root)) [] (a ∷ parts)
      ≡ get_table (page_of (a ∷ parts))
  own_get = ap (λ ps. match_path ps [] (a ∷ parts)) (for_get root) ∙ match-get (a ∷ parts)

  match_get :
      match_request (registered root) get_method (a ∷ parts)
      ≡ or_else
          (method_table get_method (page_of (a ∷ parts)))
          (any_table root (page_of (a ∷ parts)))
  unfolding ◌==◌ method_table
  match_get =
      match_request_parts (registered root) get_method (a ∷ parts) false _ _ _ own_get refl own_get
        any

  match_head :
      match_request (registered root) head_method (a ∷ parts)
      ≡ or_else
          (method_table head_method (page_of (a ∷ parts)))
          (any_table root (page_of (a ∷ parts)))
  unfolding ◌==◌ method_table
  match_head =
      match_request_parts (registered root) head_method (a ∷ parts) true _ _ _
        (ap (λ ps. match_path ps [] (a ∷ parts)) (for_head root)
          ∙ match_path-IsShort [] [] (a ∷ parts) tt)
        refl own_get any

  match_post :
      match_request (registered root) (ascii "POST") (a ∷ parts)
      ≡ or_else
          (method_table (ascii "POST") (page_of (a ∷ parts)))
          (any_table root (page_of (a ∷ parts)))
  unfolding ◌==◌ method_table
  match_post =
      match_request_parts (registered root) (ascii "POST") (a ∷ parts) false _ _ _
        (ap (λ ps. match_path ps [] (a ∷ parts)) (for_post root) ∙ match-post (a ∷ parts)) refl
        own_get any

  match_other :
      (method : Bytes)
      → ([] == method) ≡ false
      → (get_method == method) ≡ false
      → (ascii "POST" == method) ≡ false
      → (method == head_method) ≡ false
      → match_request (registered root) method (a ∷ parts)
        ≡ or_else (method_table method (page_of (a ∷ parts))) (any_table root (page_of (a ∷ parts)))
  unfolding match_request method_table
  match_other method given not_get not_post not_head =
      rw
        (
          for_other root method given not_get not_post,
          not_head,
          not_get,
          not_post,
          match_path-IsShort [] [] (a ∷ parts) tt,
          any,
        )
        refl

-- A request is matched by its method's patterns, else by those of any method.
pub match_request_lem :
    (root : Target) (method a : Bytes) (parts : List Bytes)
    → ([] == method) ≡ false
    → match_request (registered root) method (a ∷ parts)
      ≡ or_else (method_table method (page_of (a ∷ parts))) (any_table root (page_of (a ∷ parts)))
match_request_lem root method a parts given =
    let any = ap (λ ps. match_path ps [] (a ∷ parts)) (for_any root) ∙ match-any root a parts in
    elim (Bool-cases (get_method == method)) [
      | inl get ↦
          subst
            (λ m.
              match_request (registered root) m (a ∷ parts)
              ≡ or_else (method_table m (page_of (a ∷ parts)))
                  (any_table root (page_of (a ∷ parts))))
            ((==_iff get_method method).0 get) (match_get root a parts any)
      | inr not_get ↦ elim (Bool-cases (method == head_method)) [
        | inl head ↦
            subst
              (λ m.
                match_request (registered root) m (a ∷ parts)
                ≡ or_else (method_table m (page_of (a ∷ parts)))
                    (any_table root (page_of (a ∷ parts))))
              (sym ((==_iff method head_method).0 head)) (match_head root a parts any)
        | inr not_head ↦ elim (Bool-cases (ascii "POST" == method)) [
          | inl post ↦
              subst
                (λ m.
                  match_request (registered root) m (a ∷ parts)
                  ≡ or_else (method_table m (page_of (a ∷ parts)))
                      (any_table root (page_of (a ∷ parts))))
                ((==_iff (ascii "POST") method).0 post) (match_post root a parts any)
          | inr not_post ↦ match_other root a parts any method given not_get not_post not_head
        ]
      ]
    ]
