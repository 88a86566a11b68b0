-- ===== src/Http/Server/Allowed.antt =====
-- internal/httpapi/server.go: the methods in the Allow header of a path.
use go_clipboard.Base.{
  ◌≡◌, refl, ap, sym, ◌∙◌, inl, inr, Bytes, ◌==◌, ==_iff, List, [], ◌∷◌, ◌++◌, if◌then◌else◌,
  Bool-cases,
}
use go_clipboard.Base.Map.{Map, lookup-insert}
use go_clipboard.Http.Server.{
  ApiRoute, or_empty, get_method, head_method, allowed_at, append_method, allow_routes,
}
use mathlib.Core.List.{append_assoc, append-nil}

-- The methods that a route serves: its own, and HEAD with GET.
abbrev pub served_by : ApiRoute → List Bytes
served_by route =
    if route.method == get_method then route.method ∷ head_method ∷ [] else route.method ∷ []

-- The methods that the routes of a path serve.
abbrev pub methods_for : Bytes → List ApiRoute → List Bytes
methods_for path [] = []
methods_for path (route ∷ routes) =
    let rest = methods_for path routes in
    if route.path == path then served_by route ++ rest else rest

allowed_at-append_method :
    (p method path : Bytes) (allowed : Map (List Bytes))
    → allowed_at path (append_method p method allowed)
      ≡ (if p == path then allowed_at path allowed ++ (method ∷ []) else allowed_at path allowed)
unfolding append_method
allowed_at-append_method p method path allowed =
    ap or_empty (lookup-insert p path (allowed_at p allowed ++ (method ∷ [])) allowed)
    ∙ (elim (Bool-cases (p == path)) [
      | inl same ↦
          rw same
            (ap (λ (q : Bytes). allowed_at q allowed ++ (method ∷ [])) ((==_iff p path).0 same))
      | inr other ↦ rw other refl
    ])

-- What one turn of the loop does to the entry of a path.
allowed_at_route :
    (route : ApiRoute) (path : Bytes) (allowed : Map (List Bytes))
    → allowed_at path (
        if route.method == get_method
        then append_method route.path head_method (append_method route.path route.method allowed)
        else append_method route.path route.method allowed)
      ≡ (if route.path == path
          then allowed_at path allowed ++ served_by route
          else allowed_at path allowed)
allowed_at_route route path allowed =
    let first = allowed_at-append_method route.path route.method path allowed in
    elim (Bool-cases (route.method == get_method)) [
      | inr other ↦ rw other first
      | inl gets ↦ rw gets (
          allowed_at-append_method route.path head_method path
            (append_method route.path route.method allowed)
          ∙ (elim (Bool-cases (route.path == path)) [
            | inl same ↦
                let start = rw same at first in
                rw same (
                  ap (λ (ms : List Bytes). ms ++ (head_method ∷ [])) start
                  ∙ append_assoc (allowed_at path allowed) (route.method ∷ []) (head_method ∷ []))
            | inr apart ↦ let start = rw apart at first in rw apart start
          ]))
    ]

-- For every list of routes, the Allow header of a path lists exactly the methods of its routes, in
-- their order, and HEAD after each GET.
pub allowed_at-allow_routes :
    (routes : List ApiRoute) (path : Bytes) (allowed : Map (List Bytes))
    → allowed_at path (allow_routes routes allowed)
      ≡ allowed_at path allowed ++ methods_for path routes
unfolding allow_routes
allowed_at-allow_routes [] path allowed = sym (append-nil (allowed_at path allowed))
allowed_at-allow_routes (route ∷ routes) path allowed =
    let next =
      if route.method == get_method
      then append_method route.path head_method (append_method route.path route.method allowed)
      else append_method route.path route.method allowed in
    allowed_at-allow_routes routes path next
    ∙ ap (λ (ms : List Bytes). ms ++ methods_for path routes) (allowed_at_route route path allowed)
    ∙ (elim (Bool-cases (route.path == path)) [
      | inl same ↦
          rw same
            (append_assoc (allowed_at path allowed) (served_by route) (methods_for path routes))
      | inr apart ↦ rw apart refl
    ])
