-- ===== src/Http/Mux/Natural.antt =====
-- net/http's ServeMux: the choice of a pattern does not look at the handlers.
use go_clipboard.Base.{
  ◌≡◌, refl, ap, ◌∙◌, inl, inr, Bool, true, false, Bytes, ascii, ◌==◌, List, [], ◌∷◌, ◌++◌, map,
  Option, none, some, if◌then◌else◌, Bool-cases, List-cases, not, ◌&&◌, ◌||◌,
}
use go_clipboard.Http.Mux.{
  Segment, Pattern, Registered, Match, Choice, matched, redirected, not_found, after, ending,
  matched_by, or_else, match_path, for_method, match_request, is_literal, is_wildcard, is_exact,
  choice_of, choose, ends_in_slash,
}

module _ {H K : Type 0} (f : H → K) where
  abbrev pub map_pattern : Pattern H → Pattern K
  map_pattern p = record {
    segments = p.segments;
    subtree = p.subtree;
    depth = p.depth;
    handler = f p.handler;
  }

  abbrev pub map_registered : Registered H → Registered K
  map_registered r = record { method = r.method; pattern = map_pattern r.pattern }

  abbrev pub map_match : Option (Match H) → Option (Match K)
  map_match none = none
  map_match (some m) = some (record {
    handler = f m.handler;
    wildcards = m.wildcards;
    subtree = m.subtree;
    depth = m.depth;
  })

  abbrev pub map_choice : Choice H → Choice K
  map_choice (matched h slugs) = matched (f h) slugs
  map_choice redirected = redirected
  map_choice not_found = not_found

  abbrev found_pattern : Option (Pattern H) → Option (Pattern K)
  found_pattern none = none
  found_pattern (some p) = some (map_pattern p)

  after-map :
      (test : Segment → Bool) (ps : List (Pattern H))
      → after test (map map_pattern ps) ≡ map map_pattern (after test ps)
  unfolding after
  after-map test [] = refl
  after-map test (p ∷ ps) = elim (List-cases p.segments) [
    | inl done ↦ rw (done, after) (after-map test ps)
    | inr (segment, segments, more) ↦ elim (Bool-cases (test segment)) [
      | inl passes ↦ rw (more, after, passes, after-map test ps) refl
      | inr fails ↦ rw (more, after, fails) (after-map test ps)
    ]
  ]

  ending-map :
      (subtree : Bool) (ps : List (Pattern H))
      → ending subtree (map map_pattern ps) ≡ found_pattern (ending subtree ps)
  unfolding ending
  ending-map subtree [] = refl
  ending-map subtree (p ∷ ps) = elim (List-cases p.segments) [
    | inl done ↦
        rw (done, ending)
          (elim (Bool-cases ((subtree && p.subtree) || (not subtree && not p.subtree))) [
            | inl here ↦ rw here refl
            | inr apart ↦ rw apart (ending-map subtree ps)
          ])
    | inr (segment, segments, more) ↦ rw (more, ending) (ending-map subtree ps)
  ]

  matched_by-map :
      (wildcards : List Bytes) (p : Option (Pattern H))
      → matched_by wildcards (found_pattern p) ≡ map_match (matched_by wildcards p)
  unfolding matched_by
  matched_by-map wildcards none = refl
  matched_by-map wildcards (some p) = refl

  or_else-map :
      (x y : Option (Match H)) → or_else (map_match x) (map_match y) ≡ map_match (or_else x y)
  or_else-map none y = refl
  or_else-map (some m) y = refl

  if-map :
      (b : Bool) (x y : Option (Match H))
      → (if b then map_match x else map_match y) ≡ map_match (if b then x else y)
  if-map true x y = refl
  if-map false x y = refl

  -- The first of three that is there.
  first-map :
      (x y z : Option (Match K)) (x' y' z' : Option (Match H))
      → x ≡ map_match x'
      → y ≡ map_match y'
      → z ≡ map_match z'
      → or_else x (or_else y z) ≡ map_match (or_else x' (or_else y' z'))
  first-map x y z x' y' z' p q r = rw (p, q, r, or_else-map y' z') (or_else-map x' (or_else y' z'))

  match_path-map :
      (ps : List (Pattern H)) (wildcards parts : List Bytes)
      → match_path (map map_pattern ps) wildcards parts ≡ map_match (match_path ps wildcards parts)
  unfolding match_path
  match_path-map ps wildcards [] =
      rw (ending-map false ps) (matched_by-map wildcards (ending false ps))
  match_path-map ps wildcards (part ∷ parts) =
      let taken = wildcards ++ (part ∷ []) in
      let by_wildcard =
        ap (λ qs. match_path qs taken parts) (after-map is_wildcard ps)
        ∙ match_path-map (after is_wildcard ps) taken parts in
      first-map _ _ _ (match_path (after (is_literal part) ps) wildcards parts)
        (if part == [] then none else match_path (after is_wildcard ps) taken parts)
        (matched_by wildcards (ending true ps))
        (ap (λ qs. match_path qs wildcards parts) (after-map (is_literal part) ps)
          ∙ match_path-map (after (is_literal part) ps) wildcards parts)
        (ap (λ (x : Option (Match K)). if part == [] then none else x) by_wildcard
          ∙ if-map (part == []) none (match_path (after is_wildcard ps) taken parts))
        (ap (matched_by wildcards) (ending-map true ps) ∙ matched_by-map wildcards (ending true ps))

  for_method-map :
      (method : Bytes) (rs : List (Registered H))
      → for_method method (map map_registered rs) ≡ map map_pattern (for_method method rs)
  unfolding for_method
  for_method-map method [] = refl
  for_method-map method (r ∷ rs) = elim (Bool-cases (r.method == method)) [
    | inl same ↦ rw (same, for_method-map method rs) refl
    | inr other ↦ rw other (for_method-map method rs)
  ]

  methods-map :
      (method : Bytes) (rs : List (Registered H)) (parts : List Bytes)
      → match_path (for_method method (map map_registered rs)) [] parts
        ≡ map_match (match_path (for_method method rs) [] parts)
  methods-map method rs parts =
      ap (λ ps. match_path ps [] parts) (for_method-map method rs)
      ∙ match_path-map (for_method method rs) [] parts

  match_request-map :
      (rs : List (Registered H)) (method : Bytes) (parts : List Bytes)
      → match_request (map map_registered rs) method parts
        ≡ map_match (match_request rs method parts)
  unfolding match_request
  match_request-map rs method parts =
      first-map _ _ _ (match_path (for_method method rs) [] parts)
        (if method == ascii "HEAD" then match_path (for_method (ascii "GET") rs) [] parts else none)
        (match_path (for_method [] rs) [] parts) (methods-map method rs parts)
        (ap (λ (x : Option (Match K)). if method == ascii "HEAD" then x else none)
            (methods-map (ascii "GET") rs parts)
          ∙ if-map (method == ascii "HEAD") (match_path (for_method (ascii "GET") rs) [] parts)
              none)
        (methods-map [] rs parts)

  is_exact-map :
      (parts : List Bytes) (m : Option (Match H)) → is_exact parts (map_match m) ≡ is_exact parts m
  unfolding is_exact
  is_exact-map parts none = refl
  is_exact-map parts (some m) = refl

  choice_of-map : (m : Option (Match H)) → choice_of (map_match m) ≡ map_choice (choice_of m)
  unfolding choice_of
  choice_of-map none = refl
  choice_of-map (some m) = refl

  -- Patterns with other handlers choose the handler that stands for the same pattern.
  pub choose-map :
      (rs : List (Registered H)) (method : Bytes) (parts : List Bytes)
      → choose (map map_registered rs) method parts ≡ map_choice (choose rs method parts)
  unfolding choose
  choose-map rs method parts =
      rw
        (
          match_request-map rs method parts,
          match_request-map rs method (parts ++ ([] ∷ [])),
          is_exact-map parts (match_request rs method parts),
          is_exact-map (parts ++ ([] ∷ [])) (match_request rs method (parts ++ ([] ∷ []))),
          choice_of-map (match_request rs method parts),
        )
        (chosen_lem (is_exact parts (match_request rs method parts) || ends_in_slash parts)
          (is_exact (parts ++ ([] ∷ [])) (match_request rs method (parts ++ ([] ∷ []))))
          (choice_of (match_request rs method parts)))
    where
      chosen_lem :
          (b c : Bool) (x : Choice H)
          → (if b then map_choice x else if c then redirected else map_choice x)
            ≡ map_choice (if b then x else if c then redirected else x)
      chosen_lem true c x = refl
      chosen_lem false true x = refl
      chosen_lem false false x = refl
