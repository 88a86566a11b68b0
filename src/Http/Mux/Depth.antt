-- ===== src/Http/Mux/Depth.antt =====
-- net/http's ServeMux: a path with more segments than a pattern is not matched by it.
use go_clipboard.Base.{
  ℕ, suc, ◌<◌, ◌≡◌, refl, ap, inl, inr, Bool, true, false, Bytes, List, [], ◌∷◌, ◌++◌, none, some,
  arith, Bool-cases, length, All, List-cases,
}
use go_clipboard.Http.Mux.{
  Segment, Pattern, Match, after, ending, matched_by, match_path, is_literal, is_wildcard,
}

module _ {H : Type 0} where
  -- A pattern for one path, with fewer segments than the number.
  abbrev pub IsShort : ℕ → Pattern H → Type 0
  IsShort n p = (p.subtree ≡ false) × (length p.segments < n)

  after-IsShort :
      (test : Segment → Bool) (n : ℕ) (ps : List (Pattern H))
      → All (IsShort (suc n)) ps
      → All (IsShort n) (after test ps)
  unfolding after
  after-IsShort test n [] h = tt
  after-IsShort test n (p ∷ ps) (short, shorts) = elim (List-cases p.segments) [
    | inl done ↦ rw (done, after) (after-IsShort test n ps shorts)
    | inr (segment, segments, more) ↦ elim (Bool-cases (test segment)) [
      | inl passes ↦
          rw (more, after, passes)
            ((short.0, ground (arith, short.1, ap length more)), after-IsShort test n ps shorts)
      | inr fails ↦ rw (more, after, fails) (after-IsShort test n ps shorts)
    ]
  ]

  -- One step into a path, all of whose continuations are known to fail.
  pub match_path-none :
      (ps : List (Pattern H)) (wildcards : List Bytes) (part : Bytes) (parts : List Bytes)
      → match_path (after (is_literal part) ps) wildcards parts ≡ none
      → match_path (after is_wildcard ps) (wildcards ++ (part ∷ [])) parts ≡ none
      → match_path ps wildcards (part ∷ parts) ≡ matched_by wildcards (ending true ps)
  unfolding match_path
  match_path-none ps wildcards part parts by_literal by_wildcard =
      ground (arith, by_literal, by_wildcard)

  -- One step into a path that a literal goes on from.
  pub match_path-some :
      (ps : List (Pattern H)) (wildcards : List Bytes) (part : Bytes) (parts : List Bytes)
      (m : Match H)
      → match_path (after (is_literal part) ps) wildcards parts ≡ some m
      → match_path ps wildcards (part ∷ parts) ≡ some m
  unfolding match_path
  match_path-some ps wildcards part parts m by_literal = rw by_literal refl

  ending-IsShort : (n : ℕ) (ps : List (Pattern H)) → All (IsShort n) ps → ending true ps ≡ none
  unfolding ending
  ending-IsShort n [] h = refl
  ending-IsShort n (p ∷ ps) ((exact, short), shorts) = elim (List-cases p.segments) [
    | inl done ↦ rw (done, ending, exact) (ending-IsShort n ps shorts)
    | inr (segment, segments, more) ↦ rw (more, ending) (ending-IsShort n ps shorts)
  ]

  pub match_path-IsShort :
      (ps : List (Pattern H)) (wildcards parts : List Bytes)
      → All (IsShort (length parts)) ps
      → match_path ps wildcards parts ≡ none
  unfolding match_path ending matched_by
  match_path-IsShort [] wildcards [] h = refl
  match_path-IsShort (p ∷ ps) wildcards [] h = absurd (omega arith)
  match_path-IsShort ps wildcards (part ∷ parts) h =
      let by_literal =
        match_path-IsShort (after (is_literal part) ps) wildcards parts
          (after-IsShort (is_literal part) (length parts) ps h) in
      let by_wildcard =
        match_path-IsShort (after is_wildcard ps) (wildcards ++ (part ∷ [])) parts
          (after-IsShort is_wildcard (length parts) ps h) in
      let by_subtree = ending-IsShort (length (part ∷ parts)) ps h in
      ground (arith, by_literal, by_wildcard, by_subtree)
