-- ===== src/Http/Mux.antt =====
-- net/http's ServeMux, as far as internal/httpapi/server.go uses it: patterns of a method and a path,
-- whose segments are literals or wildcards, and which end in a slash if they stand for a whole subtree.
-- The order of registration does not matter to a ServeMux; here patterns form a list.
pub mod Depth
pub mod Natural
use go_clipboard.Base.{
  ℕ, ◌+◌, Bool, true, false, not, ◌&&◌, ◌||◌, Bytes, ascii, ◌==◌, List, [], ◌∷◌, ◌++◌, Option, none,
  some, if◌then◌else◌, eqb, length, ◌≡◌, arith,
}
use go_clipboard.Http.ClientIp.{split}

pub data Segment : Type 0 where
  literal : Bytes → Segment
  wildcard : Segment

pub record Pattern (H : Type 0) : Type 0 where
  pub segments : List Segment
  pub subtree : Bool
  pub depth : ℕ
  pub handler : H

-- A registered pattern: a method, or the empty text for all, and a path.
pub record Registered (H : Type 0) : Type 0 where
  pub method : Bytes
  pub pattern : Pattern H

-- What a pattern was matched by: the handler, the segments that its wildcards took, and whether the
-- match is exact.
pub record Match (H : Type 0) : Type 0 where
  pub handler : H
  pub wildcards : List Bytes
  pub subtree : Bool
  pub depth : ℕ

pub data Choice (H : Type 0) : Type 0 where
  matched : H → List Bytes → Choice H
  redirected not_found : Choice H

unfoldable pub parse_segment : Bytes → Segment
parse_segment [] = literal []
parse_segment (b ∷ s) = if eqb b 123 then wildcard else literal (b ∷ s)

-- The segments of a pattern's path, and whether it ends in a slash.
unfoldable pub parse_segments : List Bytes → List Segment × Bool
unfolding parse_segment
parse_segments [] = ([], false)
parse_segments ([] ∷ []) = ([], true)
parse_segments ((b ∷ s) ∷ []) = (parse_segment (b ∷ s) ∷ [], false)
parse_segments (part ∷ next ∷ parts) =
    let (segments, subtree) = parse_segments (next ∷ parts) in
    (parse_segment part ∷ segments, subtree)

abbrev pub tail_of : List Bytes → List Bytes
tail_of [] = []
tail_of (part ∷ parts) = parts

abbrev pub is_literal : Bytes → Segment → Bool
is_literal text (literal t) = t == text
is_literal text wildcard = false

abbrev pub is_wildcard : Segment → Bool
is_wildcard (literal t) = false
is_wildcard wildcard = true

unfoldable pub ends_in_slash : List Bytes → Bool
ends_in_slash [] = false
ends_in_slash (part ∷ []) = part == []
ends_in_slash (part ∷ next ∷ parts) = ends_in_slash (next ∷ parts)

module _ {H : Type 0} where
  -- mux.HandleFunc(method+" "+path, handler), or mux.HandleFunc(path, handler) if the method is empty.
  unfoldable pub handle : Bytes → Bytes → H → Registered H
  unfolding parse_segments split
  handle method path handler =
      let (segments, subtree) = parse_segments (tail_of (split 47 path)) in
      record {
        method = method;
        pattern = record {
          segments = segments;
          subtree = subtree;
          depth = length segments;
          handler = handler;
        };
      }

  -- The patterns whose next segment passes the test, without it.
  unfoldable pub after : (Segment → Bool) → List (Pattern H) → List (Pattern H)
  after test [] = []
  after test (p ∷ ps) =
      let others = after test ps in
      elim p.segments [
        | [] ↦ others
        | segment ∷ segments ↦
            if test segment then record p { segments = segments } ∷ others else others
      ]

  -- The pattern that ends here: one without, or one with a slash at its end.
  unfoldable pub ending : Bool → List (Pattern H) → Option (Pattern H)
  ending subtree [] = none
  ending subtree (p ∷ ps) =
      let others = ending subtree ps in
      elim p.segments [
        | [] ↦ if (subtree && p.subtree) || (not subtree && not p.subtree) then some p else others
        | segment ∷ segments ↦ others
      ]

  unfoldable pub matched_by : List Bytes → Option (Pattern H) → Option (Match H)
  matched_by wildcards none = none
  matched_by wildcards (some p) =
      some (record {
        handler = p.handler;
        wildcards = wildcards;
        subtree = p.subtree;
        depth = p.depth;
      })

  abbrev pub or_else : Option (Match H) → Option (Match H) → Option (Match H)
  or_else (some m) other = some m
  or_else none other = other

  -- The most specific pattern: a literal before a wildcard, and either before a subtree. A wildcard
  -- takes no empty segment.
  unfoldable pub match_path : List (Pattern H) → List Bytes → List Bytes → Option (Match H)
  unfolding after ending matched_by
  match_path ps wildcards [] = matched_by wildcards (ending false ps)
  match_path ps wildcards (part ∷ parts) =
      let by_literal = match_path (after (is_literal part) ps) wildcards parts in
      let by_wildcard = match_path (after is_wildcard ps) (wildcards ++ (part ∷ [])) parts in
      or_else by_literal
        (or_else (if part == [] then none else by_wildcard) (matched_by wildcards (ending true ps)))

  -- The patterns registered for a method.
  unfoldable pub for_method : Bytes → List (Registered H) → List (Pattern H)
  for_method method [] = []
  for_method method (r ∷ rs) =
      let others = for_method method rs in if r.method == method then r.pattern ∷ others else others

  -- The patterns of the method come first, for HEAD those of GET next, and those of any method last.
  unfoldable pub match_request : List (Registered H) → Bytes → List Bytes → Option (Match H)
  unfolding match_path for_method
  match_request rs method parts = or_else (match_path (for_method method rs) [] parts) (
      or_else
        (if method == ascii "HEAD" then match_path (for_method (ascii "GET") rs) [] parts else none)
        (match_path (for_method [] rs) [] parts))

  -- A match is exact unless a subtree takes more of the path than its slash.
  unfoldable pub is_exact : List Bytes → Option (Match H) → Bool
  is_exact parts none = false
  is_exact parts (some m) =
      not m.subtree || (ends_in_slash parts && eqb (m.depth + 1) (length parts))

  unfoldable pub choice_of : Option (Match H) → Choice H
  choice_of none = not_found
  choice_of (some m) = matched m.handler m.wildcards

  -- A path that has no exact match, and has one with a slash at its end, is redirected there.
  unfoldable pub choose : List (Registered H) → Bytes → List Bytes → Choice H
  unfolding match_request is_exact choice_of
  choose rs method parts =
      let found = match_request rs method parts in
      if is_exact parts found || ends_in_slash parts
      then choice_of found
      else if is_exact (parts ++ ([] ∷ [])) (match_request rs method (parts ++ ([] ∷ [])))
      then redirected
      else choice_of found

-- Neither empty nor `.` nor `..`.
abbrev pub is_plain_segment : Bytes → Bool
is_plain_segment part = not (part == [] || (part == ascii "." || part == ascii ".."))

-- A path that cleanPath leaves as it is: only its last segment may be empty.
unfoldable pub is_clean : List Bytes → Bool
unfolding ◌==◌
is_clean [] = true
is_clean (part ∷ []) = part == [] || is_plain_segment part
is_clean (part ∷ next ∷ parts) = is_plain_segment part && is_clean (next ∷ parts)

-- A path that is not clean is redirected, but for CONNECT. `escaped` are the segments as they stand in the
-- request, and `parts` the same unescaped.
unfoldable pub find_handler :
    {H : Type 0} → List (Registered H) → Bytes → List Bytes → List Bytes → Choice H
unfolding choose is_clean
find_handler rs method escaped parts =
    if method == ascii "CONNECT" || is_clean escaped then choose rs method parts else redirected

pub find_handler-is_clean :
    {H : Type 0} (rs : List (Registered H)) (method : Bytes) (escaped parts : List Bytes)
    → is_clean escaped ≡ true
    → find_handler rs method escaped parts ≡ choose rs method parts
unfolding find_handler
find_handler-is_clean rs method escaped parts h = ground (arith, h)
