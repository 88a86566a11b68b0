-- ===== src/Http/Server/Tables.antt =====
-- internal/httpapi/server.go: the registered patterns, matched one method at a time.
use go_clipboard.Base.{
  ℕ, ◌+◌, ◌≡◌, refl, subst, ◌∙◌, inl, inr, true, false, Bytes, ascii, ◌==◌, ==_iff, List, [], ◌∷◌,
  Option, none, some, if◌then◌else◌, arith, Bool-cases, length, All,
}
use go_clipboard.Http.Mux.{
  Segment, literal, wildcard, Pattern, Match, after, ending, matched_by, match_path, is_literal,
}
use go_clipboard.Http.Mux.Depth.{IsShort, match_path-IsShort, match_path-none, match_path-some}
use go_clipboard.Http.Server.{
  health, create, read, availability, Target, endpoint, method_not_allowed, api_fallback,
  get_method, head_method,
}

abbrev pub api : Bytes
api = ascii "api"

abbrev pub clips : Bytes
clips = ascii "clips"

-- The parts of the site, as the paths name them.
pub data Page : Type 0 where
  health_page clips_page : Page
  clip_page hint_page : Bytes → Page
  bare_api other_api outside : Page

-- A page below /api/, from the segments after it.
unfoldable pub api_page : List Bytes → Page
api_page [] = bare_api
api_page (a ∷ []) =
    if ascii "health" == a then health_page else if clips == a then clips_page else other_api
api_page (a ∷ b ∷ []) =
    if clips == a then (if b == [] then other_api else clip_page b) else other_api
api_page (a ∷ b ∷ c ∷ []) =
    if clips == a
    then (if b == []
        then other_api
        else if ascii "availability" == c
        then hint_page b
        else other_api)
    else other_api
api_page (a ∷ b ∷ c ∷ d ∷ parts) = other_api

unfoldable pub page_of : List Bytes → Page
page_of [] = outside
page_of (a ∷ parts) = if api == a then api_page parts else outside

abbrev pub found : {H : Type 0} → H → List Bytes → ℕ → Option (Match H)
found h wildcards depth =
    some (record { handler = h; wildcards = wildcards; subtree = false; depth = depth })

-- The patterns of GET.
abbrev pub get_patterns : List (Pattern Target)
get_patterns =
    record {
      segments = literal api ∷ literal (ascii "health") ∷ [];
      subtree = false;
      depth = 2;
      handler = endpoint health;
    }
    ∷ record {
      segments = literal api ∷ literal clips ∷ wildcard ∷ [];
      subtree = false;
      depth = 3;
      handler = endpoint read;
    }
    ∷ record {
      segments = literal api ∷ literal clips ∷ wildcard ∷ literal (ascii "availability") ∷ [];
      subtree = false;
      depth = 4;
      handler = endpoint availability;
    }
    ∷ []

unfoldable pub get_table : Page → Option (Match Target)
get_table health_page = found (endpoint health) [] 2
get_table (clip_page slug) = found (endpoint read) (slug ∷ []) 3
get_table (hint_page slug) = found (endpoint availability) (slug ∷ []) 4
get_table clips_page = none
get_table bare_api = none
get_table other_api = none
get_table outside = none

pub health-ne-clips : (b : Bytes) → (ascii "health" == b) ≡ true → (clips == b) ≡ false
unfolding ◌==◌
health-ne-clips b h = rw (← (==_iff (ascii "health") b).0 h) refl

pub match-get : (parts : List Bytes) → match_path get_patterns [] parts ≡ get_table (page_of parts)
unfolding match_path page_of api_page get_table
match-get [] = refl
match-get (a ∷ []) = ground arith
match-get (a ∷ b ∷ []) = ground arith
match-get (a ∷ b ∷ c ∷ []) = ground arith
match-get (a ∷ b ∷ c ∷ d ∷ []) = ground arith
match-get (a ∷ b ∷ c ∷ d ∷ e ∷ parts) =
    match_path-IsShort get_patterns [] (a ∷ b ∷ c ∷ d ∷ e ∷ parts)
      ((refl, omega arith), ((refl, omega arith), ((refl, omega arith), tt)))
    ∙ ground arith

-- The pattern of POST.
abbrev pub post_patterns : List (Pattern Target)
post_patterns =
    record {
      segments = literal api ∷ literal clips ∷ [];
      subtree = false;
      depth = 2;
      handler = endpoint create;
    }
    ∷ []

unfoldable pub post_table : Page → Option (Match Target)
post_table clips_page = found (endpoint create) [] 2
post_table health_page = none
post_table (clip_page slug) = none
post_table (hint_page slug) = none
post_table bare_api = none
post_table other_api = none
post_table outside = none

pub match-post :
    (parts : List Bytes) → match_path post_patterns [] parts ≡ post_table (page_of parts)
unfolding match_path page_of api_page post_table
match-post [] = refl
match-post (a ∷ []) = ground arith
match-post (a ∷ b ∷ []) = ground (arith, health-ne-clips b)
match-post (a ∷ b ∷ c ∷ []) =
    match_path-IsShort post_patterns [] (a ∷ b ∷ c ∷ []) ((refl, omega arith), tt) ∙ ground arith
match-post (a ∷ b ∷ c ∷ d ∷ []) =
    match_path-IsShort post_patterns [] (a ∷ b ∷ c ∷ d ∷ []) ((refl, omega arith), tt)
    ∙ ground arith
match-post (a ∷ b ∷ c ∷ d ∷ e ∷ parts) =
    match_path-IsShort post_patterns [] (a ∷ b ∷ c ∷ d ∷ e ∷ parts) ((refl, omega arith), tt)
    ∙ ground arith

abbrev pub get_head : List Bytes
get_head = get_method ∷ head_method ∷ []

abbrev pub refusal : List Bytes → List Segment → ℕ → Pattern Target
refusal methods segments depth = record {
  segments = segments;
  subtree = false;
  depth = depth;
  handler = method_not_allowed methods;
}

-- The patterns below /api/ that have no method.
abbrev below_api : List (Pattern Target)
below_api =
    refusal get_head (literal (ascii "health") ∷ []) 2
    ∷ refusal (ascii "POST" ∷ []) (literal clips ∷ []) 2
    ∷ refusal get_head (literal clips ∷ wildcard ∷ []) 3
    ∷ refusal get_head (literal clips ∷ wildcard ∷ literal (ascii "availability") ∷ []) 4
    ∷ record { segments = []; subtree = true; depth = 1; handler = api_fallback }
    ∷ []

abbrev pub any_patterns : Target → List (Pattern Target)
any_patterns root =
    refusal get_head (literal api ∷ literal (ascii "health") ∷ []) 2
    ∷ refusal (ascii "POST" ∷ []) (literal api ∷ literal clips ∷ []) 2
    ∷ refusal get_head (literal api ∷ literal clips ∷ wildcard ∷ []) 3
    ∷ refusal get_head
        (literal api ∷ literal clips ∷ wildcard ∷ literal (ascii "availability") ∷ []) 4
    ∷ record { segments = literal api ∷ []; subtree = true; depth = 1; handler = api_fallback }
    ∷ record { segments = []; subtree = true; depth = 0; handler = root }
    ∷ []

abbrev pub in_subtree : Target → ℕ → Option (Match Target)
in_subtree h depth = some (record { handler = h; wildcards = []; subtree = true; depth = depth })

-- A path outside /api/, and /api itself, have only the pattern of the root.
unfoldable pub any_table : Target → Page → Option (Match Target)
any_table root health_page = found (method_not_allowed get_head) [] 2
any_table root clips_page = found (method_not_allowed (ascii "POST" ∷ [])) [] 2
any_table root (clip_page slug) = found (method_not_allowed get_head) (slug ∷ []) 3
any_table root (hint_page slug) = found (method_not_allowed get_head) (slug ∷ []) 4
any_table root other_api = in_subtree api_fallback 1
any_table root bare_api = in_subtree root 0
any_table root outside = in_subtree root 0

-- Below /api/, a path of four segments or more after it is matched by the subtree alone.
after_below-IsShort : (n : ℕ) (b : Bytes) → All (IsShort (n + 3)) (after (is_literal b) below_api)
unfolding after
after_below-IsShort n b = elim (Bool-cases (ascii "health" == b)) [
  | inl h ↦ rw (h, health-ne-clips b h) ((refl, omega arith), tt)
  | inr h ↦ elim (Bool-cases (clips == b)) [
    | inl k ↦ rw (h, k) ((refl, omega arith), ((refl, omega arith), ((refl, omega arith), tt)))
    | inr k ↦ rw (h, k) tt
  ]
]

match-below :
    (b c d e : Bytes) (parts : List Bytes)
    → match_path below_api [] (b ∷ c ∷ d ∷ e ∷ parts) ≡ in_subtree api_fallback 1
unfolding after ending matched_by
match-below b c d e parts =
    match_path-none below_api [] b (c ∷ d ∷ e ∷ parts)
      (match_path-IsShort (after (is_literal b) below_api) [] (c ∷ d ∷ e ∷ parts) (
        subst (λ n. All (IsShort n) (after (is_literal b) below_api)) (omega arith)
          (after_below-IsShort (length parts) b)))
      (match_path-IsShort [] (b ∷ []) (c ∷ d ∷ e ∷ parts) tt)

match_long :
    (root : Target) (a b c d e : Bytes) (parts : List Bytes)
    → match_path (any_patterns root) [] (a ∷ b ∷ c ∷ d ∷ e ∷ parts)
      ≡ (if api == a then in_subtree api_fallback 1 else in_subtree root 0)
unfolding after ending matched_by
match_long root a b c d e parts = elim (Bool-cases (api == a)) [
  | inl inside ↦
      match_path-some (any_patterns root) [] a (b ∷ c ∷ d ∷ e ∷ parts)
        (record { handler = api_fallback; wildcards = []; subtree = true; depth = 1 })
        (rw (inside, after) (match-below b c d e parts))
      ∙ rw inside refl
  | inr apart ↦
      match_path-none (any_patterns root) [] a (b ∷ c ∷ d ∷ e ∷ parts)
        (rw (apart, after) (match_path-IsShort [] [] (b ∷ c ∷ d ∷ e ∷ parts) tt))
        (match_path-IsShort [] (a ∷ []) (b ∷ c ∷ d ∷ e ∷ parts) tt)
      ∙ rw apart refl
]

pub match-any :
    (root : Target) (a : Bytes) (parts : List Bytes)
    → match_path (any_patterns root) [] (a ∷ parts) ≡ any_table root (page_of (a ∷ parts))
unfolding match_path page_of api_page any_table
match-any root a [] = ground arith
match-any root a (b ∷ []) = ground arith
match-any root a (b ∷ c ∷ []) = ground arith
match-any root a (b ∷ c ∷ d ∷ []) = ground arith
match-any root a (b ∷ c ∷ d ∷ e ∷ parts) = match_long root a b c d e parts ∙ ground arith
