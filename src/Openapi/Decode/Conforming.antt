-- ===== src/Openapi/Decode/Conforming.antt =====
-- docs/api/openapi.yaml against internal/httpapi/clips.go: the requests that the document describes are decoded.
use go_clipboard.Base.{
  ◌≡◌, refl, ap, sym, ◌∙◌, inl, inr, Bool, true, false, ◌&&◌, ◌||◌, Bytes, ◌==◌, ==_iff, [], ◌∷◌,
  pos, Option, none, some, Option-cases, Bool-cases, arith, if◌then◌else◌,
}
use go_clipboard.Json.{Json, integer, text, Members, no_members, member, find}
use go_clipboard.Json.Schema.{is_in_ℤ}
use go_clipboard.Openapi.Decode.{body_name, slug_name, ttl_name}

-- No two members have one name.
unfoldable pub is_unique : Members → Bool
unfolding find
is_unique no_members = true
is_unique (member key v members) = elim (find key members) [
  | none ↦ is_unique members
  | some other ↦ false
]

abbrev pub is_text : Json → Bool
is_text (text s) = true
is_text v = false

abbrev pub is_lifetime : Json → Bool
is_lifetime (integer z) = is_in_ℤ z (pos 600 ∷ pos 3600 ∷ pos 7200 ∷ [])
is_lifetime v = false

abbrev pub passes : (Json → Bool) → Option Json → Bool
passes test none = true
passes test (some v) = test v

pub unique_cases :
    (key : Bytes) (v : Json) (members : Members)
    → is_unique (member key v members) ≡ true
    → (find key members ≡ none) × (is_unique members ≡ true)
unfolding is_unique
unique_cases key v members h = elim (Option-cases (find key members)) [
  | inl alone ↦ (alone, ground (arith, h, alone))
  | inr (other, twice) ↦ absurd (ground (arith, h, twice))
]

passes-tail :
    (test : Json → Bool) (name key : Bytes) (v : Json) (members : Members)
    → find key members ≡ none
    → passes test (find name (member key v members)) ≡ true
    → passes test (find name members) ≡ true
unfolding find
passes-tail test name key v members alone h = elim (Bool-cases (key == name)) [
  | inl same ↦ ap (passes test) (ap (λ x. find x members) (sym ((==_iff key name).0 same)) ∙ alone)
  | inr other ↦ ground (arith, h, other)
]

passes-head :
    (test : Json → Bool) (name key : Bytes) (v : Json) (members : Members)
    → (key == name) ≡ true
    → passes test (find name (member key v members)) ≡ true
    → test v ≡ true
unfolding find
passes-head test name key v others same h = ground (arith, h, same)

-- A member as the document has it.
abbrev pub is_documented : Bytes → Json → Bool
is_documented key v =
    if key == body_name
    then is_text v
    else if key == slug_name
    then is_text v
    else key == ttl_name && is_lifetime v

unfoldable pub all_documented : Members → Bool
all_documented no_members = true
all_documented (member key v members) = is_documented key v && all_documented members

abbrev pub is_known : Bytes → Bool
is_known key = key == body_name || key == slug_name || key == ttl_name

unfoldable pub all_known : Members → Bool
all_known no_members = true
all_known (member key v members) = is_known key && all_known members

pub is_documented_lem :
    (key : Bytes) (v : Json)
    → is_known key ≡ true
    → ((key == body_name) ≡ true → is_text v ≡ true)
    → ((key == slug_name) ≡ true → is_text v ≡ true)
    → ((key == ttl_name) ≡ true → is_lifetime v ≡ true)
    → is_documented key v ≡ true
is_documented_lem key v known body slug ttl = elim (Bool-cases (key == body_name)) [
  | inl b ↦ rw (b, body b) refl
  | inr nb ↦ elim (Bool-cases (key == slug_name)) [
    | inl s ↦ rw (nb, s, slug s) refl
    | inr ns ↦ elim (Bool-cases (key == ttl_name)) [
      | inl t ↦ rw (nb, ns, t, ttl t) refl
      | inr nt ↦ absurd (ground (arith, known, nb, ns, nt))
    ]
  ]
]

pub all_documented_lem :
    (members : Members)
    → is_unique members ≡ true
    → all_known members ≡ true
    → passes is_text (find body_name members) ≡ true
    → passes is_text (find slug_name members) ≡ true
    → passes is_lifetime (find ttl_name members) ≡ true
    → all_documented members ≡ true
unfolding all_documented all_known
all_documented_lem no_members unique known body slug ttl = refl
all_documented_lem (member key v members) unique known body slug ttl =
    let (alone, rest) = unique_cases key v members unique in
    let here =
      is_documented_lem key v (ground (arith, known))
        (λ same. passes-head is_text body_name key v members same body)
        (λ same. passes-head is_text slug_name key v members same slug)
        (λ same. passes-head is_lifetime ttl_name key v members same ttl) in
    rw here (
      all_documented_lem members rest (ground (arith, known))
        (passes-tail is_text body_name key v members alone body)
        (passes-tail is_text slug_name key v members alone slug)
        (passes-tail is_lifetime ttl_name key v members alone ttl))
