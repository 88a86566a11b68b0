-- ===== src/Slug.antt =====
-- internal/slug/slug.go: which names a clip may have.
pub mod Rules
mod Tests
use go_clipboard.Base.{
  ℕ, Bool, true, false, ◌&&◌, ◌||◌, not, List, [], ◌∷◌, String, Option, none, some, Bytes, ascii,
  ◌==◌, ltb, leb, eqb, all, length, if◌then◌else◌,
}

abbrev pub min_length : ℕ
min_length = 3

abbrev pub max_length : ℕ
max_length = 64

-- One byte of the class [a-zA-Z0-9_-].
unfoldable pub in_class : ℕ → Bool
in_class c =
    leb b'a' c && leb c b'z'
    || leb b'A' c && leb c b'Z'
    || leb b'0' c && leb c b'9'
    || eqb c b'_'
    || eqb c b'-'

-- `pattern.MatchString`: the class, once or more, from the first byte to the last.
unfoldable pub match_pattern : Bytes → Bool
match_pattern [] = false
match_pattern (c ∷ s) = in_class c && all in_class s

abbrev pub reserved : List Bytes
reserved = ascii "status" ∷ []

pub record ValidationError : Type 0 where
  pub code : String
  pub message : String

-- The loop of `IsReserved` over the reserved names.
unfoldable pub is_reserved_in : List Bytes → Bytes → Bool
is_reserved_in [] slug = false
is_reserved_in (name ∷ names) slug = if slug == name then true else is_reserved_in names slug

unfoldable pub is_reserved : Bytes → Bool
unfolding is_reserved_in
is_reserved slug = is_reserved_in reserved slug

abbrev pub bad_length : ValidationError
bad_length = record { code = "invalid_slug"; message = "slug must be 3–64 characters" }

abbrev pub bad_charset : ValidationError
bad_charset = record {
  code = "invalid_slug";
  message = "slug may only contain letters, digits, underscore, and hyphen";
}

abbrev pub reserved_name : ValidationError
reserved_name = record { code = "reserved_slug"; message = "that name is reserved" }

-- `none` is the nil error.
unfoldable pub validate : Bytes → Option ValidationError
validate slug =
    if ltb (length slug) min_length || ltb max_length (length slug)
    then some bad_length
    else if not (match_pattern slug)
    then some bad_charset
    else if is_reserved slug
    then some reserved_name
    else none
