-- ===== src/Json/Schema.antt =====
-- The schemas of docs/api/openapi.yaml, and what it is to conform to one. The document leaves open what
-- other members an object has; here an object that conforms has none.
use go_clipboard.Base.{
  Bool, true, false, not, ◌&&◌, ◌||◌, Bytes, ◌==◌, List, [], ◌∷◌, Option, none, some, ℤ, eqb_ℤ,
}
use go_clipboard.Json.{Json, boolean, integer, text, object, Members, no_members, member, find}

mutual
  pub data Schema : Type 0 where
    any_text date_time any_boolean any_integer : Schema
    one_of : List Bytes → Schema
    one_integer_of : List ℤ → Schema
    structure : Properties → Schema

  -- A name, whether it is required, and its schema.
  pub data Properties : Type 0 where
    no_properties : Properties
    property : Bytes → Bool → Schema → Properties → Properties

abbrev pub is_in : Bytes → List Bytes → Bool
is_in s [] = false
is_in s (t ∷ texts) = t == s || is_in s texts

abbrev pub is_in_ℤ : ℤ → List ℤ → Bool
is_in_ℤ z [] = false
is_in_ℤ z (n ∷ numbers) = eqb_ℤ z n || is_in_ℤ z numbers

unfoldable pub is_declared_name : Bytes → Properties → Bool
is_declared_name key no_properties = false
is_declared_name key (property name required schema rest) = name == key || is_declared_name key rest

-- Every member has a declared name.
unfoldable pub is_closed : Members → Properties → Bool
unfolding is_declared_name
is_closed no_members declared = true
is_closed (member key value members) properties =
    is_declared_name key properties && is_closed members properties

-- A value that is required is there, and one that is there passes the test.
abbrev pub is_met : Bool → (Json → Bool) → Option Json → Bool
is_met required test none = not required
is_met required test (some value) = test value

-- `is_date_time` says which texts have the format date-time.
module _ (is_date_time : Bytes → Bool) where
  unfoldable mutual
    unfolding is_closed find

    pub conforms : Schema → Json → Bool
    conforms any_text (text s) = true
    conforms date_time (text s) = is_date_time s
    conforms any_boolean (boolean b) = true
    conforms any_integer (integer z) = true
    conforms (one_of texts) (text s) = is_in s texts
    conforms (one_integer_of numbers) (integer z) = is_in_ℤ z numbers
    conforms (structure properties) (object members) =
        conforms_all properties members && is_closed members properties
    conforms _ value = false

    -- Every required property is there, and those that are there conform.
    pub conforms_all : Properties → Members → Bool
    conforms_all no_properties ms = true
    conforms_all (property name required schema rest) members =
        is_met required (conforms schema) (find name members) && conforms_all rest members
