-- ===== src/Json.antt =====
-- JSON values as encoding/json reads and writes them for internal/httpapi and internal/openapi. A number is
-- an integer if its literal is one.
pub mod Schema
use go_clipboard.Base.{Bool, Bytes, ◌==◌, ℤ, Option, none, some, if◌then◌else◌}

mutual
  pub data Json : Type 0 where
    null : Json
    boolean : Bool → Json
    integer : ℤ → Json
    fraction : Json
    text : Bytes → Json
    array : Elements → Json
    object : Members → Json

  pub data Elements : Type 0 where
    no_elements : Elements
    element : Json → Elements → Elements

  pub data Members : Type 0 where
    no_members : Members
    member : Bytes → Json → Members → Members

-- The value of the first member of a name.
unfoldable pub find : Bytes → Members → Option Json
find name no_members = none
find name (member key value members) = if key == name then some value else find name members

-- A field that is left out if its pointer is nil: omitempty.
abbrev pub optional : Bytes → Option Json → Members → Members
optional name none members = members
optional name (some value) members = member name value members
