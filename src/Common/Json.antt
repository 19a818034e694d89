-- ===== src/Common/Json.antt =====
-- Parsed JSON, the code's `unknown`. Numbers are whole.
use vcknots.Common.{Bool, Option, String, if◌then◌else◌, none, some, ◌=ˢ◌}
use vcknots.Common.Int.{ℤ}

mutual
  pub data Json : Type 0 where
    null : Json
    bool : Bool → Json
    num : ℤ → Json
    str : String → Json
    arr : Items → Json
    obj : Fields → Json

  pub data Items : Type 0 where
    nil : Items
    item : Json → Items → Items

  pub data Fields : Type 0 where
    end : Fields
    field : String → Json → Fields → Fields

-- `value[k]` of an object; the parser keeps the last of two equal keys.
unfoldable pub member : String → Fields → Option Json
member k end = none
member k (field j v fs) = elim (member k fs) [
  | some w ↦ some w
  | none ↦ if j =ˢ k then some v else none
]

-- `typeof value === 'object'` and not null, not an array
abbrev pub as_object : Option Json → Option Fields
as_object (some (obj fs)) = some fs
as_object _ = none

-- `typeof value === 'object'` and not null: the members that an array has are not names.
abbrev pub object_members : Option Json → Option Fields
object_members (some (obj fs)) = some fs
object_members (some (arr _)) = some end
object_members _ = none
