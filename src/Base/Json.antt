-- ===== src/Base/Json.antt =====
-- pydantic's `JsonValue`. A number is kept by its literal text: the modelled code never computes
-- with one.
use Prim.Native.String.{String}
use mathlib.Core.Bool.{Bool, true, false}
use mathlib.Core.Option.{Option, none, some}

mutual
  pub data Json : Type 0 where
    null : Json
    bool : Bool → Json
    number : String → Json
    text : String → Json
    array : Items → Json
    object : Fields → Json

  pub data Items : Type 0 where
    nil : Items
    cons : Json → Items → Items

  pub data Fields : Type 0 where
    end : Fields
    field : String → Json → Fields → Fields

-- `not value`, of an optional object.
abbrev pub is_falsy : Option Fields → Bool
is_falsy none = true
is_falsy (some end) = true
is_falsy (some (field k v fs)) = false
