-- ===== src/Base/Json.antt =====
-- What `JSON.parse` returns. A number is kept in billionths.
use Prim.Native.String.{String}
use mathlib.Core.Bool.{Bool, true, false}
use mathlib.Core.Option.{Option, none, some}
use text.Mathlib.Text.{◌==◌ as str_eq}
use open_fire_watch.Base.Tests.{if◌then◌else◌}
use open_fire_watch.Base.Int.{ℤ}

mutual
  pub data Json : Type 0 where
    null : Json
    boolean : Bool → Json
    number : ℤ → Json
    string : String → Json
    array : Items → Json
    object : Fields → Json

  pub data Items : Type 0 where
    nil : Items
    cons : Json → Items → Items

  pub data Fields : Type 0 where
    done : Fields
    field : String → Json → Fields → Fields

abbrev get_field : String → Fields → Option Json
get_field key done = none
get_field key (field name value rest) = if str_eq name key then some value else get_field key rest

-- `value?.key`; `none` is undefined.
abbrev pub get : String → Json → Option Json
get key (object fields) = get_field key fields
get key _ = none

-- `typeof value === 'number'`
abbrev pub is_number : Option Json → Bool
is_number (some (number n)) = true
is_number _ = false

-- `items[0]`
abbrev pub head : Items → Option Json
head nil = none
head (cons x xs) = some x
