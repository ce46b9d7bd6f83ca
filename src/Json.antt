-- ===== src/Json.antt =====
-- The values that `JSON.parse` returns. The source's tests on numbers ask for integers and compare
-- them with non-negative ones, so a number is a natural, a negative integer or no integer at all.
pub mod Order
pub mod Objects
pub mod Entries
use trominal.Shared.{ℕ, Bool, Option, none, some, List, [], ◌∷◌, Text, text_eq, if◌then◌else◌}

pub data Number : Type 0 where
  nat : ℕ → Number
  -- `negative n` is -(n + 1).
  negative : ℕ → Number
  fraction : Number

mutual
  pub data Value : Type 0 where
    null : Value
    boolean : Bool → Value
    number : Number → Value
    string : Text → Value
    array : Items → Value
    object : Fields → Value

  pub data Items : Type 0 where
    nil : Items
    cons : Value → Items → Items

  pub data Fields : Type 0 where
    end : Fields
    field : Text → Value → Fields → Fields

-- `Object.keys`
unfoldable pub keys : Fields → List Text
keys end = []
keys (field k v fs) = k ∷ keys fs

-- `v[key]`, `undefined` as `none`
unfoldable pub get : Text → Fields → Option Value
get key end = none
get key (field k v fs) = if text_eq k key then some v else get key fs

abbrev pub items : Items → List Value
items nil = []
items (cons v vs) = v ∷ items vs

-- `typeof value === 'string' ? value : ''`
abbrev pub string_value : Option Value → Text
string_value (some (string s)) = s
string_value _ = []

abbrev pub as_object : Value → Option Fields
as_object (object fs) = some fs
as_object _ = none

-- `v[key] = value`: in place, or at the end.
unfoldable pub put : Text → Value → Fields → Fields
put key value end = field key value end
put key value (field k v fs) =
    let rest = put key value fs in if text_eq k key then field k value fs else field k v rest
