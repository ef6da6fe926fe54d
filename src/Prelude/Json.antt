-- ===== src/Prelude/Json.antt =====
-- Values that `json.loads` gives, and Python's `str(x or "")` of one.
use Prim.Native.String.{String}
use mathlib.Core.Bool.{Bool, true, false, not}
use mathlib.Core.Option.{Option, none, some}
use mathlib.Core.List.{List, [], ◌∷◌}
use text.Mathlib.Text.{◌==◌}
use breach_scope.Prelude.Tests.{if◌then◌else◌}

-- `zero` is a number that is false as a test, `number` another one, by its text.
mutual
  pub data Value : Type 0 where
    null : Value
    boolean : Bool → Value
    zero : String → Value
    number : String → Value
    string : String → Value
    array : Items → Value
    object : Fields → Value

  pub data Items : Type 0 where
    nil : Items
    cons : Value → Items → Items

  pub data Fields : Type 0 where
    end : Fields
    field : String → Value → Fields → Fields

unfoldable pub list_of : Items → List Value
list_of nil = []
list_of (cons v vs) = v ∷ list_of vs

-- d.get(key), and None is given for a missing key
unfoldable pub get : String → Fields → Value
get key end = null
get key (field k v rest) = let later = get key rest in if k == key then v else later

-- key in d
unfoldable pub has_key : String → Fields → Bool
has_key key end = false
has_key key (field k v rest) = let later = has_key key rest in if k == key then true else later

-- isinstance(value, Mapping)
unfoldable pub as_object : Value → Option Fields
as_object (object fs) = some fs
as_object v = none

-- bool(value)
unfoldable pub truthy : Value → Bool
truthy null = false
truthy (boolean b) = b
truthy (zero n) = false
truthy (number n) = true
truthy (string s) = not (s == "")
truthy (array nil) = false
truthy (array (cons v vs)) = true
truthy (object end) = false
truthy (object (field k v fs)) = true

-- str(value); `repr` is the interpreter's text of a list or a dict
unfoldable pub str : (repr : Value → String) → Value → String
str repr null = "None"
str repr (boolean true) = "True"
str repr (boolean false) = "False"
str repr (zero n) = n
str repr (number n) = n
str repr (string s) = s
str repr (array vs) = repr (array vs)
str repr (object fs) = repr (object fs)

-- str(value or "")
unfoldable pub str_or_empty : (repr : Value → String) → Value → String
unfolding truthy str
str_or_empty repr v = if truthy v then str repr v else ""

-- fields.pop(key, None)
unfoldable pub pop_field : String → Fields → Fields
pop_field key end = end
pop_field key (field k v rest) =
    let later = pop_field key rest in if k == key then rest else field k v later

-- fields[key] = value
unfoldable pub set_field : String → Value → Fields → Fields
set_field key value end = field key value end
set_field key value (field k v rest) =
    let later = set_field key value rest in if k == key then field k value rest else field k v later
