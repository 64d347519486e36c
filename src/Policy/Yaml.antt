-- ===== src/Policy/Yaml.antt =====
-- The values that `yaml.safe_load` gives, and what Python's tests and conversions say of them.
use openmux_server.Base.{
  Bool, true, false, Option, none, some, List, [], ◌∷◌, Text, codes, same, ◌==◌, decimal, ◌++◌,
  if◌then◌else◌, ◌+◌,
}
use openmux_server.Capacity.Integer.{ℤ, pos, negsuc}

-- A float has its truth value and its `int()`, which fails on infinities. Keys are texts.
mutual
  pub data Value : Type 0 where
    null : Value
    boolean : Bool → Value
    integer : ℤ → Value
    float : Bool → Option ℤ → Value
    text : Text → Value
    list : Items → Value
    mapping : Fields → Value

  pub data Items : Type 0 where
    no_item : Items
    item : Value → Items → Items

  pub data Fields : Type 0 where
    no_field : Fields
    field : Text → Value → Fields → Fields

abbrev pub values : Items → List Value
values no_item = []
values (item v vs) = v ∷ values vs

abbrev pub keys : Fields → List Text
keys no_field = []
keys (field k v d) = k ∷ keys d

-- `d.get(key)`, and none for a missing key.
unfoldable pub get : Text → Fields → Option Value
get k no_field = none
get k (field j v d) = if same j k then some v else get k d

abbrev is_zero : ℤ → Bool
is_zero (pos n) = n == 0
is_zero (negsuc n) = false

-- `bool(v)`
unfoldable pub is_truthy : Value → Bool
is_truthy null = false
is_truthy (boolean b) = b
is_truthy (integer n) = if is_zero n then false else true
is_truthy (float b n) = b
is_truthy (text []) = false
is_truthy (text (c ∷ s)) = true
is_truthy (list no_item) = false
is_truthy (list (item v vs)) = true
is_truthy (mapping no_field) = false
is_truthy (mapping (field k v d)) = true

abbrev show_integer : ℤ → Text
show_integer (pos n) = decimal n
show_integer (negsuc n) = codes "-" ++ decimal (n + 1)

-- `str(v)`; of a float and of a collection it is the interpreter's `repr`.
unfoldable pub str : (Value → Text) → Value → Text
unfolding decimal
str repr null = codes "None"
str repr (boolean true) = codes "True"
str repr (boolean false) = codes "False"
str repr (integer n) = show_integer n
str repr (text s) = s
str repr (float b n) = repr (float b n)
str repr (list vs) = repr (list vs)
str repr (mapping d) = repr (mapping d)
