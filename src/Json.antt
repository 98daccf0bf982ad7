-- ===== src/Json.antt =====
-- The values of `serde_json` that the program tests and compares. An object's members stand in
-- the order of its map; a float is its bit pattern.
use postblox.Common.{
  ℕ, ◌^◌, Bool, true, false, ◌&&◌, ◌||◌, Option, none, some, List, [], ◌∷◌, ◌==◌, ltb,
  if◌then◌else◌, ℤ, pos, negsuc, is_some,
}
use postblox.Common.Text.{Text, text_eq}

pub data Number : Type 0 where
  pos_int neg_int float : ℕ → Number

mutual
  pub data Value : Type 0 where
    null : Value
    bool : Bool → Value
    number : Number → Value
    string : Text → Value
    array : Elements → Value
    object : Members → Value

  pub data Elements : Type 0 where
    nil : Elements
    cons : Value → Elements → Elements

  pub data Members : Type 0 where
    end : Members
    member : Text → Value → Members → Members

bool_eq : Bool → Bool → Bool
bool_eq true b = b
bool_eq false true = false
bool_eq false false = true

abbrev is_zero_float : ℕ → Bool
is_zero_float b = b == 0 || b == 2 ^ 63

-- Two floats are equal by value: no value is a NaN, and the two zeros are equal.
pub number_eq : Number → Number → Bool
number_eq (pos_int a) (pos_int b) = a == b
number_eq (neg_int a) (neg_int b) = a == b
number_eq (float a) (float b) = a == b || (is_zero_float a && is_zero_float b)
number_eq _ _ = false

-- `PartialEq` on values
unfoldable mutual
  unfolding bool_eq number_eq

  pub value_eq : Value → Value → Bool
  value_eq null null = true
  value_eq (bool a) (bool b) = bool_eq a b
  value_eq (number a) (number b) = number_eq a b
  value_eq (string a) (string b) = text_eq a b
  value_eq (array a) (array b) = elements_eq a b
  value_eq (object a) (object b) = members_eq a b
  value_eq _ _ = false

  pub elements_eq : Elements → Elements → Bool
  elements_eq nil nil = true
  elements_eq (cons v vs) (cons w ws) = value_eq v w && elements_eq vs ws
  elements_eq _ _ = false

  pub members_eq : Members → Members → Bool
  members_eq end end = true
  members_eq (member k v ms) (member j w ns) = text_eq k j && (value_eq v w && members_eq ms ns)
  members_eq _ _ = false

abbrev pub as_str : Value → Option Text
as_str (string s) = some s
as_str _ = none

abbrev pub as_object : Value → Option Members
as_object (object ms) = some ms
as_object _ = none

abbrev pub get : Text → Members → Option Value
get k end = none
get k (member j v ms) = if text_eq j k then some v else get k ms

abbrev pub members : Members → List (Text × Value)
members end = []
members (member k v ms) = (k, v) ∷ members ms

abbrev pub is_null : Value → Bool
is_null null = true
is_null _ = false

abbrev pub is_boolean : Value → Bool
is_boolean (bool b) = true
is_boolean _ = false

abbrev pub is_string : Value → Bool
is_string (string s) = true
is_string _ = false

abbrev pub as_bool : Value → Option Bool
as_bool (bool b) = some b
as_bool _ = none

abbrev pub as_array : Value → Option Elements
as_array (array es) = some es
as_array _ = none

abbrev pub elements : Elements → List Value
elements nil = []
elements (cons v vs) = v ∷ elements vs

-- `Value::as_i64`: a negative number is kept by its distance below -1.
abbrev pub as_i64 : Value → Option ℤ
as_i64 (number (pos_int n)) = if ltb n (2 ^ 63) then some (pos n) else none
as_i64 (number (neg_int n)) = some (negsuc n)
as_i64 _ = none

-- `Value::get` on any value
abbrev pub get_field : Text → Value → Option Value
get_field k (object ms) = get k ms
get_field k _ = none

abbrev pub contains_key : Text → Members → Bool
contains_key k ms = is_some (get k ms)

-- The order of texts, that of their code points
abbrev pub text_ltb : Text → Text → Bool
text_ltb s [] = false
text_ltb [] (d ∷ t) = true
text_ltb (c ∷ s) (d ∷ t) = ltb c d || (c == d && text_ltb s t)

-- `Map::insert`, whose map is a `BTreeMap`: keys ascend, and a value in place is replaced.
abbrev pub insert : Text → Value → Members → Members
insert k v end = member k v end
insert k v (member j w ms) =
    let rest = insert k v ms in
    if text_eq j k
    then member k v ms
    else if text_ltb k j
    then member k v (member j w ms)
    else member j w rest
