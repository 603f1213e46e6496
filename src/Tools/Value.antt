-- ===== src/Tools/Value.antt =====
-- Decoded JSON, the `interface{}` values that a tool call and a critique hold. A number is the
-- integer that the code converts it to.
use animus_coder.Base.{Bool, Option, none, some, Text, Dict, ℤ}

mutual
  pub data Value : Type 0 where
    null : Value
    boolean : Bool → Value
    number : ℤ → Value
    string : Text → Value
    array : Values → Value
    object : Members → Value

  pub data Values : Type 0 where
    no_values : Values
    item : Value → Values → Values

  pub data Members : Type 0 where
    no_members : Members
    member : Text → Value → Members → Members

abbrev pub Args : Type 0
Args = Dict Value

-- `s, _ := v.(string)` for a missing key too: the zero value is the empty text.
abbrev pub string_of : Option Value → Option Text
string_of (some (string s)) = some s
string_of _ = none

abbrev pub bool_of : Option Value → Option Bool
bool_of (some (boolean b)) = some b
bool_of _ = none

abbrev pub number_of : Option Value → Option ℤ
number_of (some (number n)) = some n
number_of _ = none

abbrev pub array_of : Option Value → Option Values
array_of (some (array vs)) = some vs
array_of _ = none
