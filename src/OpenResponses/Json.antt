-- ===== src/OpenResponses/Json.antt =====
-- What encoding/json makes of a text that it reads into an `any`, and how client.go looks into it.
use pyttechat.Base.{Bool, false, Option, none, some, [], ℤ, pos, Bytes, if◌then◌else◌}
use pyttechat.Text.{eq_bytes}

-- A number is what int() makes of the float64. A map is its entries, of which the first with a key
-- counts; nil and the empty map are one value.
mutual
  pub data Value : Type 0 where
    null : Value
    boolean : Bool → Value
    number : ℤ → Value
    string : Bytes → Value
    array : Values → Value
    object : Map → Value

  pub data Values : Type 0 where
    no_values : Values
    value : Value → Values → Values

  pub data Map : Type 0 where
    no_keys : Map
    key : Bytes → Value → Map → Map

-- payload[name]
unfoldable pub get : Map → Bytes → Value
get no_keys name = null
get (key k v rest) name = let later = get rest name in if eq_bytes k name then v else later

-- The value with `, ok` dropped: value, _ := v.(string)
abbrev pub as_string : Value → Bytes
as_string (string s) = s
as_string _ = []

-- value, _ := v.(map[string]any)
abbrev pub as_map : Value → Map
as_map (object m) = m
as_map _ = no_keys

-- value, ok := v.(map[string]any)
abbrev pub to_map : Value → Option Map
to_map (object m) = some m
to_map _ = none

-- value, ok := v.([]any), where the code does nothing for !ok and for the empty slice
abbrev pub as_values : Value → Values
as_values (array vs) = vs
as_values _ = no_values

-- v == s, for a string s
abbrev pub is_string : Value → Bytes → Bool
is_string (string t) s = eq_bytes t s
is_string _ s = false

-- stringField
unfoldable pub string_field : Map → Bytes → Bytes
unfolding get
string_field payload name = as_string (get payload name)

abbrev as_int : Value → ℤ
as_int (number n) = n
as_int _ = pos 0

-- intField
unfoldable pub int_field : Map → Bytes → ℤ
unfolding get
int_field payload name = as_int (get payload name)
