-- ===== src/ContainerSpec/Json.antt =====
-- The JSON helpers of src/container_spec.cpp. Each appends to `out`.
pub mod Value
pub mod Escape
pub mod Writer
use pod_installer.Base.{
  ℕ, ◌+◌, ◌-◌, ◌/◌, ◌%◌, Bool, true, false, List, [], ◌∷◌, ◌++◌, Bytes, ltb, ◌==◌, if◌then◌else◌,
}
use pod_installer.Base.Maps.{Map}

-- one digit of `std::hex`
abbrev pub lower_hex_digit : ℕ → ℕ
lower_hex_digit d = if ltb d 10 then b'0' + d else b'a' + (d - 10)

abbrev pub backslashed : ℕ → Bytes
backslashed c = b'\\' ∷ c ∷ []

-- the switch of `append_json_string`; below 0x20 the four digits are 0, 0 and those of a byte
unfoldable pub json_byte : ℕ → Bytes
json_byte c =
    if c == b'"'
    then backslashed b'"'
    else if c == b'\\'
    then backslashed b'\\'
    else if c == 8
    then backslashed b'b'
    else if c == 12
    then backslashed b'f'
    else if c == b'\n'
    then backslashed b'n'
    else if c == b'\r'
    then backslashed b'r'
    else if c == b'\t'
    then backslashed b't'
    else if ltb c 0x20
    then b'\\' ∷ b'u' ∷ b'0' ∷ b'0' ∷ lower_hex_digit (c / 16) ∷ lower_hex_digit (c % 16) ∷ []
    else c ∷ []

pub json_bytes : Bytes → Bytes → Bytes
json_bytes out [] = out
json_bytes out (c ∷ value) = json_bytes (out ++ json_byte c) value

unfoldable pub append_json_string : Bytes → Bytes → Bytes
unfolding json_bytes json_byte
append_json_string out value = json_bytes (out ++ b'"' ∷ []) value ++ b'"' ∷ []

unfoldable pub json_string : Bytes → Bytes
unfolding append_json_string
json_string = append_json_string []

-- an object or an array being written, and the flag `first`
pub record Open : Type 0 where
  pub out : Bytes
  pub first : Bool

abbrev pub opened : ℕ → Open
opened bracket = record { out = bracket ∷ []; first = true }

-- `if (!first) out.push_back(',');`
abbrev pub separated : Open → Bytes
separated o = if o.first then o.out else o.out ++ b',' ∷ []

unfoldable pub append_field : Open → Bytes → Bytes → Open
append_field o name raw_value = record {
  out = append_json_string (separated o) name ++ b':' ∷ [] ++ raw_value;
  first = false;
}

-- the loops of `json_string_array` and `json_string_map`
pub array_loop : Open → List Bytes → Open
array_loop o [] = o
array_loop o (value ∷ values) =
    array_loop (record { out = append_json_string (separated o) value; first = false }) values

pub map_loop : Open → Map Bytes → Open
map_loop o [] = o
map_loop o ((key, value) ∷ values) =
    map_loop
      (record {
        out = append_json_string (append_json_string (separated o) key ++ b':' ∷ []) value;
        first = false;
      })
      values

unfoldable pub json_string_array : List Bytes → Bytes
unfolding array_loop append_json_string
json_string_array values = (array_loop (opened b'[') values).out ++ b']' ∷ []

unfoldable pub json_string_map : Map Bytes → Bytes
unfolding map_loop append_json_string
json_string_map values = (map_loop (opened b'{') values).out ++ b'}' ∷ []
