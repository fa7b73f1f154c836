-- ===== src/ContainerSpec/Json/Value.antt =====
-- JSON values as trees, and how they are written. This is what the text of a request stands
-- for; the sources have no such type.
use pod_installer.Base.{Bool, List, [], ◌∷◌, ◌++◌, Bytes, text, if◌then◌else◌}
use pod_installer.Base.Int.{ℤ, int_to_string}
use pod_installer.ContainerSpec.Json.{json_byte}

-- the bytes between the quotes
abbrev pub escaped : Bytes → Bytes
escaped [] = []
escaped (c ∷ value) = json_byte c ++ escaped value

abbrev pub quoted : Bytes → Bytes
quoted value = b'"' ∷ (escaped value ++ b'"' ∷ [])

mutual
  pub data Json : Type 0 where
    string : Bytes → Json
    number : ℤ → Json
    boolean : Bool → Json
    array : Values → Json
    object : Members → Json

  pub data Values : Type 0 where
    no_values : Values
    value : Json → Values → Values

  pub data Members : Type 0 where
    no_members : Members
    member : Bytes → Json → Members → Members

unfoldable mutual
  pub print : Json → Bytes
  print (string s) = quoted s
  print (number n) = int_to_string n
  print (boolean b) = if b then text "true" else text "false"
  print (array vs) = b'[' ∷ (print_values vs ++ b']' ∷ [])
  print (object ms) = b'{' ∷ (print_members ms ++ b'}' ∷ [])

  pub print_values : Values → Bytes
  print_values no_values = []
  print_values (value v vs) = print v ++ print_more_values vs

  pub print_more_values : Values → Bytes
  print_more_values no_values = []
  print_more_values (value v vs) = b',' ∷ (print v ++ print_more_values vs)

  pub print_members : Members → Bytes
  print_members no_members = []
  print_members (member k v ms) = quoted k ++ b':' ∷ (print v ++ print_more_members ms)

  pub print_more_members : Members → Bytes
  print_more_members no_members = []
  print_more_members (member k v ms) =
      b',' ∷ (quoted k ++ b':' ∷ (print v ++ print_more_members ms))

-- the object with the members of a list
abbrev pub members : List (Bytes × Json) → Members
members [] = no_members
members ((k, v) ∷ fields) = member k v (members fields)

abbrev pub strings : List Bytes → Values
strings [] = no_values
strings (s ∷ ss) = value (string s) (strings ss)

abbrev pub string_members : List (Bytes × Bytes) → Members
string_members [] = no_members
string_members ((k, v) ∷ fields) = member k (string v) (string_members fields)
