-- ===== src/ContainerSpec/Json/Writer.antt =====
-- The writers with their flag `first` print JSON values.
use pod_installer.Base.{
  false, List, [], ◌∷◌, ◌++◌, ◌≡◌, refl, sym, ◌∙◌, Bytes, is_empty, append_assoc, append-nil,
}
use pod_installer.ContainerSpec.Json.{
  Open, opened, append_field, append_json_string, array_loop, map_loop, json_string_array,
  json_string_map,
}
use pod_installer.ContainerSpec.Json.Value.{
  Json, array, object, quoted, print, print_values, print_more_values, print_members,
  print_more_members, members, strings, string_members,
}
use pod_installer.ContainerSpec.Json.Escape.{append_json_string-quoted}

array_loop-more :
    (values : List Bytes) (out : Bytes)
    → (array_loop (record { out = out; first = false }) values).out
      ≡ out ++ print_more_values (strings values)
unfolding array_loop print_more_values
array_loop-more [] out = sym (append-nil out)
array_loop-more (v ∷ values) out =
    array_loop-more values (append_json_string (out ++ b',' ∷ []) v)
    ∙ simp (append_json_string-quoted, append_assoc)

array_loop-print :
    (values : List Bytes)
    → (array_loop (opened b'[') values).out ≡ b'[' ∷ print_values (strings values)
unfolding array_loop print_values
array_loop-print [] = refl
array_loop-print (v ∷ values) =
    array_loop-more values (append_json_string (b'[' ∷ []) v)
    ∙ simp (append_json_string-quoted, append_assoc)

pub json_string_array-print :
    (values : List Bytes) → json_string_array values ≡ print (array (strings values))
unfolding json_string_array print
json_string_array-print values = rw array_loop-print

map_loop-more :
    (fields : List (Bytes × Bytes)) (out : Bytes)
    → (map_loop (record { out = out; first = false }) fields).out
      ≡ out ++ print_more_members (string_members fields)
unfolding map_loop print_more_members
map_loop-more [] out = sym (append-nil out)
map_loop-more ((k, v) ∷ fields) out =
    map_loop-more fields _ ∙ simp (append_json_string-quoted, append_assoc)

map_loop-print :
    (fields : List (Bytes × Bytes))
    → (map_loop (opened b'{') fields).out ≡ b'{' ∷ print_members (string_members fields)
unfolding map_loop print_members
map_loop-print [] = refl
map_loop-print ((k, v) ∷ fields) =
    map_loop-more fields _ ∙ simp (append_json_string-quoted, append_assoc)

pub json_string_map-print :
    (fields : List (Bytes × Bytes))
    → json_string_map fields ≡ print (object (string_members fields))
unfolding json_string_map print
json_string_map-print fields = rw map_loop-print

print_more_members-snoc :
    (fields : List (Bytes × Json)) (k : Bytes) (v : Json)
    → print_more_members (members (fields ++ (k, v) ∷ []))
      ≡ print_more_members (members fields) ++ b',' ∷ (quoted k ++ b':' ∷ print v)
unfolding print_more_members
print_more_members-snoc [] k v = rw append-nil
print_more_members-snoc ((j, w) ∷ fields) k v = simp (print_more_members-snoc fields, append_assoc)

-- the object that has been written so far, without its closing brace
pub record Holds (o : Open) (fields : List (Bytes × Json)) : Type 0 where
  pub out : o.out ≡ b'{' ∷ print_members (members fields)
  pub first : o.first ≡ is_empty fields

pub opened-Holds : Holds (opened b'{') []
opened-Holds = record { out = unfold print_members in refl; first = refl }

-- `append_field` adds a member at the end, with a comma in front if there are others
pub append_field-Holds :
    (o : Open) (fields : List (Bytes × Json)) (k raw : Bytes) (v : Json)
    → Holds o fields
    → raw ≡ print v
    → Holds (append_field o k raw) (fields ++ (k, v) ∷ [])
unfolding append_field print_members
append_field-Holds o [] k raw v h e = record {
  out = rw (h.first, h.out, e) (simp (append_json_string-quoted, append_assoc, append-nil));
  first = refl;
}
append_field-Holds o ((j, w) ∷ fields) k raw v h e = record {
  out =
      rw (h.first, h.out, e)
        (simp (append_json_string-quoted, print_more_members-snoc, append_assoc));
  first = refl;
}
