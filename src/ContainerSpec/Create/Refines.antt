-- ===== src/ContainerSpec/Create/Refines.antt =====
-- The request body is the JSON object of the specification.
use pod_installer.Base.{
  Bool, true, false, not, List, [], ◌∷◌, ◌++◌, Option, none, some, String, Bytes, text, is_empty,
  if◌then◌else◌, ◌≡◌, ◌↔◌, refl, ◌∙◌, append-nil,
}
use pod_installer.Base.Int.{ℤ, int_to_string}
use pod_installer.Error.{ok, >>-eq-ok}
use pod_installer.ContainerSpec.{CpuLimits, MemoryLimits, PidsLimits, ResourceLimits, ContainerSpec}
use pod_installer.ContainerSpec.Validate.{validate_container_spec}
use pod_installer.ContainerSpec.Json.{Open, json_string}
use pod_installer.ContainerSpec.Json.Value.{
  Json, string, number, boolean, array, object, print, members, strings, string_members,
}
use pod_installer.ContainerSpec.Json.Escape.{json_string-quoted}
use pod_installer.ContainerSpec.Json.Writer.{
  Holds, opened-Holds, append_field-Holds, json_string_array-print, json_string_map-print,
}
use pod_installer.ContainerSpec.Create.{
  closed, append_if_some, append_if, cpu_json, memory_json, pids_json, resource_limits_json,
  create_json, to_podman_create_json,
}

-- a member that is there if the value is
abbrev pub optional {ℓ} : {A : Type ℓ} → Option A → String → (A → Json) → List (Bytes × Json)
optional none name json = []
optional (some a) name json = (text name, json a) ∷ []

-- a member that is there if the list has elements
abbrev pub when : Bool → String → Json → List (Bytes × Json)
when false name json = []
when true name json = (text name, json) ∷ []

abbrev pub json_object : List (Bytes × Json) → Json
json_object fields = object (members fields)

abbrev pub cpu_value : CpuLimits → Json
cpu_value cpu = json_object (
    optional cpu.period "period" number
    ++ optional cpu.quota "quota" number
    ++ optional cpu.shares "shares" number
    ++ optional cpu.cpus "cpus" string)

abbrev pub memory_value : MemoryLimits → Json
memory_value memory =
    json_object (optional memory.limit "limit" number ++ optional memory.swap "swap" number)

abbrev pub pids_value : PidsLimits → Json
pids_value pids = json_object (optional pids.limit "limit" number)

abbrev pub limits_value : ResourceLimits → Json
limits_value limits = json_object (
    optional limits.cpu "cpu" cpu_value
    ++ optional limits.memory "memory" memory_value
    ++ optional limits.pids "pids" pids_value)

-- The members of a create request: name, image and the flag always, a list or a map if it has
-- elements, the limits if they are given.
abbrev pub spec_value : ContainerSpec → Json
spec_value spec = json_object (
    (text "name", string spec.name) ∷ (text "image", string spec.image) ∷ []
    ++ when (not (is_empty spec.command)) "command" (array (strings spec.command))
    ++ when (not (is_empty spec.env)) "env" (object (string_members spec.env))
    ++ when (not (is_empty spec.labels)) "labels" (object (string_members spec.labels))
    ++ (text "read_only_filesystem", boolean spec.read_only_filesystem) ∷ []
    ++ when (not (is_empty spec.cap_drop)) "cap_drop" (array (strings spec.cap_drop))
    ++ when (not (is_empty spec.security_opt)) "security_opt" (array (strings spec.security_opt))
    ++ optional spec.resource_limits "resource_limits" limits_value)

append_if_some-Holds {ℓ} :
    {A : Type ℓ} (o : Open) (fields : List (Bytes × Json)) (a : Option A) (name : String)
    (write : A → Bytes) (json : A → Json)
    → Holds o fields
    → ((x : A) → write x ≡ print (json x))
    → Holds (append_if_some a name write o) (fields ++ optional a name json)
append_if_some-Holds o fields none name write json h e = rw append-nil h
append_if_some-Holds o fields (some a) name write json h e =
    append_field-Holds o fields (text name) (write a) (json a) h (e a)

append_if-Holds :
    (o : Open) (fields : List (Bytes × Json)) (test : Bool) (name : String) (raw : Bytes)
    (json : Json)
    → Holds o fields
    → raw ≡ print json
    → Holds (append_if test name raw o) (fields ++ when test name json)
append_if-Holds o fields false name raw json h e = rw append-nil h
append_if-Holds o fields true name raw json h e =
    append_field-Holds o fields (text name) raw json h e

closed-Holds :
    (o : Open) (fields : List (Bytes × Json))
    → Holds o fields
    → closed o ≡ print (json_object fields)
closed-Holds o fields h = rw h.out (unfold print in refl)

int_to_string-print : (n : ℤ) → int_to_string n ≡ print (number n)
int_to_string-print n = unfold print in refl

json_string-print : (s : Bytes) → json_string s ≡ print (string s)
json_string-print s = json_string-quoted s ∙ unfold print in refl

cpu_json-print : (cpu : CpuLimits) → cpu_json cpu ≡ print (cpu_value cpu)
cpu_json-print cpu =
    let h1 =
      append_if_some-Holds _ _ cpu.period "period" int_to_string number opened-Holds
        int_to_string-print in
    let h2 =
      append_if_some-Holds _ _ cpu.quota "quota" int_to_string number h1 int_to_string-print in
    let h3 =
      append_if_some-Holds _ _ cpu.shares "shares" int_to_string number h2 int_to_string-print in
    let h4 = append_if_some-Holds _ _ cpu.cpus "cpus" json_string string h3 json_string-print in
    unfold cpu_json in closed-Holds _ _ h4

memory_json-print : (memory : MemoryLimits) → memory_json memory ≡ print (memory_value memory)
memory_json-print memory =
    let h1 =
      append_if_some-Holds _ _ memory.limit "limit" int_to_string number opened-Holds
        int_to_string-print in
    let h2 =
      append_if_some-Holds _ _ memory.swap "swap" int_to_string number h1 int_to_string-print in
    unfold memory_json in closed-Holds _ _ h2

pids_json-print : (pids : PidsLimits) → pids_json pids ≡ print (pids_value pids)
pids_json-print pids =
    let h1 =
      append_if_some-Holds _ _ pids.limit "limit" int_to_string number opened-Holds
        int_to_string-print in
    unfold pids_json in closed-Holds _ _ h1

resource_limits_json-print :
    (limits : ResourceLimits) → resource_limits_json limits ≡ print (limits_value limits)
resource_limits_json-print limits =
    let h1 =
      append_if_some-Holds _ _ limits.cpu "cpu" cpu_json cpu_value opened-Holds cpu_json-print in
    let h2 =
      append_if_some-Holds _ _ limits.memory "memory" memory_json memory_value h1
        memory_json-print in
    let h3 = append_if_some-Holds _ _ limits.pids "pids" pids_json pids_value h2 pids_json-print in
    unfold resource_limits_json in closed-Holds _ _ h3

flag-print : (b : Bool) → (if b then text "true" else text "false") ≡ print (boolean b)
flag-print b = unfold print in refl

create_json-print : (spec : ContainerSpec) → create_json spec ≡ print (spec_value spec)
create_json-print spec =
    let array_print = json_string_array-print in
    let map_print = json_string_map-print in
    let h1 =
      append_field-Holds _ _ (text "name") _ (string spec.name) opened-Holds
        (json_string-print spec.name) in
    let h2 =
      append_field-Holds _ _ (text "image") _ (string spec.image) h1
        (json_string-print spec.image) in
    let h3 =
      append_if-Holds _ _ (not (is_empty spec.command)) "command" _ _ h2
        (array_print spec.command) in
    let h4 = append_if-Holds _ _ (not (is_empty spec.env)) "env" _ _ h3 (map_print spec.env) in
    let h5 =
      append_if-Holds _ _ (not (is_empty spec.labels)) "labels" _ _ h4 (map_print spec.labels) in
    let h6 =
      append_field-Holds _ _ (text "read_only_filesystem") _ (boolean spec.read_only_filesystem) h5
        (flag-print spec.read_only_filesystem) in
    let h7 =
      append_if-Holds _ _ (not (is_empty spec.cap_drop)) "cap_drop" _ _ h6
        (array_print spec.cap_drop) in
    let h8 =
      append_if-Holds _ _ (not (is_empty spec.security_opt)) "security_opt" _ _ h7
        (array_print spec.security_opt) in
    let h9 =
      append_if_some-Holds _ _ spec.resource_limits "resource_limits" resource_limits_json
        limits_value h8 resource_limits_json-print in
    unfold create_json in closed-Holds _ _ h9

-- A request body is written exactly for a specification that is valid, and it is then the
-- print of one JSON object: the members of the specification, in a fixed order, with a comma
-- between any two, and the optional ones left out where the specification has none.
pub to_podman_create_json-print :
    (spec : ContainerSpec) (out : Bytes)
    → (to_podman_create_json spec ≡ ok out)
      ↔ ((validate_container_spec spec ≡ ok tt) × (out ≡ print (spec_value spec)))
unfolding to_podman_create_json
to_podman_create_json-print spec out = (
  (λ h.
      let (valid, e) = >>-eq-ok (validate_container_spec spec) _ h in
      (valid, cc (create_json-print spec))),
  (λ (valid, e). rw (valid, e, create_json-print spec) refl),
)
