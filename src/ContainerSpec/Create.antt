-- ===== src/ContainerSpec/Create.antt =====
-- `resource_limits_json` and `to_podman_create_json` of src/container_spec.cpp.
pub mod Refines
use pod_installer.Base.{
  Bool, true, false, not, List, [], ◌∷◌, ◌++◌, Option, none, some, String, Bytes, text, is_empty,
  if◌then◌else◌,
}
use pod_installer.Base.Int.{ℤ, int_to_string}
use pod_installer.Error.{Result, ok, ◌>>=◌, ◌>>◌}
use pod_installer.ContainerSpec.{CpuLimits, MemoryLimits, PidsLimits, ResourceLimits, ContainerSpec}
use pod_installer.ContainerSpec.Validate.{validate_container_spec}
use pod_installer.ContainerSpec.Json.{
  Open, opened, append_field, json_string, json_string_array, json_string_map,
}

-- `out.push_back('}')` at the end of an object
abbrev pub closed : Open → Bytes
closed o = o.out ++ b'}' ∷ []

-- `if (value) append_field(out, first, name, write(*value));`
abbrev pub append_if_some {ℓ} : {A : Type ℓ} → Option A → String → (A → Bytes) → Open → Open
append_if_some none name write o = o
append_if_some (some value) name write o = append_field o (text name) (write value)

-- `if (test) append_field(out, first, name, raw_value);`
abbrev pub append_if : Bool → String → Bytes → Open → Open
append_if false name raw_value o = o
append_if true name raw_value o = append_field o (text name) raw_value

unfoldable pub cpu_json : CpuLimits → Bytes
cpu_json cpu =
    let o1 = append_if_some cpu.period "period" int_to_string (opened b'{') in
    let o2 = append_if_some cpu.quota "quota" int_to_string o1 in
    let o3 = append_if_some cpu.shares "shares" int_to_string o2 in
    closed (append_if_some cpu.cpus "cpus" json_string o3)

unfoldable pub memory_json : MemoryLimits → Bytes
memory_json memory =
    let o1 = append_if_some memory.limit "limit" int_to_string (opened b'{') in
    closed (append_if_some memory.swap "swap" int_to_string o1)

unfoldable pub pids_json : PidsLimits → Bytes
pids_json pids = closed (append_if_some pids.limit "limit" int_to_string (opened b'{'))

unfoldable pub resource_limits_json : ResourceLimits → Bytes
unfolding cpu_json memory_json pids_json
resource_limits_json limits =
    let o1 = append_if_some limits.cpu "cpu" cpu_json (opened b'{') in
    let o2 = append_if_some limits.memory "memory" memory_json o1 in
    closed (append_if_some limits.pids "pids" pids_json o2)

-- the object that is written behind the validation
unfoldable pub create_json : ContainerSpec → Bytes
create_json spec =
    let o1 = append_field (opened b'{') (text "name") (json_string spec.name) in
    let o2 = append_field o1 (text "image") (json_string spec.image) in
    let o3 =
      append_if (not (is_empty spec.command)) "command" (json_string_array spec.command) o2 in
    let o4 = append_if (not (is_empty spec.env)) "env" (json_string_map spec.env) o3 in
    let o5 = append_if (not (is_empty spec.labels)) "labels" (json_string_map spec.labels) o4 in
    let o6 =
      append_field o5 (text "read_only_filesystem")
        (if spec.read_only_filesystem then text "true" else text "false") in
    let o7 =
      append_if (not (is_empty spec.cap_drop)) "cap_drop" (json_string_array spec.cap_drop) o6 in
    let o8 =
      append_if (not (is_empty spec.security_opt)) "security_opt"
        (json_string_array spec.security_opt) o7 in
    closed (append_if_some spec.resource_limits "resource_limits" resource_limits_json o8)

unfoldable pub to_podman_create_json : ContainerSpec → Result Bytes
unfolding create_json
to_podman_create_json spec = do validate_container_spec spec; ok (create_json spec)
