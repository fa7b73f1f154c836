-- ===== src/Tests/SpecTests.antt =====
-- Specifications of containers: one that is accepted, and the request body that it gives.
use pod_installer.Base.{
  [], ◌∷◌, ◌++◌, none, some, ◌≡◌, ◌↔◌, refl, Bytes, text, IsBytes, arith, is_alnum, is_digit,
}
use pod_installer.Base.Decimal.{to_string}
use pod_installer.Base.Int.{pos, int_to_string}
use pod_installer.Error.{ok}
use pod_installer.ContainerSpec.{ContainerSpec, default_spec}
use pod_installer.ContainerSpec.Json.{
  append_field, append_json_string, json_string, json_string_array, json_string_map,
}
use pod_installer.ContainerSpec.Json.Value.{print}
use pod_installer.ContainerSpec.Json.Escape.{read_literal, read_literal-json_string}
use pod_installer.ContainerSpec.Validate.{
  valid_container_name, valid_name_rest, valid_key, valid_cpuset, has_control, check_map_keys,
  check_limits, check_cpu, check_memory, check_cpuset, require_positive, check_pids,
  validate_container_spec,
}
use pod_installer.ContainerSpec.Validate.Accepted.{IsValid, validate_container_spec-IsValid}
use pod_installer.ContainerSpec.Create.{
  resource_limits_json, cpu_json, memory_json, pids_json, create_json, to_podman_create_json,
}
use pod_installer.ContainerSpec.Create.Refines.{spec_value, to_podman_create_json-print}

abbrev web_spec : ContainerSpec
web_spec = record default_spec {
  name = text "web";
  image = text "docker.io/web:1";
  command = text "serve" ∷ text "say \"hi\"" ∷ [];
  resource_limits = some (record {
    cpu = none;
    memory = some (record { limit = some (pos 1024); swap = none });
    pids = none;
  });
}

abbrev quotes_and_newline : Bytes
quotes_and_newline = b'"' ∷ b'\\' ∷ b'\n' ∷ 1 ∷ 200 ∷ []

quotes_and_newline-IsBytes : IsBytes quotes_and_newline
quotes_and_newline-IsBytes =
    (omega arith, (omega arith, (omega arith, (omega arith, (omega arith, tt)))))

read_literal-json_string_example :
    read_literal (json_string quotes_and_newline ++ text ",\"b\"")
    ≡ some (quotes_and_newline, text ",\"b\"")
read_literal-json_string_example =
    read_literal-json_string quotes_and_newline (text ",\"b\"") quotes_and_newline-IsBytes

validate_container_spec-IsValid_example :
    (validate_container_spec web_spec ≡ ok tt) ↔ IsValid web_spec
validate_container_spec-IsValid_example = validate_container_spec-IsValid web_spec

abbrev web_body : Bytes
web_body =
    text
      "{\"name\":\"web\",\"image\":\"docker.io/web:1\",\"command\":[\"serve\",\"say \\\"hi\\\"\"],"
    ++ text
        "\"read_only_filesystem\":true,\"cap_drop\":[\"ALL\"],\"security_opt\":[\"no-new-privileges\"],"
    ++ text "\"resource_limits\":{\"memory\":{\"limit\":1024}}}"

web_create : to_podman_create_json web_spec ≡ ok web_body
unfolding to_podman_create_json create_json resource_limits_json cpu_json memory_json pids_json
    append_field append_json_string json_string json_string_array json_string_map
    validate_container_spec valid_container_name valid_name_rest valid_key valid_cpuset has_control
    check_map_keys check_limits check_cpu check_memory check_cpuset require_positive check_pids text
    to_string int_to_string is_alnum is_digit
web_create = refl

to_podman_create_json-print_example :
    (to_podman_create_json web_spec ≡ ok web_body)
    ↔ ((validate_container_spec web_spec ≡ ok tt) × (web_body ≡ print (spec_value web_spec)))
to_podman_create_json-print_example = to_podman_create_json-print web_spec web_body
