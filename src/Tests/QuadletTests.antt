-- ===== src/Tests/QuadletTests.antt =====
-- The policy of Quadlet files at a file that is accepted and at some that are not.
use pod_installer.Base.{
  true, false, [], ◌∷◌, ◌++◌, ◌≡◌, ◌↔◌, refl, Bytes, text, equal, All, all, ends_with, starts_with,
  find, is_space, is_alnum, is_digit, to_lower, contains_text, less,
}
use pod_installer.Base.Decimal.{to_string}
use pod_installer.Base.Maps.{modify, lookup, contains}
use pod_installer.Error.{Error, ok, err, make_error, invalid_argument, policy, ◌>>=◌}
use pod_installer.Quadlet.Strings.{
  trim, truthy, equals_key, contains_control_or_slash, safe_unit_file_char,
}
use pod_installer.Quadlet.QuadletPolicy.{QuadletFile, default_policy}
use pod_installer.Quadlet.FileName.{
  is_hidden_or_option, validate_quadlet_file_name, service_unit_name_from_quadlet,
}
use pod_installer.Quadlet.FileName.Accepted.{IsFileName, validate_quadlet_file_name-IsFileName}
use pod_installer.Quadlet.Parsed.{ParsedQuadlet, add, has_section, values}
use pod_installer.Quadlet.Parser.{parse_quadlet, start, at_line}
use pod_installer.Quadlet.Parser.Lines.{lines, read_lines, parse_quadlet-read_lines}
use pod_installer.Quadlet.Parser.Meaning.{given, values-parse_quadlet}
use pod_installer.Quadlet.Parser.Meaning.Failure.{FailsAt, parse_quadlet-FailsAt}
use pod_installer.Quadlet.PodmanArgs.{split_podman_args, denied_podman_arg}
use pod_installer.Quadlet.PodmanArgs.Denied.{is_word_byte, denied_podman_arg-attached_volume}
use pod_installer.Quadlet.HostPath.{
  names_host_path, host_path_volume, host_path_part, host_path_mount,
}
use pod_installer.Quadlet.HostPath.Named.{IsPlainName, volume_source}
use pod_installer.Quadlet.Keys.{
  allowed, unit_keys, container_keys, service_keys, install_keys, dangerous_service_key,
  validate_allowed_keys,
}
use pod_installer.Quadlet.Label.{validate_managed_label}
use pod_installer.Quadlet.Policy.{
  reject_values, check_podman_args, check_structure, check_values, validate_quadlet_policy,
}
use pod_installer.Quadlet.Policy.Conforms.{Conforms, validate_quadlet_policy-Conforms}
use pod_installer.Quadlet.Policy.Promise.{
  container_lines, IsNotHost, given-dangerous_service_key, validate_quadlet_policy-IsNotHost,
  validate_quadlet_policy-IsPlainName,
}

abbrev pub web_contents : Bytes
web_contents =
    text
      "# managed\n[Container]\nImage = docker.io/web:1\nLabel=com.example.pod-installer.managed=true\n"
    ++ text "Network=bridge\nVolume=store:/var/lib/web\n\n[Service]\nRestart=always\n"

abbrev pub web : QuadletFile
web = record { file_name = text "web.container"; contents = web_contents }

abbrev web_parsed : ParsedQuadlet
web_parsed =
    (
      text "Container",
      (text "Image", text "docker.io/web:1" ∷ [])
          ∷ (text "Label", text "com.example.pod-installer.managed=true" ∷ [])
          ∷ (text "Network", text "bridge" ∷ [])
          ∷ (text "Volume", text "store:/var/lib/web" ∷ [])
          ∷ [],
    )
    ∷ (text "Service", (text "Restart", text "always" ∷ []) ∷ [])
    ∷ []

web_parses : parse_quadlet web_contents ≡ ok web_parsed
unfolding parse_quadlet text trim ends_with find is_space add modify equal less
web_parses = refl

-- the same file with a line that joins the network of the host
abbrev host_web : QuadletFile
host_web = record web { contents = web_contents ++ text "[Container]\nNetwork= Host \n" }

abbrev not_this_network : Error
not_this_network = make_error policy (text "Quadlet Network=host is not allowed")

sample_files :
    (validate_quadlet_policy web default_policy ≡ ok tt)
    × (validate_quadlet_policy host_web default_policy ≡ err not_this_network)
unfolding validate_quadlet_policy validate_quadlet_file_name parse_quadlet text trim ends_with find
    is_space add modify equal less is_hidden_or_option starts_with contains_control_or_slash
    safe_unit_file_char check_structure has_section contains is_alnum is_digit to_lower lookup
    contains_text host_path_mount host_path_part host_path_volume names_host_path allowed unit_keys
    container_keys service_keys install_keys validate_allowed_keys validate_managed_label values
    denied_podman_arg split_podman_args reject_values check_podman_args check_values equals_key
    truthy dangerous_service_key
sample_files = (refl, refl)

-- a file with a key on its third line that stands below no header
abbrev stray : Bytes
stray = text "\n; no header\nImage=x\n[Container]\n"

abbrev stray_error : Error
stray_error = make_error invalid_argument (text "Quadlet key appears before any section at line 3")

stray_fails : parse_quadlet stray ≡ err stray_error
unfolding parse_quadlet text trim ends_with find is_space add modify equal less at_line to_string
    starts_with
stray_fails = refl

validate_quadlet_policy-IsNotHost_example :
    All IsNotHost (container_lines web (text "Network"))
    × All IsNotHost (container_lines web (text "PID"))
    × All IsNotHost (container_lines web (text "UserNS"))
validate_quadlet_policy-IsNotHost_example =
    validate_quadlet_policy-IsNotHost web default_policy (sample_files.0) refl refl refl

validate_quadlet_policy-IsPlainName_example :
    All (λ v. IsPlainName (volume_source v)) (container_lines web (text "Volume"))
validate_quadlet_policy-IsPlainName_example =
    validate_quadlet_policy-IsPlainName web default_policy (sample_files.0) refl

exec_is_dangerous : dangerous_service_key (text "ExecStartPre") ≡ true
unfolding dangerous_service_key text starts_with equal
exec_is_dangerous = refl

given-dangerous_service_key_example :
    given (text "Service") (text "ExecStartPre") [] (lines web.contents) ≡ []
given-dangerous_service_key_example =
    given-dangerous_service_key web default_policy (text "Service") (text "ExecStartPre")
      (sample_files.0) exec_is_dangerous

validate_quadlet_policy-Conforms_example :
    (validate_quadlet_policy web default_policy ≡ ok tt) ↔ Conforms default_policy web
validate_quadlet_policy-Conforms_example = validate_quadlet_policy-Conforms web default_policy

values-parse_quadlet_example :
    values web_parsed (text "Container") (text "Image")
    ≡ given (text "Container") (text "Image") [] (lines web_contents)
values-parse_quadlet_example =
    values-parse_quadlet web_contents web_parsed (text "Container") (text "Image") web_parses

parse_quadlet-FailsAt_example : FailsAt stray stray_error
parse_quadlet-FailsAt_example = parse_quadlet-FailsAt stray stray_error stray_fails

parse_quadlet-read_lines_example :
    parse_quadlet web_contents ≡ (read_lines start (lines web_contents) >>= λ p. ok p.parsed)
parse_quadlet-read_lines_example = parse_quadlet-read_lines web_contents

validate_quadlet_file_name-IsFileName_example :
    (validate_quadlet_file_name (text "web.container") ≡ ok tt) ↔ IsFileName (text "web.container")
validate_quadlet_file_name-IsFileName_example =
    validate_quadlet_file_name-IsFileName (text "web.container")

web_unit : service_unit_name_from_quadlet (text "web.container") ≡ ok (text "web.service")
unfolding service_unit_name_from_quadlet validate_quadlet_file_name is_hidden_or_option
    contains_control_or_slash safe_unit_file_char text equal starts_with ends_with is_alnum is_digit
web_unit = refl

plain_mount : host_path_mount (text "type=volume,source=store") ≡ false
unfolding host_path_mount host_path_part names_host_path trim text find is_space to_lower
    contains_text starts_with equal
plain_mount = refl

no_odd_byte : all is_word_byte (text "srv:/srv") ≡ true
unfolding text is_space
no_odd_byte = refl

denied_podman_arg-attached_volume_example :
    denied_podman_arg (text "-v/" ++ text "srv:/srv") default_policy ≡ false
denied_podman_arg-attached_volume_example =
    denied_podman_arg-attached_volume default_policy (text "srv:/srv") no_odd_byte
