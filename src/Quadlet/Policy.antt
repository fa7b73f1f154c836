-- ===== src/Quadlet/Policy.antt =====
-- `validate_quadlet_policy` of src/quadlet.cpp.
pub mod Loops
pub mod Conforms
pub mod Promise
use pod_installer.Base.{
  Bool, not, ◌&&◌, List, [], ◌∷◌, String, Bytes, text, is_empty, any, ◌==◌, if◌then◌else◌, true,
  false,
}
use pod_installer.Error.{Checked, ok, invalid_argument, policy, reject_if, ◌>>=◌, ◌>>◌}
use pod_installer.Quadlet.Strings.{trim, truthy, equals_key}
use pod_installer.Quadlet.QuadletPolicy.{QuadletFile, QuadletPolicy}
use pod_installer.Quadlet.FileName.{validate_quadlet_file_name}
use pod_installer.Quadlet.Parsed.{ParsedQuadlet, has_section, values}
use pod_installer.Quadlet.Parser.{parse_quadlet}
use pod_installer.Quadlet.Keys.{validate_allowed_keys}
use pod_installer.Quadlet.Label.{validate_managed_label}
use pod_installer.Quadlet.HostPath.{host_path_volume, host_path_mount}
use pod_installer.Quadlet.PodmanArgs.{denied_podman_arg}

-- `parsed->values("Container", key)`
abbrev pub container_values : ParsedQuadlet → String → List Bytes
container_values parsed key = values parsed (text "Container") (text key)

-- a loop over values that returns an error at the first for which the test holds
unfoldable pub reject_values : (Bytes → Bool) → String → List Bytes → Checked
reject_values test message [] = ok tt
reject_values test message (value ∷ rest) = do
  reject_if (test value) policy (text message)
  reject_values test message rest

-- the loop over the values of `PodmanArgs=`
unfoldable pub check_podman_args : QuadletPolicy → List Bytes → Checked
check_podman_args rules [] = ok tt
check_podman_args rules (value ∷ rest) = do
  reject_if (not rules.allow_podman_args) policy
      (text "Quadlet PodmanArgs= is not allowed by default")
  reject_if (denied_podman_arg value rules) policy
      (text "Quadlet PodmanArgs contains a denied argument")
  check_podman_args rules rest

-- the loops over the values, in their order
unfoldable pub check_values : QuadletPolicy → ParsedQuadlet → Checked
check_values rules parsed = do
  reject_values (λ value. not rules.allow_host_network && equals_key value (text "host"))
      "Quadlet Network=host is not allowed" (container_values parsed "Network")
  reject_values (λ value. not rules.allow_host_pid && equals_key value (text "host"))
      "Quadlet PID=host is not allowed" (container_values parsed "PID")
  reject_values (λ value. not rules.allow_host_ipc && truthy value)
      "Quadlet IPCHost=true is not allowed" (container_values parsed "IPCHost")
  reject_values (λ value. not rules.allow_host_userns && equals_key value (text "host"))
      "Quadlet UserNS=host is not allowed" (container_values parsed "UserNS")
  reject_values (λ value. not rules.allow_devices && not (is_empty (trim value)))
      "Quadlet Device= is not allowed by default" (container_values parsed "Device")
  reject_values (λ value. not rules.allow_devices && not (is_empty (trim value)))
      "Quadlet AddDevice= is not allowed by default" (container_values parsed "AddDevice")
  reject_values (λ value. not rules.allow_root_mount && host_path_volume value)
      "Quadlet host path Volume= mounts are not allowed" (container_values parsed "Volume")
  reject_values (λ value. not rules.allow_root_mount && host_path_mount value)
      "Quadlet host path Mount= mounts are not allowed" (container_values parsed "Mount")
  reject_values (λ value. not rules.allow_root_mount && not (is_empty (trim value)))
      "Quadlet Rootfs= is not allowed by default" (container_values parsed "Rootfs")
  check_podman_args rules (container_values parsed "PodmanArgs")

-- the tests between the parse and the loops
unfoldable pub check_structure : QuadletPolicy → ParsedQuadlet → Checked
check_structure rules parsed = do
  reject_if (rules.require_container_section && not (has_section parsed (text "Container"))) policy
      (text "Quadlet must contain a [Container] section")
  reject_if (rules.require_image && is_empty (container_values parsed "Image")) policy
      (text "Quadlet [Container] section must contain Image=")
  validate_allowed_keys parsed
  if rules.require_managed_label then validate_managed_label parsed rules else ok tt

unfoldable pub validate_quadlet_policy : QuadletFile → QuadletPolicy → Checked
validate_quadlet_policy quadlet rules = do
  validate_quadlet_file_name quadlet.file_name
  reject_if (is_empty quadlet.contents) invalid_argument (text "Quadlet contents are empty")
  reject_if (any (λ c. c == 0) quadlet.contents) invalid_argument
      (text "Quadlet contents must not contain NUL bytes")
  parsed ← parse_quadlet quadlet.contents
  check_structure rules parsed
  check_values rules parsed
