-- ===== src/Quadlet/Keys.antt =====
-- `dangerous_service_key` and `validate_allowed_keys` of src/quadlet.cpp.
pub mod Allowed
use pod_installer.Base.{
  Bool, true, false, not, ◌||◌, List, [], ◌∷◌, ◌++◌, Option, none, some, String, Bytes, text, equal,
  any, map, starts_with,
}
use pod_installer.Base.Maps.{Map, lookup}
use pod_installer.Error.{Checked, Result, ok, err, fail, policy, reject_if, ◌>>=◌, ◌>>◌}
use pod_installer.Quadlet.Parsed.{ParsedQuadlet, Section}

unfoldable pub dangerous_service_key : Bytes → Bool
dangerous_service_key key =
    starts_with key (text "Exec")
    || equal key (text "EnvironmentFile")
    || equal key (text "LoadCredential")
    || equal key (text "SetCredential")
    || equal key (text "RootDirectory")
    || equal key (text "RootImage")
    || equal key (text "BindPaths")
    || equal key (text "BindReadOnlyPaths")
    || equal key (text "WorkingDirectory")
    || equal key (text "User")
    || equal key (text "Group")

-- `std::set<std::string>`, asked only for membership
abbrev pub member : Bytes → List Bytes → Bool
member key = any (λ k. equal k key)

unfoldable pub unit_keys : List Bytes
unit_keys = map text ("Description" ∷ "After" ∷ "Wants" ∷ "Requires" ∷ "Documentation" ∷ [])

unfoldable pub container_keys : List Bytes
container_keys = map text (
    "Image" ∷ "ContainerName" ∷ "Label" ∷ "Environment" ∷ "ReadOnly" ∷ "NoNewPrivileges"
    ∷ "DropCapability" ∷ "Network" ∷ "Volume" ∷ "Mount" ∷ "UserNS" ∷ "PID" ∷ "IPCHost" ∷ "Device"
    ∷ "AddDevice" ∷ "Rootfs" ∷ "PodmanArgs" ∷ [])

unfoldable pub service_keys : List Bytes
service_keys = map text ("Restart" ∷ "TimeoutStartSec" ∷ "TimeoutStopSec" ∷ [])

unfoldable pub install_keys : List Bytes
install_keys = map text ("WantedBy" ∷ [])

-- the static map `allowed`
unfoldable pub allowed : Map (List Bytes)
unfolding unit_keys container_keys service_keys install_keys
allowed =
    (text "Unit", unit_keys)
    ∷ (text "Container", container_keys)
    ∷ (text "Service", service_keys)
    ∷ (text "Install", install_keys)
    ∷ []

-- `message + section + '.' + key`
abbrev named_key : String → Bytes → Bytes → Bytes
named_key message section key = text message ++ section ++ text "." ++ key

-- the inner loop, over the keys of a section
pub check_keys : Bytes → List Bytes → Section → Checked
check_keys section keys [] = ok tt
check_keys section keys ((key, values) ∷ entries) = do
  reject_if (dangerous_service_key key) policy
      (named_key "unsupported host-executing service key: " section key)
  reject_if (not (member key keys)) policy (named_key "unsupported Quadlet key: " section key)
  check_keys section keys entries

pub check_section : Bytes → Option (List Bytes) → Section → Checked
check_section section none entries = fail policy (text "unsupported Quadlet section: " ++ section)
check_section section (some keys) entries = check_keys section keys entries

-- the outer loop
unfoldable pub validate_allowed_keys : ParsedQuadlet → Checked
unfolding check_section check_keys
validate_allowed_keys [] = ok tt
validate_allowed_keys ((section, entries) ∷ parsed) = do
  check_section section (lookup section allowed) entries
  validate_allowed_keys parsed
