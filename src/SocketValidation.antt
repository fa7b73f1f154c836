-- ===== src/SocketValidation.antt =====
-- include/pod_installer/socket_validation.hpp and src/socket_validation.cpp: the checks on the
-- socket of a target, over `lstat`.
pub mod Accepted
pub mod Resolved
use pod_installer.Base.{
  ℕ, Bool, true, false, not, ◌&&◌, ◌==◌, List, [], ◌∷◌, ◌++◌, Bytes, text, equal, is_empty,
  if◌then◌else◌,
}
use pod_installer.Base.Decimal.{to_string}
use pod_installer.Error.{Error, Result, ok, err, socket_validation, os_error, reject_if}
use pod_installer.World.{Action, give, ◌>>=◌, ◌>>◌}
use pod_installer.System.{FileKind, symbolic_link, socket_file, Stat, Files, attempt}
use pod_installer.FilePath.{elements, joined, lexically_normal}
use pod_installer.Target.{RuntimeDirectoryLayout, default_layout, PodmanTarget, podman_socket_for}
use pod_installer.Deployment.Services.{Services}

pub record SocketValidationOptions : Type 0 where
  pub require_socket : Bool
  pub require_owner : Bool
  pub reject_symlink : Bool
  pub require_default_path : Bool
  pub layout : RuntimeDirectoryLayout

-- the initialisers of the members, with the layout that `deploy` passes
abbrev pub options_for : RuntimeDirectoryLayout → SocketValidationOptions
options_for layout = record {
  require_socket = true;
  require_owner = true;
  reject_symlink = true;
  require_default_path = true;
  layout = layout;
}

-- `normalized(path)`, by its elements
unfoldable pub normalized : Bytes → List Bytes
normalized path = lexically_normal (elements path)

-- `a == b` of paths
abbrev pub same_elements : List Bytes → List Bytes → Bool
same_elements [] [] = true
same_elements [] (b ∷ other) = false
same_elements (a ∷ path) [] = false
same_elements (a ∷ path) (b ∷ other) = let rest = same_elements path other in equal a b && rest

abbrev pub is_link : FileKind → Bool
is_link FileKind.symbolic_link = true
is_link _ = false

abbrev pub is_socket : FileKind → Bool
is_socket FileKind.socket_file = true
is_socket _ = false

module _ {S : Type 0} (os : Files S) (target : PodmanTarget)
    (options : SocketValidationOptions) where
  abbrev pub refuse_socket : Bool → Bytes → Action S (Unit {0})
  refuse_socket refused message = give (reject_if refused socket_validation message)

  -- the checks before the `lstat`
  abbrev pub check_path : Action S (Unit {0})
  check_path =
      let actual = normalized target.socket_path in
      let expected = normalized (podman_socket_for options.layout target.uid) in
      refuse_socket (is_empty target.socket_path) (text "target socket path is empty")
      >> refuse_socket (options.require_default_path && not (same_elements actual expected)) (
          text "target socket path '"
          ++ joined actual
          ++ text "' does not match expected rootless Podman path '"
          ++ joined expected
          ++ text "'")

  -- the checks behind it
  abbrev pub check_file : Stat → Action S (Unit {0})
  check_file st =
      refuse_socket (options.reject_symlink && is_link st.kind)
        (text "target socket path is a symlink: " ++ target.socket_path)
      >> refuse_socket (options.require_socket && not (is_socket st.kind))
          (text "target path is not a Unix socket: " ++ target.socket_path)
      >> refuse_socket (options.require_owner && not (st.uid == target.uid)) (
          text "target socket owner uid "
          ++ to_string st.uid
          ++ text " does not match target uid "
          ++ to_string target.uid)

  abbrev pub lstat_failure : ℕ → Error
  lstat_failure errno =
      os_error socket_validation
        (text "lstat failed for '" ++ target.socket_path ++ text "': " ++ os.strerror errno) errno

  abbrev pub look_at : Action S Stat
  look_at = attempt lstat_failure (os.lstat target.socket_path)

  unfoldable pub validate_podman_socket : Action S (Unit {0})
  validate_podman_socket = check_path >> look_at >>= check_file

-- the services of a deployment with this check, as `deploy` calls it
abbrev pub with_socket_validation : {S : Type 0} → Files S → Services S → Services S
with_socket_validation os services = record services {
  validate_podman_socket = λ target layout. validate_podman_socket os target (options_for layout);
}
