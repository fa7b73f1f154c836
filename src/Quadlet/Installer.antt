-- ===== src/Quadlet/Installer.antt =====
-- The layout of the installer and what it would install, of src/quadlet.cpp.
use pod_installer.Base.{ℕ, Bool, Option, none, some, Bytes, text, length, ltb, ◌*◌, if◌then◌else◌}
use pod_installer.Base.Decimal.{to_string}
use pod_installer.Error.{Result, ok, policy, reject_if, ◌>>=◌, ◌>>◌}
use pod_installer.Target.{join}
use pod_installer.Quadlet.QuadletPolicy.{QuadletFile, QuadletPolicy}
use pod_installer.Quadlet.FileName.{service_unit_name_from_quadlet}
use pod_installer.Quadlet.Policy.{validate_quadlet_policy}

pub record InstalledQuadlet : Type 0 where
  pub path : Bytes
  pub systemd_unit : Bytes

pub record QuadletSnapshot : Type 0 where
  pub path : Bytes
  pub file_name : Bytes
  pub existed : Bool
  pub contents : Bytes

-- the file that a snapshot brings back
abbrev pub saved : QuadletSnapshot → Option Bytes
saved snapshot = if snapshot.existed then some snapshot.contents else none

pub record QuadletInstallLayout : Type 0 where
  pub admin_user_root : Bytes
  pub required_owner_uid : Option ℕ
  pub required_owner_gid : Option ℕ
  pub max_quadlet_bytes : ℕ

-- the initialisers of the members
abbrev pub default_install_layout : QuadletInstallLayout
default_install_layout = record {
  admin_user_root = text "/etc/containers/systemd/users";
  required_owner_uid = some 0;
  required_owner_gid = none;
  max_quadlet_bytes = 1024 * 1024;
}

unfoldable pub user_directory : QuadletInstallLayout → ℕ → Bytes
user_directory layout uid = join layout.admin_user_root (to_string uid)

unfoldable pub quadlet_path : QuadletInstallLayout → ℕ → Bytes → Bytes
quadlet_path layout uid file_name = join (user_directory layout uid) file_name

-- `QuadletInstaller::expected_install`
unfoldable pub expected_install :
    QuadletInstallLayout → QuadletPolicy → ℕ → QuadletFile → Result InstalledQuadlet
expected_install layout rules uid quadlet = do
  reject_if (ltb layout.max_quadlet_bytes (length quadlet.contents)) policy
      (text "Quadlet contents exceed max_quadlet_bytes")
  validate_quadlet_policy quadlet rules
  unit ← service_unit_name_from_quadlet quadlet.file_name
  ok (record { path = quadlet_path layout uid quadlet.file_name; systemd_unit = unit })
