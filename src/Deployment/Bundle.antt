-- ===== src/Deployment/Bundle.antt =====
-- The types of a deployment, `validate_deployment_bundle` and `BundleVerifier::verify`.
pub mod Accepted
use pod_installer.Base.{
  ℕ, Bool, true, false, not, Option, none, some, ◌++◌, ◌*◌, Bytes, text, equal, is_empty, ◌==◌,
}
use pod_installer.Error.{Checked, Result, ok, policy, invalid_argument, reject_if, ◌>>=◌, ◌>>◌}
use pod_installer.Target.{RuntimeDirectoryLayout, default_layout}
use pod_installer.Systemd.Status.{UnitStatus}
use pod_installer.Quadlet.QuadletPolicy.{QuadletFile}
use pod_installer.Quadlet.FileName.{service_unit_name_from_quadlet}

pub record ImageArchive : Type 0 where
  pub path : Bytes
  pub expected_sha256 : Bytes

pub record DeploymentBundle : Type 0 where
  pub target_uid : ℕ
  pub service_name : Bytes
  pub image_archive : Option ImageArchive
  pub quadlet : QuadletFile
  pub revision : Bytes

pub record DeploymentOptions : Type 0 where
  pub runtime_layout : RuntimeDirectoryLayout
  pub image_archive_root : Option Bytes
  pub max_image_archive_bytes : ℕ
  pub api_version : Bytes
  pub validate_socket : Bool
  pub load_image_archive : Bool
  pub restart_unit : Bool
  pub dry_run : Bool

-- the initialisers of the members
abbrev pub default_options : DeploymentOptions
default_options = record {
  runtime_layout = default_layout;
  image_archive_root = none;
  max_image_archive_bytes = 8 * 1024 * 1024 * 1024;
  api_version = text "5.0.0";
  validate_socket = true;
  load_image_archive = true;
  restart_unit = true;
  dry_run = false;
}

pub record DeploymentResult : Type 0 where
  pub installed_quadlet_path : Bytes
  pub systemd_unit : Bytes
  pub job_path : Option Bytes
  pub status : Option UnitStatus
  pub status_error : Option Bytes
  pub dry_run : Bool
  pub rolled_back : Bool

-- the test of the image archive's path
abbrev pub has_empty_path : Option ImageArchive → Bool
has_empty_path none = false
has_empty_path (some archive) = is_empty archive.path

unfoldable pub validate_deployment_bundle : DeploymentBundle → Checked
validate_deployment_bundle bundle = do
  reject_if (bundle.target_uid == 0) policy (text "deployment target must be a non-root user uid")
  reject_if (is_empty bundle.service_name) invalid_argument
      (text "deployment service_name is empty")
  unit ← service_unit_name_from_quadlet bundle.quadlet.file_name
  reject_if (not (equal unit (bundle.service_name ++ text ".service"))) invalid_argument (
      text "deployment service_name '"
      ++ bundle.service_name
      ++ text "' does not match Quadlet file '"
      ++ bundle.quadlet.file_name
      ++ text "'")
  reject_if (has_empty_path bundle.image_archive) invalid_argument
      (text "image archive path is empty")

-- `BundleVerifier::verify`, which accepts everything
abbrev pub verify : DeploymentBundle → Checked
verify bundle = ok tt
