-- ===== src/Deployment/Assembled.antt =====
-- The services of `DeploymentOrchestrator::deploy` as the library has them: every member is the
-- model of the function that is called there, over the system calls alone.
pub mod Quiet
pub mod Undone
use pod_installer.Base.{ℕ, Option, some, ◌≡◌, Bytes}
use pod_installer.Base.Int.{pos}
use pod_installer.Error.{Error, Result, ok, err}
use pod_installer.World.{Action, give, ◌>>=◌}
use pod_installer.System.{Files}
use pod_installer.Target.{PodmanTarget}
use pod_installer.Target.Users.{Users, resolve_uid}
use pod_installer.Podman.{Curl, client_defaults, ping}
use pod_installer.Podman.Upload.{Uploads, load_image_archive_fd}
use pod_installer.Quadlet.QuadletPolicy.{QuadletPolicy}
use pod_installer.Quadlet.Installer.{QuadletInstallLayout, user_directory}
use pod_installer.Quadlet.Store.{snapshot_for_user, restore_for_user, install_for_user}
use pod_installer.SocketValidation.{options_for, validate_podman_socket}
use pod_installer.Deployment.Bundle.{DeploymentBundle, DeploymentOptions}
use pod_installer.Deployment.Services.{OpenArchive, Services}
use pod_installer.Deployment.Staging.{FilesAt, open_staged_image_archive, lock_deployment}

-- the system calls, the database of users, and libcurl for requests and for uploads
pub record Calls (S : Type 0) : Type 0 where
  pub files : Files S
  pub at : FilesAt S
  pub users : Users S
  pub curl : Curl S
  pub uploads : Uploads S

module _ {S : Type 0} (calls : Calls S) where
  -- `PodmanClient podman{*target};` and the two calls on it, whose responses are not looked at
  abbrev pub ping_podman : PodmanTarget → Action S (Unit {0})
  ping_podman target = ping calls.curl target client_defaults >>= λ response. give (ok tt)

  abbrev pub load_by_podman : PodmanTarget → OpenArchive → Action S (Unit {0})
  load_by_podman target archive =
      load_image_archive_fd calls.files calls.uploads target client_defaults (pos archive.fd)
        archive.size
      >>= λ response. give (ok tt)

  abbrev pub assembled : QuadletInstallLayout → QuadletPolicy → Services S
  assembled layout rules = record {
    resolve_uid = λ uid runtime_layout version. resolve_uid calls.users runtime_layout version uid;
    open_staged_image_archive = open_staged_image_archive calls.files calls.at;
    close_archive = λ archive. calls.files.close archive.fd;
    lock_deployment = lock_deployment calls.files calls.at layout;
    unlock = calls.files.close;
    validate_podman_socket = λ target runtime_layout.
        validate_podman_socket calls.files target (options_for runtime_layout);
    ping = ping_podman;
    load_image_archive_fd = load_by_podman;
    snapshot_for_user = snapshot_for_user calls.files layout rules;
    restore_for_user = restore_for_user calls.files layout rules;
    install_for_user = install_for_user calls.files layout rules;
  }
