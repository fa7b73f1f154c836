-- ===== src/Deployment/Services.antt =====
-- What the orchestrator calls beside the controller of systemd: the installer, the user
-- database, the archive, the lock, the socket check and the Podman client, as one record over
-- the state of the system.
use pod_installer.Base.{ℕ, Bytes}
use pod_installer.World.{Action, Effect}
use pod_installer.Target.{PodmanTarget, RuntimeDirectoryLayout}
use pod_installer.Quadlet.QuadletPolicy.{QuadletFile}
use pod_installer.Quadlet.Installer.{InstalledQuadlet, QuadletSnapshot}
use pod_installer.Deployment.Bundle.{ImageArchive, DeploymentOptions}

pub record OpenArchive : Type 0 where
  pub fd : ℕ
  pub size : ℕ

pub record Services (S : Type 0) : Type 0 where
  pub resolve_uid : ℕ → RuntimeDirectoryLayout → Bytes → Action S PodmanTarget
  pub open_staged_image_archive : ImageArchive → DeploymentOptions → Action S OpenArchive
  pub close_archive : OpenArchive → Effect S
  pub lock_deployment : ℕ → Bytes → Action S ℕ
  pub unlock : ℕ → Effect S
  pub validate_podman_socket : PodmanTarget → RuntimeDirectoryLayout → Action S (Unit {0})
  pub ping : PodmanTarget → Action S (Unit {0})
  pub load_image_archive_fd : PodmanTarget → OpenArchive → Action S (Unit {0})
  pub snapshot_for_user : ℕ → Bytes → Action S QuadletSnapshot
  pub restore_for_user : ℕ → QuadletSnapshot → Action S (Unit {0})
  pub install_for_user : ℕ → QuadletFile → Action S InstalledQuadlet
