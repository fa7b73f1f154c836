-- ===== src/Deployment/Orchestrator/Views.antt =====
-- A view of the system: what the installed file of one user holds. Laws of the services on it,
-- and how it passes through the steps of a deployment.
use pod_installer.Base.{ℕ, Option, some, ◌≡◌, ◌⊎◌, sym, ap, ◌∙◌, Bytes}
use pod_installer.Error.{Error, Result, ok, err}
use pod_installer.World.{Action}
use pod_installer.Target.{PodmanTarget, RuntimeDirectoryLayout}
use pod_installer.Quadlet.QuadletPolicy.{QuadletFile}
use pod_installer.Quadlet.Installer.{saved, QuadletSnapshot, InstalledQuadlet}
use pod_installer.Deployment.Bundle.{ImageArchive, DeploymentOptions}
use pod_installer.Deployment.Services.{OpenArchive, Services}
use pod_installer.Systemd.Controller.{UserSystemdController}

-- a snapshot of this Quadlet that holds what was there
abbrev pub Saves : QuadletFile → Option Bytes → QuadletSnapshot → Type 0
Saves quadlet before snapshot = (saved snapshot ≡ before) × (snapshot.file_name ≡ quadlet.file_name)

module _ {S : Type 0} (file : S → Option Bytes) where
  -- the call leaves the file, whatever it returns
  abbrev pub Keeps : {A : Type 0} → Action S A → Type 0
  Keeps call = (s : S) → file (call s).1 ≡ file s

  -- the services that have nothing to do with the Quadlet of the user
  pub record Bystanders (services : Services S) (controller : UserSystemdController S) (uid : ℕ)
      : Type 0 where
    pub resolve_uid :
        (layout : RuntimeDirectoryLayout) (version : Bytes)
        → Keeps (services.resolve_uid uid layout version)
    pub opens :
        (archive : ImageArchive) (options : DeploymentOptions)
        → Keeps (services.open_staged_image_archive archive options)
    pub close : (archive : OpenArchive) (s : S) → file (services.close_archive archive s) ≡ file s
    pub lock : (unit : Bytes) → Keeps (services.lock_deployment uid unit)
    pub unlock : (fd : ℕ) (s : S) → file (services.unlock fd s) ≡ file s
    pub socket :
        (target : PodmanTarget) (layout : RuntimeDirectoryLayout)
        → Keeps (services.validate_podman_socket target layout)
    pub ping : (target : PodmanTarget) → Keeps (services.ping target)
    pub load :
        (target : PodmanTarget) (archive : OpenArchive)
        → Keeps (services.load_image_archive_fd target archive)
    pub reload : (target : PodmanTarget) → Keeps (controller.daemon_reload target)
    pub restart :
        (target : PodmanTarget) (unit : Bytes) → Keeps (controller.restart_unit target unit)
    pub status : (target : PodmanTarget) (unit : Bytes) → Keeps (controller.status target unit)

  -- The installer touches the Quadlet of the user in these ways alone: a snapshot holds what is
  -- there, an installation leaves the contents, and a restore brings back what the snapshot
  -- holds; one of these two that fails may have done its work or nothing.
  pub record Laws (services : Services S) (controller : UserSystemdController S) (uid : ℕ)
      (quadlet : QuadletFile) : Type 0 where
    pub others : Bystanders services controller uid
    pub snapshot : Keeps (services.snapshot_for_user uid quadlet.file_name)
    pub snapshot_saved :
        (s t : S) (snapshot : QuadletSnapshot)
        → services.snapshot_for_user uid quadlet.file_name s ≡ (ok snapshot, t)
        → Saves quadlet (file s) snapshot
    pub installed :
        (s t : S) (installed : InstalledQuadlet)
        → services.install_for_user uid quadlet s ≡ (ok installed, t)
        → file t ≡ some quadlet.contents
    pub not_installed :
        (s t : S) (e : Error)
        → services.install_for_user uid quadlet s ≡ (err e, t)
        → (file t ≡ file s) ⊎ (file t ≡ some quadlet.contents)
    pub restored :
        (s t : S) (snapshot : QuadletSnapshot)
        → snapshot.file_name ≡ quadlet.file_name
        → services.restore_for_user uid snapshot s ≡ (ok tt, t)
        → file t ≡ saved snapshot
    pub not_restored :
        (s t : S) (snapshot : QuadletSnapshot) (e : Error)
        → snapshot.file_name ≡ quadlet.file_name
        → services.restore_for_user uid snapshot s ≡ (err e, t)
        → (file t ≡ file s) ⊎ (file t ≡ saved snapshot)

  pub Keeps-at :
      {A : Type 0} (call : Action S A) (s t : S) (r : Result A)
      → Keeps call
      → call s ≡ (r, t)
      → file t ≡ file s
  Keeps-at call s t r keeps h = ap (λ p. file p.1) (sym h) ∙ keeps s
