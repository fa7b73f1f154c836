-- ===== src/Deployment/Orchestrator.antt =====
-- `DeploymentOrchestrator::deploy` of src/deployment.cpp.
pub mod Views
pub mod Transaction
pub mod Atomic
pub mod Success
pub mod DryRun
use pod_installer.Base.{
  ℕ, Bool, true, false, ◌&&◌, ◌++◌, Option, none, some, Bytes, text, if◌then◌else◌,
}
use pod_installer.Error.{Error, Result, ok, err, invalid_argument, systemd, make_error, fail}
use pod_installer.World.{Action, Effect, give, handle, finally, ◌>>=◌, ◌>>◌}
use pod_installer.Target.{PodmanTarget}
use pod_installer.Systemd.Status.{UnitStatus, UnitOperationResult}
use pod_installer.Quadlet.QuadletPolicy.{QuadletFile, QuadletPolicy}
use pod_installer.Quadlet.Installer.{
  InstalledQuadlet, QuadletSnapshot, QuadletInstallLayout, expected_install,
}
use pod_installer.Deployment.Bundle.{
  ImageArchive, DeploymentBundle, DeploymentOptions, DeploymentResult, validate_deployment_bundle,
  verify,
}
use pod_installer.Deployment.Services.{OpenArchive, Services}
use pod_installer.Systemd.Controller.{UserSystemdController}
use pod_installer.Deployment.Rollback.{deployed_status_is_healthy, describe_status, rollback_error}

-- the members of the orchestrator but the controller, whose pointer may be null
pub record Settings : Type 0 where
  pub layout : QuadletInstallLayout
  pub rules : QuadletPolicy
  pub options : DeploymentOptions

-- `DeploymentResult result;` and the three assignments behind it
abbrev pub prepared : DeploymentOptions → InstalledQuadlet → DeploymentResult
prepared options expected = record {
  installed_quadlet_path = expected.path;
  systemd_unit = expected.systemd_unit;
  job_path = none;
  status = none;
  status_error = none;
  dry_run = options.dry_run;
  rolled_back = false;
}

abbrev pub is_given : Option ImageArchive → Bool
is_given none = false
is_given (some archive) = true

module _ {S : Type 0} (services : Services S) (controller : UserSystemdController S)
    (options : DeploymentOptions) where
  -- `if (options_.load_image_archive && bundle.image_archive)`
  abbrev pub open_archive : Option ImageArchive → Action S (Option OpenArchive)
  open_archive none = give (ok none)
  open_archive (some archive) =
      if options.load_image_archive
      then (services.open_staged_image_archive archive options >>= λ opened.
          give (ok (some opened)))
      else give (ok none)

  -- the destructor of `archive`
  abbrev pub close_if_open : Option OpenArchive → Effect S
  close_if_open none s = s
  close_if_open (some archive) s = services.close_archive archive s

  abbrev pub check_socket : PodmanTarget → Option ImageArchive → Action S (Unit {0})
  check_socket target image_archive =
      if options.validate_socket && options.load_image_archive && is_given image_archive
      then services.validate_podman_socket target options.runtime_layout
      else give (ok tt)

  -- `if (archive)`
  abbrev pub load_archive : PodmanTarget → Option OpenArchive → Action S (Unit {0})
  load_archive target none = give (ok tt)
  load_archive target (some archive) = do
    services.ping target
    services.load_image_archive_fd target archive

  module _ (target : PodmanTarget) (uid : ℕ) (snapshot : QuadletSnapshot)
      (result : DeploymentResult) where
    abbrev pub roll_back : Bool → Error → Action S DeploymentResult
    roll_back = rollback_error services controller target uid snapshot result.systemd_unit

    -- behind a restart that returned
    abbrev pub judge : UnitOperationResult → Action S DeploymentResult
    judge operation =
        if deployed_status_is_healthy operation.final_status
        then give (
            ok (record result {
              job_path = operation.job_path;
              status = some operation.final_status;
            }))
        else roll_back true (
            make_error systemd (
              text "deployment unit is unhealthy after restart: "
              ++ describe_status operation.final_status))

    -- the status of a unit that is not restarted
    abbrev pub report : Action S DeploymentResult
    report =
        handle (controller.status target result.systemd_unit)
          (λ e. give (ok (record result { status_error = some e.message })))
          (λ status. give (ok (record result { status = some status })))

    -- behind the installation
    unfoldable pub activate : Action S DeploymentResult
    activate = handle (controller.daemon_reload target) (roll_back false) (λ _.
        if options.restart_unit
        then handle (controller.restart_unit target result.systemd_unit) (roll_back true) judge
        else report)

  -- `result` with the path and the unit of what was installed
  abbrev pub with_installed : DeploymentResult → InstalledQuadlet → DeploymentResult
  with_installed result installed = record result {
    installed_quadlet_path = installed.path;
    systemd_unit = installed.systemd_unit;
  }

  -- what happens under the lock
  unfoldable pub deploy_locked :
      DeploymentBundle
      → PodmanTarget
      → DeploymentResult
      → Option OpenArchive
      → Action S DeploymentResult
  deploy_locked bundle target result archive = do
    check_socket target bundle.image_archive
    load_archive target archive
    snapshot ← services.snapshot_for_user bundle.target_uid bundle.quadlet.file_name
    installed ← services.install_for_user bundle.target_uid bundle.quadlet
    activate target bundle.target_uid snapshot (with_installed result installed)

  -- behind the archive, which is closed at the end
  unfoldable pub deploy_opened :
      DeploymentBundle
      → PodmanTarget
      → DeploymentResult
      → Option OpenArchive
      → Action S DeploymentResult
  deploy_opened bundle target result archive =
      if options.dry_run
      then give (ok result)
      else services.lock_deployment bundle.target_uid result.systemd_unit >>= λ lock.
          finally (services.unlock lock) (deploy_locked bundle target result archive)

module _ {S : Type 0} (services : Services S) (settings : Settings) where
  -- `deploy`, with the controller that the pointer is to
  abbrev pub deploy_with : UserSystemdController S → DeploymentBundle → Action S DeploymentResult
  deploy_with controller bundle = do
    give (verify bundle)
    give (validate_deployment_bundle bundle)
    target ←
        services.resolve_uid bundle.target_uid settings.options.runtime_layout
          settings.options.api_version
    expected ←
        give (expected_install settings.layout settings.rules bundle.target_uid bundle.quadlet)
    archive ← open_archive services controller settings.options bundle.image_archive
    finally (close_if_open services controller settings.options archive) (
        deploy_opened services controller settings.options bundle target
          (prepared settings.options expected) archive)

  unfoldable pub deploy :
      Option (UserSystemdController S) → DeploymentBundle → Action S DeploymentResult
  unfolding deploy_opened deploy_locked activate
  deploy none bundle =
      give (fail invalid_argument (text "deployment orchestrator requires a systemd controller"))
  deploy (some controller) bundle = deploy_with controller bundle
