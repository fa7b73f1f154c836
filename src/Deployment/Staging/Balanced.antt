-- ===== src/Deployment/Staging/Balanced.antt =====
-- A deployment closes every descriptor that it opens.
use pod_installer.Base.{
  ℕ, Bool, Bool-cases, inl, inr, true, false, ◌≡◌, refl, Option, none, some, if◌then◌else◌,
}
use pod_installer.Error.{Result, ok, err}
use pod_installer.World.{Action, Effect, give, finally, Relates, ◌>>=◌, then-Relates, handle_with}
use pod_installer.System.{Files}
use pod_installer.Target.{PodmanTarget}
use pod_installer.Quadlet.Installer.{InstalledQuadlet, QuadletInstallLayout, expected_install}
use pod_installer.Systemd.Controller.{UserSystemdController}
use pod_installer.Deployment.Bundle.{
  ImageArchive, DeploymentBundle, DeploymentOptions, DeploymentResult, validate_deployment_bundle,
  verify,
}
use pod_installer.Deployment.Services.{OpenArchive, Services}
use pod_installer.Deployment.Orchestrator.{
  Settings, prepared, open_archive, close_if_open, activate, deploy_locked, deploy_opened,
  deploy_with, deploy,
}
use pod_installer.Deployment.Staging.{
  FilesAt, open_staged_image_archive, lock_deployment, with_staging,
}
use pod_installer.Deployment.Staging.Descriptors.{
  Same, Yields, Descriptors, Same-trans, Adds-Same, closed-Same,
}
use pod_installer.Deployment.Staging.Opened.{open_staged_image_archive-Yields}
use pod_installer.Deployment.Staging.Locked.{lock_deployment-Yields}
use pod_installer.Deployment.Staging.Tidy.{Tidy, deploy_locked_lem}

module _ {S : Type 0} (os : Files S) (at : FilesAt S) (opened : ℕ → S → Bool)
    (descriptors : Descriptors opened os at) (layout : QuadletInstallLayout) (services : Services S)
    (controller : UserSystemdController S) (tidy : Tidy opened services controller) where
  abbrev staged : Services S
  staged = with_staging os at layout services

  staged-Tidy : Tidy opened staged controller
  staged-Tidy = record {
    resolve_uid = tidy.resolve_uid;
    socket = tidy.socket;
    ping = tidy.ping;
    load = tidy.load;
    snapshot = tidy.snapshot;
    restore = tidy.restore;
    install = tidy.install;
    reload = tidy.reload;
    restart = tidy.restart;
    status = tidy.status;
  }

  -- what is opened, used and closed
  used-Same :
      {A B : Type 0} (fd_of : A → ℕ) (leave : A → Effect S) (body : A → Action S B) (before : S)
      (o : Result A × S)
      → ((a : A) (t : S) → leave a t ≡ os.close (fd_of a) t)
      → ((a : A) → Relates (Same opened) (body a))
      → Yields opened fd_of before o
      → Same opened before (handle_with (λ e t. (err e, t)) (λ a. finally (leave a) (body a)) o).1
  used-Same fd_of leave body before (ok a, t) closes h k = rw (closes a (body a t).1) (
      closed-Same opened os.close descriptors.close (fd_of a) before (body a t).1
        (Adds-Same opened (fd_of a) before t (body a t).1 k (h a t)))
  used-Same fd_of leave body before (err e, t) closes h k = k

  module _ (options : DeploymentOptions) (target : PodmanTarget) (bundle : DeploymentBundle) where
    deploy_opened_lem :
        (result : DeploymentResult) (archive : Option OpenArchive)
        → Relates
            (Same opened)
            (deploy_opened staged controller options bundle target result archive)
    unfolding deploy_opened deploy_locked activate
    deploy_opened_lem result archive s = elim (Bool-cases options.dry_run) [
      | inl dry ↦ rw dry (λ d. refl)
      | inr real ↦ rw real (
          used-Same (λ fd. fd) os.close
            (λ _. deploy_locked staged controller options bundle target result archive) s
            (lock_deployment os at layout bundle.target_uid result.systemd_unit s) (λ fd t. refl)
            (λ _.
              deploy_locked_lem opened staged controller staged-Tidy options target bundle result
                archive)
            (lock_deployment-Yields os at opened descriptors layout bundle.target_uid
              result.systemd_unit s))
    ]

    -- behind the checks: the archive, and what is done with it
    abbrev with_archive : DeploymentResult → Option ImageArchive → Action S DeploymentResult
    with_archive result image_archive =
        open_archive staged controller options image_archive >>= λ archive.
        finally (close_if_open staged controller options archive)
          (deploy_opened staged controller options bundle target result archive)

    with_archive_lem :
        (result : DeploymentResult) (image_archive : Option ImageArchive)
        → Relates (Same opened) (with_archive result image_archive)
    with_archive_lem result none s = deploy_opened_lem result none s
    with_archive_lem result (some archive) s = opening options.load_image_archive
      where
        opened_lem :
            (o : Result OpenArchive × S)
            → Yields opened (λ a. a.fd) s o
            → Same opened s
                (handle_with
                  (λ e t. (err e, t))
                  (λ archive.
                    finally
                      (close_if_open staged controller options archive)
                      (deploy_opened staged controller options bundle target result archive))
                  (handle_with (λ e t. (err e, t)) (λ a. give (ok (some a))) o)).1
        opened_lem (err e, t) k = k
        opened_lem (ok a, t) k =
            used-Same (λ a. a.fd) (λ a. os.close a.fd)
              (λ a. deploy_opened staged controller options bundle target result (some a)) s
              (ok a, t) (λ a t. refl) (λ a. deploy_opened_lem result (some a)) k

        opening :
            (loads : Bool)
            → Same opened s
                (handle_with
                  (λ e t. (err e, t))
                  (λ archive.
                    finally
                      (close_if_open staged controller options archive)
                      (deploy_opened staged controller options bundle target result archive))
                  ((if loads
                      then (open_staged_image_archive os at archive options >>= λ opened.
                          give (ok (some opened)))
                      else give (ok none))
                    s)).1
        opening true =
            opened_lem (open_staged_image_archive os at archive options s)
              (open_staged_image_archive-Yields os at opened descriptors archive options s)
        opening false = deploy_opened_lem result none s

  deploy_with_lem :
      (settings : Settings) (bundle : DeploymentBundle)
      → Relates (Same opened) (deploy_with staged settings controller bundle)
  deploy_with_lem settings bundle =
      let looked_up =
        services.resolve_uid bundle.target_uid settings.options.runtime_layout
          settings.options.api_version in
      let expected =
        expected_install settings.layout settings.rules bundle.target_uid bundle.quadlet in
      let installing : PodmanTarget → InstalledQuadlet → Action S DeploymentResult = λ target i.
        with_archive settings.options target bundle (prepared settings.options i)
          bundle.image_archive in
      let aimed : PodmanTarget → Action S DeploymentResult =
        λ target. give expected >>= installing target in
      let checked : Unit {0} → Action S DeploymentResult = λ _. looked_up >>= aimed in
      let verified : Unit {0} → Action S DeploymentResult =
        λ _. give (validate_deployment_bundle bundle) >>= checked in
      let trans = Same-trans opened in
      then-Relates (Same opened) trans (give (verify bundle)) verified (λ s d. refl)
        (λ _.
          then-Relates (Same opened) trans (give (validate_deployment_bundle bundle)) checked
            (λ s d. refl)
            (λ _.
              then-Relates (Same opened) trans looked_up aimed (tidy.resolve_uid _ _ _) (λ target.
                then-Relates (Same opened) trans (give expected) (installing target) (λ s d. refl)
                  (λ i.
                    with_archive_lem settings.options target bundle (prepared settings.options i)
                      bundle.image_archive))))

  -- Where the archive and the lock are those of the sources, on system calls that open and close
  -- descriptors as documented, and every other service closes what it opens: a deployment, on
  -- every way out of it, leaves exactly those descriptors open that were open before it.
  pub deploy-Same :
      (settings : Settings) (bundle : DeploymentBundle)
      → Relates
          (Same opened)
          (deploy (with_staging os at layout services) settings (some controller) bundle)
  unfolding deploy
  deploy-Same settings bundle s = deploy_with_lem settings bundle s
