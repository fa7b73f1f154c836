-- ===== src/Deployment/Staging/Tidy.antt =====
-- What happens under the lock opens and closes in turn, where each service does.
use pod_installer.Base.{
  ℕ, Bool, true, false, ◌&&◌, ◌≡◌, refl, ap, arith, Option, none, some, Bytes, if◌then◌else◌,
}
use pod_installer.Error.{Error, ok}
use pod_installer.World.{give, handle, Relates, handle-Relates, then-Relates}
use pod_installer.Target.{PodmanTarget, RuntimeDirectoryLayout}
use pod_installer.Quadlet.QuadletPolicy.{QuadletFile}
use pod_installer.Quadlet.Installer.{QuadletSnapshot}
use pod_installer.Systemd.Status.{UnitOperationResult}
use pod_installer.Systemd.Controller.{UserSystemdController}
use pod_installer.Deployment.Bundle.{
  ImageArchive, DeploymentBundle, DeploymentOptions, DeploymentResult,
}
use pod_installer.Deployment.Services.{OpenArchive, Services}
use pod_installer.Deployment.Rollback.{
  rollback_error, restarted, restart_restored, deployed_status_is_healthy,
}
use pod_installer.Deployment.Orchestrator.{
  is_given, check_socket, load_archive, roll_back, judge, report, activate, deploy_locked,
}
use pod_installer.Deployment.Staging.Descriptors.{Same, Same-trans}

-- the services beside the archive and the lock, each of which closes what it opens
pub record Tidy {S : Type 0} (opened : ℕ → S → Bool) (services : Services S)
    (controller : UserSystemdController S) : Type 0 where
  pub resolve_uid :
      (uid : ℕ) (layout : RuntimeDirectoryLayout) (version : Bytes)
      → Relates (Same opened) (services.resolve_uid uid layout version)
  pub socket :
      (target : PodmanTarget) (layout : RuntimeDirectoryLayout)
      → Relates (Same opened) (services.validate_podman_socket target layout)
  pub ping : (target : PodmanTarget) → Relates (Same opened) (services.ping target)
  pub load :
      (target : PodmanTarget) (archive : OpenArchive)
      → Relates (Same opened) (services.load_image_archive_fd target archive)
  pub snapshot :
      (uid : ℕ) (name : Bytes) → Relates (Same opened) (services.snapshot_for_user uid name)
  pub restore :
      (uid : ℕ) (snapshot : QuadletSnapshot)
      → Relates (Same opened) (services.restore_for_user uid snapshot)
  pub install :
      (uid : ℕ) (file : QuadletFile) → Relates (Same opened) (services.install_for_user uid file)
  pub reload : (target : PodmanTarget) → Relates (Same opened) (controller.daemon_reload target)
  pub restart :
      (target : PodmanTarget) (unit : Bytes)
      → Relates (Same opened) (controller.restart_unit target unit)
  pub status :
      (target : PodmanTarget) (unit : Bytes) → Relates (Same opened) (controller.status target unit)

module _ {S : Type 0} (opened : ℕ → S → Bool) (services : Services S)
    (controller : UserSystemdController S) (tidy : Tidy opened services controller) where
  trans : (s t u : S) → Same opened s t → Same opened t u → Same opened s u
  trans = Same-trans opened

  restarted_state :
      (T : Type 0) (target : PodmanTarget) (original : Error) (operation : UnitOperationResult)
      (s : S)
      → (restarted {T = T} services controller target original operation s).1 ≡ s
  restarted_state T target original operation s = ground arith

  restart_restored_lem :
      (T : Type 0) (target : PodmanTarget) (unit : Bytes) (restart : Bool) (original : Error)
      → Relates
          (Same opened)
          (restart_restored {T = T} services controller target unit restart original)
  restart_restored_lem T target unit false original = λ s d. refl
  restart_restored_lem T target unit true original =
      handle-Relates (Same opened) trans (controller.restart_unit target unit) _ _
        (tidy.restart target unit) (λ e s d. refl)
        (λ operation s d. ap (opened d) (restarted_state T target original operation s))

  rollback_error_lem :
      (T : Type 0) (target : PodmanTarget) (uid : ℕ) (snapshot : QuadletSnapshot) (unit : Bytes)
      (restart : Bool) (original : Error)
      → Relates
          (Same opened)
          (rollback_error {T = T} services controller target uid snapshot unit restart original)
  unfolding rollback_error
  rollback_error_lem T target uid snapshot unit restart original =
      handle-Relates (Same opened) trans (services.restore_for_user uid snapshot) _ _
        (tidy.restore uid snapshot) (λ e s d. refl)
        (λ _.
          handle-Relates (Same opened) trans (controller.daemon_reload target) _ _
            (tidy.reload target) (λ e s d. refl)
            (λ _. restart_restored_lem T target unit (restart && snapshot.existed) _))

  module _ (options : DeploymentOptions) (target : PodmanTarget) where
    activate_lem :
        (uid : ℕ) (snapshot : QuadletSnapshot) (result : DeploymentResult)
        → Relates (Same opened) (activate services controller options target uid snapshot result)
    unfolding activate
    activate_lem uid snapshot result =
        handle-Relates (Same opened) trans (controller.daemon_reload target) _ _
          (tidy.reload target)
          (rollback_error_lem DeploymentResult target uid snapshot result.systemd_unit false)
          (λ _. chosen options.restart_unit)
      where
        undone :
            (e : Error)
            → Relates
                (Same opened)
                (roll_back services controller options target uid snapshot result true e)
        undone = rollback_error_lem DeploymentResult target uid snapshot result.systemd_unit true

        judged :
            (healthy : Bool) (operation : UnitOperationResult) (e : Error)
            → Relates (Same opened) (
                if healthy
                then give (
                    ok (record result {
                      job_path = operation.job_path;
                      status = some operation.final_status;
                    }))
                else roll_back services controller options target uid snapshot result true e)
        judged true operation e = λ s d. refl
        judged false operation e = undone e

        chosen :
            (restart : Bool)
            → Relates (Same opened) (
                if restart
                then handle
                    (controller.restart_unit target result.systemd_unit)
                    (roll_back services controller options target uid snapshot result true)
                    (judge services controller options target uid snapshot result)
                else report services controller options target uid snapshot result)
        chosen true =
            handle-Relates (Same opened) trans (controller.restart_unit target result.systemd_unit)
              _ _ (tidy.restart target result.systemd_unit) undone
              (λ operation. judged (deployed_status_is_healthy operation.final_status) operation _)
        chosen false =
            handle-Relates (Same opened) trans (controller.status target result.systemd_unit) _ _
              (tidy.status target result.systemd_unit) (λ e s d. refl) (λ status s d. refl)

    check_socket_lem :
        (image_archive : Option ImageArchive)
        → Relates (Same opened) (check_socket services controller options target image_archive)
    check_socket_lem image_archive =
        checked (options.validate_socket && options.load_image_archive && is_given image_archive)
      where
        checked :
            (needed : Bool)
            → Relates (Same opened) (
                if needed
                then services.validate_podman_socket target options.runtime_layout
                else give (ok tt))
        checked true = tidy.socket target options.runtime_layout
        checked false = λ s d. refl

    load_archive_lem :
        (archive : Option OpenArchive)
        → Relates (Same opened) (load_archive services controller options target archive)
    load_archive_lem none = λ s d. refl
    load_archive_lem (some archive) =
        then-Relates (Same opened) trans (services.ping target) _ (tidy.ping target)
          (λ _. tidy.load target archive)

    pub deploy_locked_lem :
        (bundle : DeploymentBundle) (result : DeploymentResult) (archive : Option OpenArchive)
        → Relates
            (Same opened)
            (deploy_locked services controller options bundle target result archive)
    unfolding deploy_locked
    deploy_locked_lem bundle result archive =
        let checked = check_socket services controller options target bundle.image_archive in
        let loaded = load_archive services controller options target archive in
        let saved = services.snapshot_for_user bundle.target_uid bundle.quadlet.file_name in
        let installed = services.install_for_user bundle.target_uid bundle.quadlet in
        then-Relates (Same opened) trans checked _ (check_socket_lem bundle.image_archive) (λ _.
          then-Relates (Same opened) trans loaded _ (load_archive_lem archive) (λ _.
            then-Relates (Same opened) trans saved _ (tidy.snapshot _ _) (λ snapshot.
              then-Relates (Same opened) trans installed _ (tidy.install _ _)
                (λ i. activate_lem bundle.target_uid snapshot _))))
