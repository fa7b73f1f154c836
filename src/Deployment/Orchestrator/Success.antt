-- ===== src/Deployment/Orchestrator/Success.antt =====
-- What a deployment that succeeds has done.
use pod_installer.Base.{
  ℕ, Bool, true, false, ◌&&◌, Option, some, ◌≡◌, refl, ◌∙◌, Bytes, if◌then◌else◌, Bool-cases, inl,
  inr,
}
use pod_installer.Error.{Error, Result, ok, err}
use pod_installer.World.{Action, Effect, give, handle, finally, ◌>>=◌, handle-rule}
use pod_installer.Target.{PodmanTarget}
use pod_installer.Quadlet.QuadletPolicy.{QuadletPolicy}
use pod_installer.Quadlet.Installer.{QuadletSnapshot, QuadletInstallLayout, expected_install}
use pod_installer.Systemd.Status.{UnitStatus, UnitOperationResult}
use pod_installer.Deployment.Bundle.{
  DeploymentBundle, DeploymentOptions, DeploymentResult, validate_deployment_bundle,
}
use pod_installer.Deployment.Services.{OpenArchive, Services}
use pod_installer.Systemd.Controller.{UserSystemdController}
use pod_installer.Deployment.Rollback.{rollback_error, restart_restored, deployed_status_is_healthy}
use pod_installer.Deployment.Orchestrator.{
  Settings, activate, open_archive, close_if_open, check_socket, load_archive, deploy_locked,
  deploy_opened, deploy, prepared, roll_back, judge, report, with_installed,
}
use pod_installer.Deployment.Orchestrator.Atomic.{close_if_open-keeps}
use pod_installer.Deployment.Orchestrator.Views.{Laws, Keeps-at}

-- the unit was seen to be loaded and active, if it was to be restarted
abbrev pub SeenHealthy : Bool → DeploymentResult → Type 0
SeenHealthy false result = Unit
SeenHealthy true result =
    (status : UnitStatus) × (result.status ≡ some status)
    × (deployed_status_is_healthy status ≡ true)

SeenHealthy-of :
    (restart : Bool) (result : DeploymentResult) (status : UnitStatus)
    → result.status ≡ some status
    → deployed_status_is_healthy status ≡ true
    → SeenHealthy restart result
SeenHealthy-of false result status e h = tt
SeenHealthy-of true result status e h = (status, e, h)

SeenHealthy-of_unwanted :
    (restart : Bool) (result : DeploymentResult) → restart ≡ false → SeenHealthy restart result
SeenHealthy-of_unwanted false result h = tt
SeenHealthy-of_unwanted true result h = cc

module _ {S : Type 0} (file : S → Option Bytes) (services : Services S)
    (controller : UserSystemdController S) (bundle : DeploymentBundle)
    (laws : Laws file services controller bundle.target_uid bundle.quadlet)
    (options : DeploymentOptions) where
  abbrev Done : Result DeploymentResult × S → Type 0
  Done (ok result, t) =
      (file t ≡ some bundle.quadlet.contents) × SeenHealthy options.restart_unit result
  Done (err e, t) = Unit

  -- a rollback is always an error
  restart_restored_lem :
      (target : PodmanTarget) (unit : Bytes) (restart : Bool) (original : Error) (s : S)
      → Done (
          restart_restored {T = DeploymentResult} services controller target unit restart original
            s)
  restart_restored_lem target unit false original s = tt
  restart_restored_lem target unit true original s =
      handle-rule Done (controller.restart_unit target unit) _ _ s (λ e t r. tt)
        (λ operation t r. elim (Bool-cases (deployed_status_is_healthy operation.final_status)) [
          | inl healthy ↦ rw healthy tt
          | inr unhealthy ↦ rw unhealthy tt
        ])

  rollback_error_lem :
      (target : PodmanTarget) (uid : ℕ) (snapshot : QuadletSnapshot) (unit : Bytes) (restart : Bool)
      (original : Error) (s : S)
      → Done (
          rollback_error {T = DeploymentResult} services controller target uid snapshot unit restart
            original s)
  unfolding rollback_error
  rollback_error_lem target uid snapshot unit restart original s =
      handle-rule Done (services.restore_for_user uid snapshot) _ _ s (λ e t r. tt)
        (λ _ t r.
          handle-rule Done (controller.daemon_reload target) _ _ t (λ e u q. tt)
            (λ _ u q. restart_restored_lem target unit (restart && snapshot.existed) _ u))

  module _ (target : PodmanTarget) (snapshot : QuadletSnapshot) (result : DeploymentResult) where
    judge_lem :
        (operation : UnitOperationResult) (s : S)
        → file s ≡ some bundle.quadlet.contents
        → Done
            (judge services controller options target bundle.target_uid snapshot result operation s)
    judge_lem operation s h =
        elim (Bool-cases (deployed_status_is_healthy operation.final_status)) [
          | inl healthy ↦
              rw healthy
                (h, SeenHealthy-of options.restart_unit _ operation.final_status refl healthy)
          | inr unhealthy ↦
              rw unhealthy
                (rollback_error_lem target bundle.target_uid snapshot result.systemd_unit true _ s)
        ]

    reloaded_lem :
        (restart : Bool) (s : S)
        → options.restart_unit ≡ restart
        → file s ≡ some bundle.quadlet.contents
        → Done (
            (if restart
                then handle
                    (controller.restart_unit target result.systemd_unit)
                    (roll_back services controller options target bundle.target_uid snapshot result
                      true)
                    (judge services controller options target bundle.target_uid snapshot result)
                else report services controller options target bundle.target_uid snapshot result)
              s)
    reloaded_lem true s wanted h =
        handle-rule Done (controller.restart_unit target result.systemd_unit) _ _ s
          (λ e t r.
            rollback_error_lem target bundle.target_uid snapshot result.systemd_unit true e t)
          (λ operation t r. judge_lem operation t (
            Keeps-at file (controller.restart_unit target result.systemd_unit) s t _
              (laws.others.restart target result.systemd_unit) r
            ∙ h))
    reloaded_lem false s unwanted h =
        let kept =
          λ (t : S) (r : Result UnitStatus)
              (q : controller.status target result.systemd_unit s ≡ (r, t)).
            Keeps-at file (controller.status target result.systemd_unit) s t r
              (laws.others.status target result.systemd_unit) q
            ∙ h in
        handle-rule Done (controller.status target result.systemd_unit) _ _ s
          (λ e t r. (kept t _ r, SeenHealthy-of_unwanted options.restart_unit _ unwanted))
          (λ status t r. (kept t _ r, SeenHealthy-of_unwanted options.restart_unit _ unwanted))

    activate_lem :
        (s : S)
        → file s ≡ some bundle.quadlet.contents
        → Done (activate services controller options target bundle.target_uid snapshot result s)
    unfolding activate
    activate_lem s h =
        handle-rule Done (controller.daemon_reload target) _ _ s
          (λ e t r.
            rollback_error_lem target bundle.target_uid snapshot result.systemd_unit false e t)
          (λ _ t r. reloaded_lem options.restart_unit t refl (
            Keeps-at file (controller.daemon_reload target) s t _ (laws.others.reload target) r
            ∙ h))

  -- a step whose error ends the deployment
  step :
      {A : Type 0} (call : Action S A) (next : A → Action S DeploymentResult) (s : S)
      → ((a : A) (t : S) → call s ≡ (ok a, t) → Done (next a t))
      → Done ((call >>= next) s)
  step call next s f = handle-rule Done call _ next s (λ e t r. tt) f

  Done-leave :
      (leave : Effect S) (o : Result DeploymentResult × S)
      → ((t : S) → file (leave t) ≡ file t)
      → Done o
      → Done (o.0, leave o.1)
  Done-leave leave (ok r, t) keeps (h, seen) = (keeps t ∙ h, seen)
  Done-leave leave (err e, t) keeps h = tt

  deploy_locked_lem :
      (target : PodmanTarget) (result : DeploymentResult) (archive : Option OpenArchive) (s : S)
      → Done (deploy_locked services controller options bundle target result archive s)
  unfolding deploy_locked
  deploy_locked_lem target result archive s =
      step (check_socket services controller options target bundle.image_archive) _ s (λ _ s1 _.
        step (load_archive services controller options target archive) _ s1 (λ _ s2 _.
          step (services.snapshot_for_user bundle.target_uid bundle.quadlet.file_name) _ s2
            (λ snapshot s3 _.
              step (services.install_for_user bundle.target_uid bundle.quadlet) _ s3
                (λ installed t r.
                  activate_lem target snapshot
                    (with_installed services controller options result installed) t
                    (laws.installed s3 t installed r)))))

  deploy_opened_lem :
      (dry_run : Bool) (target : PodmanTarget) (result : DeploymentResult)
      (archive : Option OpenArchive) (s : S)
      → dry_run ≡ false
      → Done (
          (if dry_run
              then give (ok result)
              else services.lock_deployment bundle.target_uid result.systemd_unit >>= λ lock.
                  finally
                    (services.unlock lock)
                    (deploy_locked services controller options bundle target result archive))
            s)
  deploy_opened_lem true target result archive s real = cc
  deploy_opened_lem false target result archive s real =
      step (services.lock_deployment bundle.target_uid result.systemd_unit) _ s (λ lock t _.
        Done-leave (services.unlock lock) _ (laws.others.unlock lock)
          (deploy_locked_lem target result archive t))

  deploy_lem :
      (layout : QuadletInstallLayout) (rules : QuadletPolicy) (s : S)
      → options.dry_run ≡ false
      → Done (
          deploy services
            (record { layout = layout; rules = rules; options = options })
            (some controller)
            bundle
            s)
  unfolding deploy deploy_opened
  deploy_lem layout rules s real = step (give (validate_deployment_bundle bundle)) _ s (λ _ s1 _.
      step (services.resolve_uid bundle.target_uid options.runtime_layout options.api_version) _ s1
        (λ target s2 _.
          step (give (expected_install layout rules bundle.target_uid bundle.quadlet)) _ s2
            (λ expected s3 _.
              step (open_archive services controller options bundle.image_archive) _ s3
                (λ archive s4 _.
                  Done-leave (close_if_open services controller options archive) _
                    (close_if_open-keeps file services controller bundle laws options archive)
                    (deploy_opened_lem options.dry_run target (prepared options expected) archive s4
                      real)))))

-- Under the laws of the services, a deployment that succeeds and is no dry run has left the
-- contents of the bundle's Quadlet in the file of the user, and if the unit was to be restarted, it returns a status of the unit
-- that is loaded and active.
pub deploy-installed :
    {S : Type 0} (file : S → Option Bytes) (services : Services S)
    (controller : UserSystemdController S) (settings : Settings) (bundle : DeploymentBundle)
    (s t : S) (result : DeploymentResult)
    → Laws file services controller bundle.target_uid bundle.quadlet
    → settings.options.dry_run ≡ false
    → deploy services settings (some controller) bundle s ≡ (ok result, t)
    → (file t ≡ some bundle.quadlet.contents) × SeenHealthy settings.options.restart_unit result
deploy-installed file services controller settings bundle s t result laws real h =
    let o =
      deploy_lem file services controller bundle laws settings.options settings.layout
        settings.rules s real in
    rw h at o
