-- ===== src/Deployment/Orchestrator/Atomic.antt =====
-- A deployment that fails leaves the installed file as it was.
use pod_installer.Base.{
  Bool, true, false, ◌&&◌, Option, none, some, ◌≡◌, inl, inr, refl, ◌∙◌, Bytes, if◌then◌else◌,
}
use pod_installer.Error.{Error, Result, ok, err}
use pod_installer.World.{Action, give, finally, ◌>>=◌, handle-rule}
use pod_installer.Quadlet.QuadletPolicy.{QuadletPolicy}
use pod_installer.Target.{PodmanTarget}
use pod_installer.Quadlet.Installer.{QuadletInstallLayout, expected_install}
use pod_installer.Deployment.Bundle.{
  DeploymentBundle, DeploymentOptions, DeploymentResult, ImageArchive, validate_deployment_bundle,
}
use pod_installer.Deployment.Services.{OpenArchive, Services}
use pod_installer.Systemd.Controller.{UserSystemdController}
use pod_installer.Deployment.Orchestrator.{
  Settings, is_given, open_archive, close_if_open, check_socket, load_archive, deploy_locked,
  deploy_opened, deploy, prepared, with_installed,
}
use pod_installer.Deployment.Orchestrator.Views.{Keeps, Laws, Keeps-at}
use pod_installer.Deployment.Orchestrator.Transaction.{Undone, Outcome, Outcome-leave, activate_lem}

module _ {S : Type 0} (file : S → Option Bytes) (services : Services S)
    (controller : UserSystemdController S) (bundle : DeploymentBundle)
    (laws : Laws file services controller bundle.target_uid bundle.quadlet)
    (options : DeploymentOptions) where
  Keeps-then :
      {A B : Type 0} (call : Action S A) (next : A → Action S B)
      → Keeps file call
      → ((a : A) → Keeps file (next a))
      → Keeps file (call >>= next)
  Keeps-then call next k l s =
      handle-rule (λ o. file o.1 ≡ file s) call _ next s (λ e t r. Keeps-at file call s t _ k r)
        (λ a t r. l a t ∙ Keeps-at file call s t _ k r)

  Keeps-if :
      {A : Type 0} (b : Bool) (call other : Action S A)
      → Keeps file call
      → Keeps file other
      → Keeps file (if b then call else other)
  Keeps-if true call other k l = k
  Keeps-if false call other k l = l

  open_archive-Keeps :
      (archive : Option ImageArchive)
      → Keeps file (open_archive services controller options archive)
  open_archive-Keeps none = λ s. refl
  open_archive-Keeps (some archive) =
      Keeps-if options.load_image_archive _ _
        (Keeps-then (services.open_staged_image_archive archive options) _
          (laws.others.opens archive options) (λ a t. refl))
        (λ s. refl)

  pub close_if_open-keeps :
      (archive : Option OpenArchive) (s : S)
      → file (close_if_open services controller options archive s) ≡ file s
  close_if_open-keeps none s = refl
  close_if_open-keeps (some archive) s = laws.others.close archive s

  check_socket-Keeps :
      (target : PodmanTarget) (archive : Option ImageArchive)
      → Keeps file (check_socket services controller options target archive)
  check_socket-Keeps target archive =
      Keeps-if (options.validate_socket && options.load_image_archive && is_given archive) _ _
        (laws.others.socket target options.runtime_layout) (λ s. refl)

  load_archive-Keeps :
      (target : PodmanTarget) (archive : Option OpenArchive)
      → Keeps file (load_archive services controller options target archive)
  load_archive-Keeps target none s = refl
  load_archive-Keeps target (some archive) s =
      Keeps-then (services.ping target) _ (laws.others.ping target)
        (λ _. laws.others.load target archive) s

  module _ (before : Option Bytes) where
    -- where a call of the deployment leaves the file
    abbrev Left : {T : Type 0} → Result T × S → Type 0
    Left = Outcome file services bundle.target_uid bundle.quadlet before

    step :
        {A T : Type 0} (call : Action S A) (next : A → Action S T) (s : S)
        → Keeps file call
        → file s ≡ before
        → ((a : A) (t : S) → call s ≡ (ok a, t) → file t ≡ before → Left (next a t))
        → Left ((call >>= next) s)
    step call next s keeps h f =
        handle-rule Left call _ next s (λ e t r. inl (Keeps-at file call s t _ keeps r ∙ h))
          (λ a t r. f a t r (Keeps-at file call s t _ keeps r ∙ h))

    install_failed :
        (s : S)
        → file s ≡ before
        → (e : Error) (t : S)
        → services.install_for_user bundle.target_uid bundle.quadlet s ≡ (err e, t)
        → Undone file services bundle.target_uid bundle.quadlet before e (file t)
    install_failed s h e t r = elim (laws.not_installed s t e r) [
      | inl same ↦ inl (same ∙ h)
      | inr new ↦ inr (new, inl (record { s = s; t = t; fails = r; from = h }))
    ]

    deploy_locked_lem :
        (target : PodmanTarget) (result : DeploymentResult) (archive : Option OpenArchive) (s : S)
        → file s ≡ before
        → Left (deploy_locked services controller options bundle target result archive s)
    unfolding deploy_locked
    deploy_locked_lem target result archive s h =
        step (check_socket services controller options target bundle.image_archive) _ s
          (check_socket-Keeps target bundle.image_archive) h
          (λ _ s1 _ h1.
            step (load_archive services controller options target archive) _ s1
              (load_archive-Keeps target archive) h1
              (λ _ s2 _ h2.
                step (services.snapshot_for_user bundle.target_uid bundle.quadlet.file_name) _ s2
                  laws.snapshot h2
                  (λ snapshot s3 taken h3.
                    handle-rule Left (services.install_for_user bundle.target_uid bundle.quadlet) _
                      _ s3 (install_failed s3 h3)
                      (λ installed t r.
                        let (holds, same_name) = laws.snapshot_saved s2 s3 snapshot taken in
                        activate_lem file services bundle.target_uid bundle.quadlet before
                          controller laws options target snapshot
                          (with_installed services controller options result installed)
                          (holds ∙ h2, same_name) t (laws.installed s3 t installed r)))))

    deploy_opened_lem :
        (dry_run : Bool) (target : PodmanTarget) (result : DeploymentResult)
        (archive : Option OpenArchive) (s : S)
        → file s ≡ before
        → Left (
            (if dry_run
                then give (ok result)
                else services.lock_deployment bundle.target_uid result.systemd_unit >>= λ lock.
                    finally
                      (services.unlock lock)
                      (deploy_locked services controller options bundle target result archive))
              s)
    deploy_opened_lem true target result archive s h = tt
    deploy_opened_lem false target result archive s h =
        step (services.lock_deployment bundle.target_uid result.systemd_unit) _ s
          (laws.others.lock result.systemd_unit) h
          (λ lock t _ h1.
            Outcome-leave file services bundle.target_uid bundle.quadlet before
              (services.unlock lock) _ (laws.others.unlock lock)
              (deploy_locked_lem target result archive t h1))

    deploy_lem :
        (layout : QuadletInstallLayout) (rules : QuadletPolicy) (s : S)
        → file s ≡ before
        → Left (
            deploy services
              (record { layout = layout; rules = rules; options = options })
              (some controller)
              bundle
              s)
    unfolding deploy deploy_opened
    deploy_lem layout rules s h =
        step (give (validate_deployment_bundle bundle)) _ s (λ u. refl) h
          (λ _ s1 _ h1.
            step (services.resolve_uid bundle.target_uid options.runtime_layout options.api_version)
              _ s1 (laws.others.resolve_uid options.runtime_layout options.api_version) h1
              (λ target s2 _ h2.
                step (give (expected_install layout rules bundle.target_uid bundle.quadlet)) _ s2
                  (λ u. refl) h2
                  (λ expected s3 _ h3.
                    step (open_archive services controller options bundle.image_archive) _ s3
                      (open_archive-Keeps bundle.image_archive) h3
                      (λ archive s4 _ h4.
                        Outcome-leave file services bundle.target_uid bundle.quadlet before
                          (close_if_open services controller options archive) _
                          (close_if_open-keeps archive)
                          (deploy_opened_lem options.dry_run target (prepared options expected)
                            archive s4 h4)))))

-- Under the laws of the services, a deployment that returns an error leaves the Quadlet of the
-- user as it was before, or it leaves just the contents of the bundle's Quadlet there, and then
-- the installation itself failed with this error, or the restore of a snapshot of the old file
-- failed, and the error ends with the reason. A part of the contents is never left.
pub deploy-Undone :
    {S : Type 0} (file : S → Option Bytes) (services : Services S)
    (controller : UserSystemdController S) (settings : Settings) (bundle : DeploymentBundle)
    (s t : S) (e : Error)
    → Laws file services controller bundle.target_uid bundle.quadlet
    → deploy services settings (some controller) bundle s ≡ (err e, t)
    → Undone file services bundle.target_uid bundle.quadlet (file s) e (file t)
deploy-Undone file services controller settings bundle s t e laws h =
    let o =
      deploy_lem file services controller bundle laws settings.options (file s) settings.layout
        settings.rules s refl in
    rw h at o
