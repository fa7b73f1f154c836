-- ===== src/Deployment/Orchestrator/Transaction.antt =====
-- The steps behind the installation: one that fails leaves the installed file as it was.
use pod_installer.Base.{
  ℕ, Bool, true, false, ◌&&◌, ◌++◌, Option, some, ◌≡◌, ◌⊎◌, inl, inr, refl, ◌∙◌, Bytes, text,
  if◌then◌else◌, Bool-cases,
}
use pod_installer.Error.{Error, Result, ok, err}
use pod_installer.World.{Effect, handle, handle-rule}
use pod_installer.Target.{PodmanTarget}
use pod_installer.Quadlet.QuadletPolicy.{QuadletFile}
use pod_installer.Quadlet.Installer.{QuadletSnapshot}
use pod_installer.Systemd.Status.{UnitOperationResult}
use pod_installer.Deployment.Bundle.{DeploymentOptions, DeploymentResult}
use pod_installer.Deployment.Services.{Services}
use pod_installer.Systemd.Controller.{UserSystemdController}
use pod_installer.Deployment.Rollback.{
  noted, rollback_error, restarted, restart_restored, deployed_status_is_healthy,
}
use pod_installer.Deployment.Orchestrator.{activate, roll_back, judge, report}
use pod_installer.Deployment.Orchestrator.Views.{Laws, Saves, Keeps-at}

module _ {S : Type 0} (file : S → Option Bytes) (services : Services S) (uid : ℕ)
    (quadlet : QuadletFile) (before : Option Bytes) where
  -- the installation itself failed on the old file with this error, the new file in place
  pub record InstallFailed (e : Error) : Type 0 where
    pub s : S
    pub t : S
    pub fails : services.install_for_user uid quadlet s ≡ (err e, t)
    pub from : file s ≡ before

  -- a later step failed, and so did the restore of a snapshot of the old file; the error says so
  pub record RestoreFailed (e : Error) : Type 0 where
    pub snapshot : QuadletSnapshot
    pub s : S
    pub t : S
    pub original : Error
    pub reason : Error
    pub holds : Saves quadlet before snapshot
    pub fails : services.restore_for_user uid snapshot s ≡ (err reason, t)
    pub says : e ≡ noted original (text "; rollback failed: " ++ reason.message)

  -- where a failed deployment leaves the file: as it was, or with the new contents
  abbrev pub Undone : Error → Option Bytes → Type 0
  Undone e after =
      (after ≡ before) ⊎ ((after ≡ some quadlet.contents) × (InstallFailed e ⊎ RestoreFailed e))

  abbrev pub Outcome : {T : Type 0} → Result T × S → Type 0
  Outcome (ok r, t) = Unit
  Outcome (err e, t) = Undone e (file t)

  pub Outcome-leave :
      {T : Type 0} (leave : Effect S) (o : Result T × S)
      → ((t : S) → file (leave t) ≡ file t)
      → Outcome o
      → Outcome (o.0, leave o.1)
  Outcome-leave leave (ok r, t) keeps h = tt
  Outcome-leave leave (err e, t) keeps h = rw keeps h

  module _ (controller : UserSystemdController S)
      (laws : Laws file services controller uid quadlet) where
    -- behind a restore, the file stays what it was before
    restarted_lem :
        (T : Type 0) (target : PodmanTarget) (original : Error) (operation : UnitOperationResult)
        (s : S)
        → file s ≡ before
        → Outcome (restarted {T = T} services controller target original operation s)
    restarted_lem T target original operation s h =
        elim (Bool-cases (deployed_status_is_healthy operation.final_status)) [
          | inl healthy ↦ rw healthy (inl h)
          | inr unhealthy ↦ rw unhealthy (inl h)
        ]

    restart_restored_lem :
        (T : Type 0) (target : PodmanTarget) (unit : Bytes) (restart : Bool) (original : Error)
        (s : S)
        → file s ≡ before
        → Outcome (restart_restored {T = T} services controller target unit restart original s)
    restart_restored_lem T target unit false original s h = inl h
    restart_restored_lem T target unit true original s h =
        handle-rule Outcome (controller.restart_unit target unit) _ _ s
          (λ e t r. inl (
            Keeps-at file (controller.restart_unit target unit) s t _
              (laws.others.restart target unit) r
            ∙ h))
          (λ op t r. restarted_lem T target original op t (
            Keeps-at file (controller.restart_unit target unit) s t _
              (laws.others.restart target unit) r
            ∙ h))

    -- the restore failed, and did its work or nothing
    restore_failed :
        (snapshot : QuadletSnapshot) (original reason e : Error) (s t : S)
        → Saves quadlet before snapshot
        → file s ≡ some quadlet.contents
        → services.restore_for_user uid snapshot s ≡ (err reason, t)
        → e ≡ noted original (text "; rollback failed: " ++ reason.message)
        → Undone e (file t)
    restore_failed snapshot original reason e s t holds now h says =
        elim (laws.not_restored s t snapshot reason holds.1 h) [
          | inl same ↦ inr (
            same ∙ now,
            inr (record {
              snapshot = snapshot;
              s = s;
              t = t;
              original = original;
              reason = reason;
              holds = holds;
              fails = h;
              says = says;
            }),
          )
          | inr back ↦ inl (back ∙ holds.0)
        ]

    rollback_error_lem :
        (T : Type 0) (target : PodmanTarget) (snapshot : QuadletSnapshot) (unit : Bytes)
        (restart : Bool) (original : Error) (s : S)
        → Saves quadlet before snapshot
        → file s ≡ some quadlet.contents
        → Outcome
            (rollback_error {T = T} services controller target uid snapshot unit restart original s)
    unfolding rollback_error
    rollback_error_lem T target snapshot unit restart original s holds now =
        handle-rule Outcome (services.restore_for_user uid snapshot) _ _ s
          (λ e t h. restore_failed snapshot original e _ s t holds now h refl)
          (λ _ t h.
            let back = laws.restored s t snapshot holds.1 h ∙ holds.0 in
            handle-rule Outcome (controller.daemon_reload target) _ _ t
              (λ e u r. inl (
                Keeps-at file (controller.daemon_reload target) t u _ (laws.others.reload target) r
                ∙ back))
              (λ _ u r. restart_restored_lem T target unit (restart && snapshot.existed) _ u (
                Keeps-at file (controller.daemon_reload target) t u _ (laws.others.reload target) r
                ∙ back)))

    module _ (options : DeploymentOptions) (target : PodmanTarget) (snapshot : QuadletSnapshot)
        (result : DeploymentResult) (holds : Saves quadlet before snapshot) where
      kept_restart :
          (s t : S) (r : Result UnitOperationResult)
          → controller.restart_unit target result.systemd_unit s ≡ (r, t)
          → file s ≡ some quadlet.contents
          → file t ≡ some quadlet.contents
      kept_restart s t r e now =
          Keeps-at file (controller.restart_unit target result.systemd_unit) s t r
            (laws.others.restart target result.systemd_unit) e
          ∙ now

      kept_reload :
          (s t : S) (r : Result (Unit {0}))
          → controller.daemon_reload target s ≡ (r, t)
          → file s ≡ some quadlet.contents
          → file t ≡ some quadlet.contents
      kept_reload s t r e now =
          Keeps-at file (controller.daemon_reload target) s t r (laws.others.reload target) e ∙ now

      judge_lem :
          (operation : UnitOperationResult) (s : S)
          → file s ≡ some quadlet.contents
          → Outcome (judge services controller options target uid snapshot result operation s)
      judge_lem operation s now =
          elim (Bool-cases (deployed_status_is_healthy operation.final_status)) [
            | inl healthy ↦ rw healthy tt
            | inr unhealthy ↦ rw unhealthy (
                rollback_error_lem DeploymentResult target snapshot result.systemd_unit true _ s
                  holds now)
          ]

      reloaded_lem :
          (restart : Bool) (s : S)
          → file s ≡ some quadlet.contents
          → Outcome (
              (if restart
                  then handle
                      (controller.restart_unit target result.systemd_unit)
                      (roll_back services controller options target uid snapshot result true)
                      (judge services controller options target uid snapshot result)
                  else report services controller options target uid snapshot result)
                s)
      reloaded_lem true s now =
          handle-rule Outcome (controller.restart_unit target result.systemd_unit) _ _ s
            (λ e t r.
              rollback_error_lem DeploymentResult target snapshot result.systemd_unit true e t holds
                (kept_restart s t _ r now))
            (λ operation t r. judge_lem operation t (kept_restart s t _ r now))
      reloaded_lem false s now =
          handle-rule Outcome (controller.status target result.systemd_unit) _ _ s (λ e t r. tt)
            (λ status t r. tt)

      pub activate_lem :
          (s : S)
          → file s ≡ some quadlet.contents
          → Outcome (activate services controller options target uid snapshot result s)
      unfolding activate
      activate_lem s now =
          handle-rule Outcome (controller.daemon_reload target) _ _ s
            (λ e t r.
              rollback_error_lem DeploymentResult target snapshot result.systemd_unit false e t
                holds (kept_reload s t _ r now))
            (λ _ t r. reloaded_lem options.restart_unit t (kept_reload s t _ r now))
