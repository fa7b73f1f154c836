-- ===== src/Deployment/Rollback.antt =====
-- `deployed_status_is_healthy`, `describe_status` and `rollback_error` of src/deployment.cpp.
use pod_installer.Base.{ℕ, Bool, ◌&&◌, ◌++◌, Bytes, text, equal, if◌then◌else◌}
use pod_installer.Error.{Error, err}
use pod_installer.World.{Action, handle}
use pod_installer.Target.{PodmanTarget}
use pod_installer.Systemd.Status.{UnitStatus, UnitOperationResult}
use pod_installer.Quadlet.Installer.{QuadletSnapshot}
use pod_installer.Deployment.Services.{Services}
use pod_installer.Systemd.Controller.{UserSystemdController}

unfoldable pub deployed_status_is_healthy : UnitStatus → Bool
deployed_status_is_healthy status =
    equal status.load_state (text "loaded") && equal status.active_state (text "active")

unfoldable pub describe_status : UnitStatus → Bytes
describe_status status =
    text "LoadState="
    ++ status.load_state
    ++ text " ActiveState="
    ++ status.active_state
    ++ text " SubState="
    ++ status.sub_state

-- `original.message += text; return std::unexpected(std::move(original));`
abbrev pub noted : Error → Bytes → Error
noted original note = record original { message = original.message ++ note }

module _ {S : Type 0} {T : Type 0} (services : Services S) (systemd : UserSystemdController S)
    (target : PodmanTarget) where
  -- the branch behind the restart of the restored unit
  abbrev pub restarted : Error → UnitOperationResult → Action S T
  restarted original operation s =
      if deployed_status_is_healthy operation.final_status then (err original, s) else (
        err (
            noted original (
              text "; rollback restart left unit unhealthy: "
              ++ describe_status operation.final_status)),
        s,
      )

  -- the branch behind the reload
  abbrev pub restart_restored : Bytes → Bool → Error → Action S T
  restart_restored unit restart original =
      if restart
      then handle (systemd.restart_unit target unit)
          (λ e s. (err (noted original (text "; rollback restart failed: " ++ e.message)), s))
          (restarted original)
      else λ s. (err original, s)

  -- `rollback_error`
  unfoldable pub rollback_error : ℕ → QuadletSnapshot → Bytes → Bool → Error → Action S T
  unfolding deployed_status_is_healthy describe_status
  rollback_error uid snapshot unit restart_restored_unit original =
      handle (services.restore_for_user uid snapshot)
        (λ e s. (err (noted original (text "; rollback failed: " ++ e.message)), s))
        (λ _.
          let undone = noted original (text "; rolled back installed Quadlet") in
          handle (systemd.daemon_reload target)
            (λ e s. (err (noted undone (text "; rollback daemon-reload failed: " ++ e.message)), s))
            (λ _. restart_restored unit (restart_restored_unit && snapshot.existed) undone))
