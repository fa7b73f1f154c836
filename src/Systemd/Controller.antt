-- ===== src/Systemd/Controller.antt =====
-- `UserSystemdController` of include/pod_installer/systemd.hpp, and the classes of
-- src/systemd.cpp that run systemctl: `SystemctlSliceController` and
-- `SystemctlUserSystemdController`.
pub mod Started
use pod_installer.Base.{
  Bool, true, false, List, [], ◌∷◌, ◌++◌, Option, none, some, Bytes, text, if◌then◌else◌,
}
use pod_installer.Error.{Result, ok, err}
use pod_installer.World.{Action, give, ◌>>=◌, ◌>>◌}
use pod_installer.Target.{PodmanTarget}
use pod_installer.Systemd.Unit.{validate_systemd_unit_name, build_systemctl_user_args}
use pod_installer.Systemd.Slice.{UserSlicePolicy, build_systemctl_set_property_args}
use pod_installer.Systemd.Status.{UnitStatus, UnitOperationResult, parse_show_status}
use pod_installer.Systemd.Process.{Processes, run_process, run_process_capture}

pub record UserSystemdController (S : Type 0) : Type 0 where
  pub daemon_reload : PodmanTarget → Action S (Unit {0})
  pub start_unit : PodmanTarget → Bytes → Action S UnitOperationResult
  pub restart_unit : PodmanTarget → Bytes → Action S UnitOperationResult
  pub stop_unit : PodmanTarget → Bytes → Action S UnitOperationResult
  pub status : PodmanTarget → Bytes → Action S UnitStatus

module _ {S : Type 0} (os : Processes S) (dry_run : Bool) where
  -- `SystemctlSliceController::apply`
  unfoldable pub apply : UserSlicePolicy → Action S (Unit {0})
  apply slice = do
    args ← give (build_systemctl_set_property_args slice)
    if dry_run then give (ok tt) else run_process os args

  unfoldable pub systemctl_daemon_reload : PodmanTarget → Action S (Unit {0})
  systemctl_daemon_reload target = do
    args ← give (build_systemctl_user_args target (text "daemon-reload") none)
    if dry_run then give (ok tt) else run_process os args

  -- the arguments that ask for the three states
  abbrev pub show_properties : List Bytes
  show_properties =
      text "--property=LoadState" ∷ text "--property=ActiveState" ∷ text "--property=SubState" ∷ []

  abbrev pub unknown_status : Bytes → UnitStatus
  unknown_status unit = record { unit = unit; load_state = []; active_state = []; sub_state = [] }

  abbrev pub shown_status : PodmanTarget → Bytes → Action S UnitStatus
  shown_status target unit = do
    args ← give (build_systemctl_user_args target (text "show") (some unit))
    output ← run_process_capture os (args ++ show_properties)
    give (ok (parse_show_status unit output))

  unfoldable pub systemctl_status : PodmanTarget → Bytes → Action S UnitStatus
  systemctl_status target unit = do
    give (validate_systemd_unit_name unit)
    if dry_run then give (ok (unknown_status unit)) else shown_status target unit

  unfoldable pub completed_operation : PodmanTarget → Bytes → Action S UnitOperationResult
  unfolding systemctl_status
  completed_operation target unit = do
    status ← systemctl_status target unit
    give (ok (record { job_path = none; final_status = status }))

  -- `start_unit`, `restart_unit` and `stop_unit`, which differ in the command
  unfoldable pub operate : Bytes → PodmanTarget → Bytes → Action S UnitOperationResult
  unfolding completed_operation
  operate command target unit = do
    args ← give (build_systemctl_user_args target command (some unit))
    if dry_run
        then completed_operation target unit
        else (run_process os args >> completed_operation target unit)

  -- `SystemctlUserSystemdController`
  abbrev pub systemctl_controller : UserSystemdController S
  systemctl_controller = record {
    daemon_reload = systemctl_daemon_reload;
    start_unit = operate (text "start");
    restart_unit = operate (text "restart");
    stop_unit = operate (text "stop");
    status = systemctl_status;
  }
