-- ===== src/Systemd/Bus.antt =====
-- `SdbusUserSystemdController`, of src/systemd_sdbus.cpp. sdbus-c++ is a parameter: its calls
-- return, or they throw `sdbus::Error`, which the sources catch.
pub mod Job
use pod_installer.Base.{
  ℕ, Bool, true, false, not, List, [], ◌∷◌, ◌++◌, Option, none, some, Bytes, text, equal, is_empty,
  if◌then◌else◌,
}
use pod_installer.Base.Decimal.{to_string}
use pod_installer.Error.{Error, Result, ok, err, systemd, make_error, fail}
use pod_installer.World.{Action, Effect, give, finally, ◌>>=◌, ◌>>◌}
use pod_installer.Target.{join, PodmanTarget}
use pod_installer.Systemd.Unit.{validate_systemd_unit_name}
use pod_installer.Systemd.Status.{UnitStatus, UnitOperationResult}
use pod_installer.Systemd.Controller.{UserSystemdController}

pub data Reply (A : Type 0) : Type 0 where
  replied : A → Reply A
  -- the name and the message of the error
  threw : Bytes → Bytes → Reply A

-- a `JobRemoved` signal: the path of the job, and its result
abbrev pub Signal : Type 0
Signal = Bytes × Bytes

-- A proxy is a number. `manager` and `unit` connect to a bus by its address and make the proxy,
-- `release` is the end of both. `job_signals` are the signals that arrive before the timeout.
pub record Bus (S : Type 0) : Type 0 where
  pub manager : Bytes → S → Reply ℕ × S
  pub unit : Bytes → Bytes → S → Reply ℕ × S
  pub release : ℕ → Effect S
  pub subscribe : ℕ → S → Reply (Unit {0}) × S
  pub start_job : ℕ → Bytes → Bytes → S → Reply Bytes × S
  pub job_signals : ℕ → ℕ → S → Reply (List Signal) × S
  pub reload : ℕ → S → Reply (Unit {0}) × S
  pub load_unit : ℕ → Bytes → S → Reply Bytes × S
  pub get_property : ℕ → Bytes → S → Reply Bytes × S

unfoldable pub user_bus_address : PodmanTarget → Bytes
user_bus_address target =
    let runtime_dir =
      if is_empty target.runtime_dir
      then join (text "/run/user") (to_string target.uid)
      else target.runtime_dir in
    text "unix:path=" ++ join runtime_dir (text "bus")

-- the callback: what the promise holds behind a signal, which counts once and for this job only
abbrev pub on_job_removed : Bytes → Option Bytes → Signal → Option Bytes
on_job_removed expected (some result) signal = some result
on_job_removed expected none (job, result) = if equal job expected then some result else none

-- the callback for each signal in turn
unfoldable pub job_result : Bytes → Option Bytes → List Signal → Option Bytes
job_result expected held [] = held
job_result expected held (signal ∷ signals) =
    job_result expected (on_job_removed expected held signal) signals

module _ {S A : Type 0} where
  abbrev pub caught : (Bytes → Bytes → Error) → Reply A × S → Result A × S
  caught failure (replied a, s) = (ok a, s)
  caught failure (threw name message, s) = (err (failure name message), s)

  -- `catch (const sdbus::Error &error) { return std::unexpected(failure(error)); }`
  abbrev pub catching : (Bytes → Bytes → Error) → (S → Reply A × S) → Action S A
  catching failure call s = caught failure (call s)

abbrev pub bus_error : Bytes → Bytes → Bytes → Error
bus_error what name message = make_error systemd (what ++ name ++ text ": " ++ message)

module _ {S : Type 0} (bus : Bus S) where
  abbrev pub property_failure : Bytes → Bytes → Error
  property_failure = bus_error (text "systemd D-Bus property read failed: ")

  unfoldable pub get_unit_property_string : ℕ → Bytes → Action S Bytes
  get_unit_property_string proxy property =
      catching property_failure (bus.get_property proxy property)

  abbrev pub status_failure : Bytes → Bytes → Error
  status_failure = bus_error (text "systemd D-Bus status failed: ")

  abbrev pub read_properties : Bytes → ℕ → Action S UnitStatus
  read_properties unit proxy = do
    load ← get_unit_property_string proxy (text "LoadState")
    active ← get_unit_property_string proxy (text "ActiveState")
    sub ← get_unit_property_string proxy (text "SubState")
    give (ok (record { unit = unit; load_state = load; active_state = active; sub_state = sub }))

  -- behind the proxy of the manager
  abbrev pub status_by : PodmanTarget → Bytes → ℕ → Action S UnitStatus
  status_by target unit manager = do
    unit_path ← catching status_failure (bus.load_unit manager unit)
    proxy ← catching status_failure (bus.unit (user_bus_address target) unit_path)
    finally (bus.release proxy) (read_properties unit proxy)

  unfoldable pub sdbus_status : PodmanTarget → Bytes → Action S UnitStatus
  unfolding get_unit_property_string
  sdbus_status target unit = do
    give (validate_systemd_unit_name unit)
    manager ← catching status_failure (bus.manager (user_bus_address target))
    finally (bus.release manager) (status_by target unit manager)

  abbrev pub job_failure : Bytes → Bytes → Bytes → Error
  job_failure method = bus_error (text "systemd D-Bus " ++ method ++ text " failed: ")

  -- behind the wait for the promise
  abbrev pub judge_job :
      PodmanTarget → Bytes → Bytes → Bytes → Option Bytes → Action S UnitOperationResult
  judge_job target method unit job none =
      give
        (fail systemd (text "systemd D-Bus " ++ method ++ text " timed out waiting for JobRemoved"))
  judge_job target method unit job (some result) =
      if not (equal result (text "done"))
      then give (
          fail systemd
            (text "systemd D-Bus " ++ method ++ text " job finished with result " ++ result))
      else (sdbus_status target unit >>= λ status.
          give (ok (record { job_path = some job; final_status = status })))

  -- behind the proxy of the manager
  abbrev pub job_by : PodmanTarget → Bytes → Bytes → ℕ → ℕ → Action S UnitOperationResult
  job_by target method unit timeout manager = do
    catching (job_failure method) (bus.subscribe manager)
    job ← catching (job_failure method) (bus.start_job manager method unit)
    signals ← catching (job_failure method) (bus.job_signals manager timeout)
    judge_job target method unit job (job_result job none signals)

  unfoldable pub unit_job_and_wait : PodmanTarget → Bytes → Bytes → ℕ → Action S UnitOperationResult
  unfolding sdbus_status job_result
  unit_job_and_wait target method unit timeout = do
    give (validate_systemd_unit_name unit)
    manager ← catching (job_failure method) (bus.manager (user_bus_address target))
    finally (bus.release manager) (job_by target method unit timeout manager)

  abbrev pub reload_failure : Bytes → Bytes → Error
  reload_failure = bus_error (text "systemd D-Bus Reload failed: ")

  unfoldable pub sdbus_daemon_reload : PodmanTarget → Action S (Unit {0})
  sdbus_daemon_reload target =
      catching reload_failure (bus.manager (user_bus_address target)) >>= λ manager.
      finally (bus.release manager) (catching reload_failure (bus.reload manager))

  -- the controller, with its timeout in milliseconds
  unfoldable pub sdbus_controller : ℕ → UserSystemdController S
  unfolding sdbus_daemon_reload unit_job_and_wait
  sdbus_controller job_timeout = record {
    daemon_reload = sdbus_daemon_reload;
    start_unit = λ target unit. unit_job_and_wait target (text "StartUnit") unit job_timeout;
    restart_unit = λ target unit. unit_job_and_wait target (text "RestartUnit") unit job_timeout;
    stop_unit = λ target unit. unit_job_and_wait target (text "StopUnit") unit job_timeout;
    status = sdbus_status;
  }
