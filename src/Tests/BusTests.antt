-- ===== src/Tests/BusTests.antt =====
-- A bus on which signals for other jobs, and a second one for the same job, arrive.
use pod_installer.Base.{
  ℕ, suc, List, [], ◌∷◌, some, ◌≡◌, refl, Bytes, text, equal, ends_with, starts_with,
}
use pod_installer.Base.Decimal.{to_string}
use pod_installer.Error.{ok, systemd, fail}
use pod_installer.Target.{PodmanTarget, default_layout, make_target, join, runtime_dir_for}
use pod_installer.Systemd.Unit.{validate_systemd_unit_name, safe_systemd_unit}
use pod_installer.Systemd.Status.{UnitOperationResult}
use pod_installer.Systemd.Bus.{
  replied, threw, Signal, Bus, user_bus_address, job_result, get_unit_property_string, sdbus_status,
  unit_job_and_wait,
}
use pod_installer.Systemd.Bus.Job.{Completed, unit_job_and_wait-Completed}

abbrev web_target : PodmanTarget
web_target = make_target 1000 (text "web") default_layout (text "5.0.0")

abbrev job : Bytes
job = text "/job/7"

-- the state counts the proxies that were made
abbrev bus_with : List Signal → Bus ℕ
bus_with signals = record {
  manager = λ address s. (replied s, suc s);
  unit = λ address path s. (replied s, suc s);
  release = λ proxy s. s;
  subscribe = λ proxy s. (replied tt, s);
  start_job = λ proxy method unit s. (replied job, s);
  job_signals = λ proxy timeout s. (replied signals, s);
  reload = λ proxy s. (threw (text "org.x") (text "no"), s);
  load_unit = λ proxy unit s. (replied (text "/unit"), s);
  get_property = λ proxy property s. (replied property, s);
}

abbrev bus : Bus ℕ
bus = bus_with ((text "/job/6", text "failed") ∷ (job, text "done") ∷ (job, text "canceled") ∷ [])

abbrev restart_result : UnitOperationResult
restart_result = record {
  job_path = some job;
  final_status = record {
    unit = text "web.service";
    load_state = text "LoadState";
    active_state = text "ActiveState";
    sub_state = text "SubState";
  };
}

restart_done :
    unit_job_and_wait bus web_target (text "RestartUnit") (text "web.service") 30000 0
    ≡ (ok restart_result, 3)
unfolding text unit_job_and_wait sdbus_status get_unit_property_string job_result
    validate_systemd_unit_name equal safe_systemd_unit starts_with ends_with
restart_done = refl

sample_jobs :
    (unit_job_and_wait (bus_with []) web_target (text "StopUnit") (text "web.service") 30000 0
      ≡ (fail systemd (text "systemd D-Bus StopUnit timed out waiting for JobRemoved"), 1))
    × (user_bus_address web_target ≡ text "unix:path=/run/user/1000/bus")
unfolding text unit_job_and_wait sdbus_status get_unit_property_string job_result
    validate_systemd_unit_name equal user_bus_address join make_target safe_systemd_unit starts_with
    ends_with runtime_dir_for to_string
sample_jobs = (refl, refl)

unit_job_and_wait-Completed_example :
    Completed bus web_target (text "RestartUnit") (text "web.service") 30000 restart_result
unit_job_and_wait-Completed_example =
    unit_job_and_wait-Completed bus web_target (text "RestartUnit") (text "web.service") 30000
      restart_result 0 3 restart_done
