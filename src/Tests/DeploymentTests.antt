-- ===== src/Tests/DeploymentTests.antt =====
-- Deployments on a machine that holds one file.
use pod_installer.Base.{
  true, false, [], ◌++◌, ◌≡◌, refl, Bytes, text, equal, ends_with, starts_with, find, is_space,
  is_alnum, is_digit, to_lower, contains_text, less, Option, none, some,
}
use pod_installer.Base.Decimal.{to_string}
use pod_installer.Base.Maps.{modify, lookup, contains}
use pod_installer.Error.{Error, ok, err, make_error, systemd}
use pod_installer.Quadlet.Strings.{
  trim, truthy, equals_key, contains_control_or_slash, safe_unit_file_char,
}
use pod_installer.Quadlet.QuadletPolicy.{default_policy}
use pod_installer.Quadlet.FileName.{
  is_hidden_or_option, validate_quadlet_file_name, service_unit_name_from_quadlet,
}
use pod_installer.Quadlet.Parsed.{add, has_section, values}
use pod_installer.Quadlet.Parser.{parse_quadlet}
use pod_installer.Quadlet.PodmanArgs.{split_podman_args, denied_podman_arg}
use pod_installer.Quadlet.HostPath.{
  names_host_path, host_path_volume, host_path_part, host_path_mount,
}
use pod_installer.Quadlet.Keys.{
  allowed, unit_keys, container_keys, service_keys, install_keys, dangerous_service_key,
  validate_allowed_keys,
}
use pod_installer.Quadlet.Label.{validate_managed_label}
use pod_installer.Quadlet.Policy.{
  reject_values, check_podman_args, check_structure, check_values, validate_quadlet_policy,
}
use pod_installer.World.{give}
use pod_installer.Target.{join, PodmanTarget, make_target, runtime_dir_for, podman_socket_for}
use pod_installer.Systemd.Status.{UnitStatus, UnitOperationResult}
use pod_installer.Quadlet.Installer.{
  saved, QuadletSnapshot, default_install_layout, user_directory, quadlet_path, expected_install,
}
use pod_installer.Deployment.Bundle.{
  DeploymentBundle, DeploymentResult, default_options, validate_deployment_bundle,
}
use pod_installer.Deployment.Services.{Services}
use pod_installer.Systemd.Controller.{UserSystemdController}
use pod_installer.Deployment.Rollback.{deployed_status_is_healthy, describe_status, rollback_error}
use pod_installer.Deployment.Orchestrator.{Settings, activate, deploy_locked, deploy_opened, deploy}
use pod_installer.Deployment.Orchestrator.Views.{Laws}
use pod_installer.Deployment.Orchestrator.Transaction.{Undone}
use pod_installer.Deployment.Orchestrator.Atomic.{deploy-Undone}
use pod_installer.Deployment.Orchestrator.Success.{SeenHealthy, deploy-installed}
use pod_installer.Deployment.Orchestrator.DryRun.{dry, looking_by, deploy-dry}
use pod_installer.Tests.QuadletTests.{web}

-- a machine on which only the one file matters
abbrev Machine : Type 0
Machine = Option Bytes

abbrev snapshot_of : Bytes → Machine → QuadletSnapshot
snapshot_of name none = record { path = []; file_name = name; existed = false; contents = [] }
snapshot_of name (some contents) = record {
  path = [];
  file_name = name;
  existed = true;
  contents = contents;
}

abbrev machine : Services Machine
machine = record {
  resolve_uid = λ uid layout version. give (ok (make_target uid (text "web") layout version));
  open_staged_image_archive = λ archive options. give (ok (record { fd = 3; size = 10 }));
  close_archive = λ archive s. s;
  lock_deployment = λ uid unit. give (ok 4);
  unlock = λ fd s. s;
  validate_podman_socket = λ target layout. give (ok tt);
  ping = λ target. give (ok tt);
  load_image_archive_fd = λ target archive. give (ok tt);
  snapshot_for_user = λ uid name s. (ok (snapshot_of name s), s);
  restore_for_user = λ uid snapshot s. (ok tt, saved snapshot);
  install_for_user = λ uid quadlet s.
      (ok (record { path = text "/x"; systemd_unit = text "web.service" }), some quadlet.contents);
}

abbrev pub status_of : Bytes → Bytes → UnitStatus
status_of unit active = record {
  unit = unit;
  load_state = text "loaded";
  active_state = active;
  sub_state = [];
}

-- a manager whose units end up in this state
abbrev manager : Bytes → UserSystemdController Machine
manager active =
    let operate = λ (target : PodmanTarget) (unit : Bytes).
      give {S = Machine} {A = UnitOperationResult}
        (ok (record { job_path = none; final_status = status_of unit active })) in
    record {
      daemon_reload = λ target. give (ok tt);
      start_unit = operate;
      restart_unit = operate;
      stop_unit = operate;
      status = λ target unit. give (ok (status_of unit active));
    }

abbrev pub web_bundle : DeploymentBundle
web_bundle = record {
  target_uid = 1000;
  service_name = text "web";
  image_archive = some (record { path = text "web.tar"; expected_sha256 = [] });
  quadlet = web;
  revision = [];
}

abbrev pub settings : Settings
settings = record {
  layout = default_install_layout;
  rules = default_policy;
  options = default_options;
}

abbrev file : Machine → Option Bytes
file s = s

saved-snapshot_of : (name : Bytes) (s : Machine) → saved (snapshot_of name s) ≡ s
saved-snapshot_of name none = refl
saved-snapshot_of name (some contents) = refl

named-snapshot_of : (name : Bytes) (s : Machine) → (snapshot_of name s).file_name ≡ name
named-snapshot_of name none = refl
named-snapshot_of name (some contents) = refl

machine-Laws : (active : Bytes) → Laws file machine (manager active) 1000 web
machine-Laws active = record {
  others = record {
    resolve_uid = λ layout version s. refl;
    opens = λ archive options s. refl;
    close = λ archive s. refl;
    lock = λ unit s. refl;
    unlock = λ fd s. refl;
    socket = λ target layout s. refl;
    ping = λ target s. refl;
    load = λ target archive s. refl;
    reload = λ target s. refl;
    restart = λ target unit s. refl;
    status = λ target unit s. refl;
  };
  snapshot = λ s. refl;
  snapshot_saved = λ s t snapshot h.
      let e : snapshot_of web.file_name s ≡ snapshot = cc in
      rw (← e) (saved-snapshot_of web.file_name s, named-snapshot_of web.file_name s);
  installed = λ s t installed h. cc;
  not_installed = λ s t e h. cc;
  restored = λ s t snapshot same h. cc;
  not_restored = λ s t snapshot e same h. cc;
}

abbrev unhealthy : Error
unhealthy = make_error systemd (
    (text
        "deployment unit is unhealthy after restart: LoadState=loaded ActiveState=failed SubState="
      ++ text "; rolled back installed Quadlet")
    ++ text "; rollback restart left unit unhealthy: LoadState=loaded ActiveState=failed SubState=")

failing_deployment :
    deploy machine settings (some (manager (text "failed"))) web_bundle (some (text "old"))
    ≡ (err unhealthy, some (text "old"))
unfolding validate_quadlet_policy validate_quadlet_file_name parse_quadlet text trim ends_with find
    is_space add modify equal less is_hidden_or_option starts_with contains_control_or_slash
    safe_unit_file_char check_structure has_section contains is_alnum is_digit to_lower lookup
    contains_text host_path_mount host_path_part host_path_volume names_host_path allowed unit_keys
    container_keys service_keys install_keys validate_allowed_keys validate_managed_label values
    denied_podman_arg split_podman_args reject_values check_podman_args check_values equals_key
    truthy dangerous_service_key deploy deploy_opened deploy_locked activate rollback_error
    deployed_status_is_healthy describe_status validate_deployment_bundle expected_install
    service_unit_name_from_quadlet user_directory quadlet_path make_target runtime_dir_for
    podman_socket_for join to_string
failing_deployment = refl

deploy-Undone_example :
    Undone file machine 1000 web (some (text "old")) unhealthy (some (text "old"))
deploy-Undone_example =
    deploy-Undone file machine (manager (text "failed")) settings web_bundle (some (text "old"))
      (some (text "old")) unhealthy (machine-Laws (text "failed")) failing_deployment

abbrev web_deployed : DeploymentResult
web_deployed = record {
  installed_quadlet_path = text "/x";
  systemd_unit = text "web.service";
  job_path = none;
  status = some (status_of (text "web.service") (text "active"));
  status_error = none;
  dry_run = false;
  rolled_back = false;
}

good_deployment :
    deploy machine settings (some (manager (text "active"))) web_bundle none
    ≡ (ok web_deployed, some web.contents)
unfolding validate_quadlet_policy validate_quadlet_file_name parse_quadlet text trim ends_with find
    is_space add modify equal less is_hidden_or_option starts_with contains_control_or_slash
    safe_unit_file_char check_structure has_section contains is_alnum is_digit to_lower lookup
    contains_text host_path_mount host_path_part host_path_volume names_host_path allowed unit_keys
    container_keys service_keys install_keys validate_allowed_keys validate_managed_label values
    denied_podman_arg split_podman_args reject_values check_podman_args check_values equals_key
    truthy dangerous_service_key deploy deploy_opened deploy_locked activate rollback_error
    deployed_status_is_healthy describe_status validate_deployment_bundle expected_install
    service_unit_name_from_quadlet user_directory quadlet_path make_target runtime_dir_for
    podman_socket_for join to_string
good_deployment = refl

deploy-installed_example : (some web.contents ≡ some web.contents) × SeenHealthy true web_deployed
deploy-installed_example =
    deploy-installed file machine (manager (text "active")) settings web_bundle none
      (some web.contents) web_deployed (machine-Laws (text "active")) refl good_deployment

deploy-dry_example :
    deploy machine (dry settings) (some (manager (text "active"))) web_bundle none
    ≡ deploy
        (looking_by machine machine)
        (dry settings)
        (some (manager (text "failed")))
        web_bundle
        none
deploy-dry_example =
    deploy-dry machine machine (manager (text "active")) (manager (text "failed")) settings
      web_bundle none
