-- ===== src/Tests/SystemdTests.antt =====
-- Units, slices and states of units.
use mathlib.Core.Option
use pod_installer.Base.{
  List, [], ◌∷◌, none, some, ◌≡◌, refl, Bytes, text, is_alnum, is_digit, equal, starts_with,
  ends_with,
}
use pod_installer.Base.Decimal.{to_string}
use pod_installer.Error.{ok}
use pod_installer.Target.{
  PodmanTarget, join, runtime_dir_for, podman_socket_for, make_target, default_layout,
}
use pod_installer.Quadlet.Strings.{contains_control_or_slash, safe_unit_file_char}
use pod_installer.Quadlet.FileName.{
  is_hidden_or_option, validate_quadlet_file_name, service_unit_name_from_quadlet,
}
use pod_installer.Systemd.Unit.{safe_systemd_value, validate_systemd_unit_name}
use pod_installer.Systemd.Unit.Accepted.{service_unit_name_from_quadlet-IsUnitName}
use pod_installer.Systemd.Slice.{
  UserSlicePolicy, validate_user_slice_policy, build_systemctl_set_property_args,
}
use pod_installer.Systemd.Slice.Properties.{property, property-build_systemctl_set_property_args}
use pod_installer.Systemd.Status.{UnitStatus, parse_show_status}
use pod_installer.Systemd.Status.RoundTrip.{IsShowable, shown, parse_show_status-shown}

abbrev web_target : PodmanTarget
web_target = make_target 1000 (text "web") default_layout (text "5.0.0")

sample_socket : web_target.socket_path ≡ text "/run/user/1000/podman/podman.sock"
unfolding make_target podman_socket_for runtime_dir_for join text starts_with ends_with to_string
sample_socket = refl

web_unit : service_unit_name_from_quadlet (text "web.container") ≡ ok (text "web.service")
unfolding service_unit_name_from_quadlet validate_quadlet_file_name is_hidden_or_option
    contains_control_or_slash safe_unit_file_char text equal starts_with ends_with is_alnum is_digit
web_unit = refl

service_unit_name_from_quadlet-IsUnitName_example :
    validate_systemd_unit_name (text "web.service") ≡ ok tt
service_unit_name_from_quadlet-IsUnitName_example =
    service_unit_name_from_quadlet-IsUnitName (text "web.container") (text "web.service") web_unit

abbrev restart_args : List Bytes
restart_args =
    text "systemctl"
    ∷ text "--user"
    ∷ text "--machine=web@.host"
    ∷ text "restart"
    ∷ text "web.service"
    ∷ []

abbrev web_slice : UserSlicePolicy
web_slice = record {
  uid = 1000;
  cpu_quota = some (text "50%");
  cpu_weight = none;
  memory_max = some (text "CPUQuota=1");
  tasks_max = some 64;
  allowed_cpus = none;
}

abbrev web_slice_args : List Bytes
web_slice_args =
    text "systemctl"
    ∷ text "set-property"
    ∷ text "--runtime"
    ∷ text "user-1000.slice"
    ∷ text "CPUQuota=50%"
    ∷ text "MemoryMax=CPUQuota=1"
    ∷ text "TasksMax=64"
    ∷ []

web_slice_is_set : build_systemctl_set_property_args web_slice ≡ ok web_slice_args
unfolding build_systemctl_set_property_args validate_user_slice_policy safe_systemd_value text
    to_string
web_slice_is_set = refl

property-build_systemctl_set_property_args_example :
    (property (text "CPUQuota=") web_slice_args ≡ some (text "50%"))
    × (property (text "CPUWeight=") web_slice_args ≡ Option.map to_string none)
    × (property (text "MemoryMax=") web_slice_args ≡ some (text "CPUQuota=1"))
    × (property (text "TasksMax=") web_slice_args ≡ Option.map to_string (some 64))
    × (property (text "AllowedCPUs=") web_slice_args ≡ none)
property-build_systemctl_set_property_args_example =
    property-build_systemctl_set_property_args web_slice web_slice_args web_slice_is_set

abbrev running : UnitStatus
running = record {
  unit = text "web.service";
  load_state = text "loaded";
  active_state = text "active";
  sub_state = text "running";
}

running-IsShowable : IsShowable running
unfolding text
running-IsShowable = record {
  load_state = (refl, (refl, (refl, (refl, (refl, (refl, tt))))));
  active_state = (refl, (refl, (refl, (refl, (refl, (refl, tt))))));
  sub_state = (refl, (refl, (refl, (refl, (refl, (refl, (refl, tt)))))));
}

parse_show_status-shown_example :
    parse_show_status (text "web.service") (shown running)
    ≡ record running { unit = text "web.service" }
parse_show_status-shown_example =
    parse_show_status-shown (text "web.service") running running-IsShowable
