-- ===== src/Tests/StoreTests.antt =====
-- The installer on a machine whose writes and reads are interrupted.
use pod_installer.Base.{
  List, [], ◌∷◌, if◌then◌else◌, Option, none, some, ◌≡◌, refl, Bytes, text, equal, starts_with,
  ends_with, true, is_alnum, is_digit,
}
use pod_installer.Base.Decimal.{to_string}
use pod_installer.Error.{Result, ok}
use pod_installer.World.{give}
use pod_installer.Target.{filename, parent_path, same_path, join, PodmanTarget, make_target}
use pod_installer.Quadlet.Strings.{contains_control_or_slash, safe_unit_file_char}
use pod_installer.Quadlet.FileName.{is_hidden_or_option, validate_quadlet_file_name}
use pod_installer.Quadlet.QuadletPolicy.{default_policy}
use pod_installer.Quadlet.Installer.{
  QuadletSnapshot, default_install_layout, user_directory, quadlet_path,
}
use pod_installer.Quadlet.Files.{ensure_directory_safe, ensure_admin_tree, write_all}
use pod_installer.Quadlet.Disk.{KeptBut}
use pod_installer.Quadlet.Store.{
  fsync_directory, atomic_write_file, read_regular_file_no_symlink, snapshot_for_user,
  restore_for_user,
}
use pod_installer.Quadlet.Store.Atomic.{Replaced, atomic_write_file-Replaced}
use pod_installer.Quadlet.Store.Restored.{restore_for_user-snapshot_for_user}
use pod_installer.Systemd.Status.{UnitStatus, UnitOperationResult}
use pod_installer.Systemd.Controller.{UserSystemdController}
use pod_installer.Deployment.Services.{Services}
use pod_installer.Deployment.Orchestrator.Views.{Bystanders, Laws}
use pod_installer.Deployment.Installer.{with_installer, with_installer-Laws}
use pod_installer.Tests.DiskMachine.{Machine, machine, machine_view, machine-Disk}
use pod_installer.Tests.QuadletTests.{web}

abbrev users : Bytes
users = text "/etc/containers/systemd/users"

abbrev user_dir : Bytes
user_dir = text "/etc/containers/systemd/users/1000"

abbrev pub dirs : List Bytes
dirs = users ∷ user_dir ∷ []

abbrev web_name : Bytes
web_name = text "web.container"

abbrev web_path : Bytes
web_path = text "/etc/containers/systemd/users/1000/web.container"

-- a Quadlet is there, and two calls will be interrupted
abbrev pub before : Machine
before = record {
  files = λ name. if equal name web_name then some (text "old") else none;
  target = [];
  reading = [];
  pauses = 2;
}

abbrev written : Result (Unit {0}) × Machine
written = atomic_write_file (machine dirs) web_path (text "new") 420 before

sample_write :
    (written.0 ≡ ok tt)
    × (written.1.files web_name ≡ some (text "new"))
    × (written.1.files (text ".web.container.tmp.7.0") ≡ none)
unfolding atomic_write_file fsync_directory write_all filename parent_path text to_string equal
sample_write = (refl, refl, refl)

atomic_write_file-Replaced_example :
    Replaced
      (machine dirs)
      machine_view
      user_dir
      (machine-Disk dirs user_dir)
      web_name
      (text "new")
      before
      written
unfolding filename parent_path text
atomic_write_file-Replaced_example =
    atomic_write_file-Replaced (machine dirs) machine_view user_dir (machine-Disk dirs user_dir) 420
      web_path (text "new") before refl

abbrev taken : Result QuadletSnapshot × Machine
taken = snapshot_for_user (machine dirs) default_install_layout default_policy 1000 web_name before

abbrev old_snapshot : QuadletSnapshot
old_snapshot = record {
  path = web_path;
  file_name = web_name;
  existed = true;
  contents = text "old";
}

abbrev restored : Result (Unit {0}) × Machine
restored =
    restore_for_user (machine dirs) default_install_layout default_policy 1000 old_snapshot
      written.1

sample_snapshot : taken ≡ (ok old_snapshot, taken.1)
unfolding snapshot_for_user validate_quadlet_file_name is_hidden_or_option text equal starts_with
    contains_control_or_slash safe_unit_file_char is_alnum is_digit ends_with ensure_admin_tree
    ensure_directory_safe user_directory quadlet_path join to_string filename parent_path
    read_regular_file_no_symlink
sample_snapshot = refl

sample_restore : restored ≡ (ok tt, restored.1)
unfolding restore_for_user validate_quadlet_file_name is_hidden_or_option text equal starts_with
    contains_control_or_slash safe_unit_file_char is_alnum is_digit ends_with ensure_admin_tree
    ensure_directory_safe user_directory quadlet_path join to_string filename parent_path same_path
    atomic_write_file fsync_directory write_all
sample_restore = refl

user_directory-user_dir : user_directory default_install_layout 1000 ≡ user_dir
unfolding user_directory join to_string text starts_with ends_with
user_directory-user_dir = refl

restore_for_user-snapshot_for_user_example :
    (restored.1.files web_name ≡ before.files web_name)
    × KeptBut machine_view web_name written.1 restored.1
restore_for_user-snapshot_for_user_example =
    restore_for_user-snapshot_for_user (machine dirs) machine_view default_install_layout
      default_policy 1000 (machine-Disk dirs (user_directory default_install_layout 1000)) web_name
      old_snapshot before taken.1 written.1 restored.1 sample_snapshot sample_restore

abbrev services : Services Machine
services = record {
  resolve_uid = λ uid layout version. give (ok (make_target uid (text "web") layout version));
  open_staged_image_archive = λ archive options. give (ok (record { fd = 8; size = 10 }));
  close_archive = λ archive s. s;
  lock_deployment = λ uid unit. give (ok 9);
  unlock = λ fd s. s;
  validate_podman_socket = λ target layout. give (ok tt);
  ping = λ target. give (ok tt);
  load_image_archive_fd = λ target archive. give (ok tt);
  snapshot_for_user = λ uid name. give (ok old_snapshot);
  restore_for_user = λ uid snapshot. give (ok tt);
  install_for_user =
      λ uid quadlet. give (ok (record { path = web_path; systemd_unit = text "web.service" }));
}

abbrev running : UnitStatus
running = record {
  unit = text "web.service";
  load_state = text "loaded";
  active_state = text "active";
  sub_state = text "running";
}

abbrev manager : UserSystemdController Machine
manager =
    let operate = λ (target : PodmanTarget) (unit : Bytes).
      give {S = Machine} {A = UnitOperationResult}
        (ok (record { job_path = none; final_status = running })) in
    record {
      daemon_reload = λ target. give (ok tt);
      start_unit = operate;
      restart_unit = operate;
      stop_unit = operate;
      status = λ target unit. give (ok running);
    }

abbrev web_file : Machine → Option Bytes
web_file s = s.files web.file_name

services-Bystanders : Bystanders web_file services manager 1000
services-Bystanders = record {
  resolve_uid = λ layout version s. refl;
  opens = λ archive options s. refl;
  close = λ archive s. refl;
  lock = λ unit s. refl;
  unlock = λ fd s. refl;
  socket = λ target layout s. refl;
  ping = λ target s. refl;
  load = λ target archive s. refl;
  reload = λ target s. refl;
  restart = λ target unit s. refl;
  status = λ target unit s. refl;
}

with_installer-Laws_example :
    Laws web_file
      (with_installer (machine dirs) default_install_layout default_policy services)
      manager
      1000
      web
with_installer-Laws_example =
    with_installer-Laws (machine dirs) default_install_layout default_policy machine_view 1000
      (machine-Disk dirs (user_directory default_install_layout 1000)) web services manager
      services-Bystanders
