-- ===== src/Tests/AssembledTests.antt =====
-- A whole deployment on the machine with one directory, whose manager does not reload.
use pod_installer.Base.{true, [], Option, none, some, Bytes, text}
use pod_installer.Base.Int.{pos}
use pod_installer.Error.{Error, Result, err, systemd, make_error}
use pod_installer.World.{give}
use pod_installer.System.{returned, failed}
use pod_installer.Podman.{curl_ok}
use pod_installer.Systemd.Controller.{UserSystemdController}
use pod_installer.Deployment.Bundle.{DeploymentBundle, DeploymentResult}
use pod_installer.Deployment.Orchestrator.{deploy}
use pod_installer.Deployment.Orchestrator.Transaction.{Undone}
use pod_installer.Deployment.Staging.{FilesAt}
use pod_installer.Deployment.Assembled.{Calls, assembled}
use pod_installer.Deployment.Assembled.Quiet.{Quiet}
use pod_installer.Tests.DiskMachine.{Machine, machine, update}
use pod_installer.Tests.DeploymentTests.{web_bundle, settings}
use pod_installer.Tests.StoreTests.{dirs, before}

-- what `O_CREAT` does: a file that is there stays
abbrev with_file : Bytes → Machine → Option Bytes → Machine
with_file name s (some contents) = s
with_file name s none = record s { files = update name (some []) s.files }

abbrev at : FilesAt Machine
at = record {
  stat_at = λ fd name s. (failed 2, s);
  open_directory_at = λ fd name s. (returned 6, s);
  open_nonblock_at = λ fd name s. (failed 2, s);
  create_at = λ fd name mode s. (returned 8, with_file name s (s.files name));
  mkdirat = λ fd name mode s. (failed 17, s);
  fchmod = λ fd mode s. (returned tt, s);
  flock = λ fd s. (returned tt, s);
}

abbrev calls : Calls Machine
calls = record {
  files = machine dirs;
  at = at;
  users = record {
    getpw_r_size_max = pos 1024;
    getpwnam_r = λ name size s. (returned none, s);
    getpwuid_r = λ uid size s. (returned (some (record { pw_uid = uid; pw_name = text "web" })), s);
    strerror = λ errno. [];
  };
  curl = record {
    easy_init = λ s. (true, s);
    easy_perform = λ transfer s. (curl_ok 200 [] [], s);
    easy_cleanup = λ s. s;
  };
  uploads = record {
    easy_init = λ s. (true, s);
    easy_upload = λ transfer callback upload s. (curl_ok 200 [] [], s);
    easy_cleanup = λ s. s;
    pread = λ fd n offset s. (returned [], s);
  };
}

abbrev failure : Error
failure = make_error systemd (text "no")

abbrev manager : UserSystemdController Machine
manager = record {
  daemon_reload = λ target. give (err failure);
  start_unit = λ target unit. give (err failure);
  restart_unit = λ target unit. give (err failure);
  stop_unit = λ target unit. give (err failure);
  status = λ target unit. give (err failure);
}

abbrev bundle : DeploymentBundle
bundle = record web_bundle { image_archive = none }

abbrev outcome : Result DeploymentResult × Machine
outcome =
    deploy (assembled calls settings.layout settings.rules) settings (some manager) bundle before

abbrev reported : Error
reported =
    make_error systemd (text "no; rolled back installed Quadlet; rollback daemon-reload failed: no")
