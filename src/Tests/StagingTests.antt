-- ===== src/Tests/StagingTests.antt =====
-- A staged archive and a deployment on a machine that counts its open descriptors.
use pod_installer.Base.{
  ℕ, suc, ◌+◌, ◌<◌, Bool, false, not, ◌&&◌, ◌==◌, List, [], ◌∷◌, any, none, some, ◌≡◌, ◌↔◌, refl,
  arith, Bytes, text, equal, starts_with, ends_with, if◌then◌else◌,
}
use pod_installer.Base.Decimal.{to_string}
use pod_installer.Base.Int.{pos}
use pod_installer.Error.{ok, policy, fail}
use pod_installer.World.{give}
use pod_installer.System.{
  Outcome, returned, failed, FileKind, regular_file, socket_file, Stat, Files,
}
use pod_installer.FilePath.{elements, joined, is_absolute, lexically_normal, append_element}
use pod_installer.Target.{
  PodmanTarget, default_layout, join, runtime_dir_for, podman_socket_for, make_target,
}
use pod_installer.Target.Users.{Users, resolve_uid}
use pod_installer.Quadlet.Installer.{default_install_layout}
use pod_installer.Systemd.Status.{UnitOperationResult}
use pod_installer.Systemd.Controller.{UserSystemdController}
use pod_installer.Deployment.Bundle.{ImageArchive, DeploymentOptions, default_options}
use pod_installer.Deployment.Services.{Services}
use pod_installer.Deployment.Orchestrator.{deploy}
use pod_installer.Deployment.StagedPath.{path_component_is_safe, relative_staged_path}
use pod_installer.Deployment.StagedPath.Relative.{IsStaged, relative_staged_path-IsStaged}
use pod_installer.Deployment.Staging.{FilesAt, open_staged_image_archive, with_staging}
use pod_installer.Deployment.Staging.Descriptors.{Same, Gains, Descriptors}
use pod_installer.Deployment.Staging.Tidy.{Tidy}
use pod_installer.Deployment.Staging.Balanced.{deploy-Same}
use pod_installer.Deployment.Staging.Confined.{Admitted, open_staged_image_archive-Admitted}
use pod_installer.SocketValidation.{options_for, normalized, validate_podman_socket}
use pod_installer.SocketValidation.Accepted.{IsPodmanSocket, validate_podman_socket-IsPodmanSocket}
use pod_installer.SocketValidation.Resolved.{resolve_uid-validate_podman_socket}
use pod_installer.Tests.DeploymentTests.{web_bundle, settings, status_of}

sample_elements :
    (elements (text "/srv//images/a.tar/")
      ≡ text "/" ∷ text "srv" ∷ text "images" ∷ text "a.tar" ∷ [] ∷ [])
    × (lexically_normal (elements (text "/srv/./x/../images//"))
        ≡ text "/" ∷ text "srv" ∷ text "images" ∷ [] ∷ [])
    × (lexically_normal (elements (text "../a/..")) ≡ text ".." ∷ [])
    × (lexically_normal (elements (text "a/..")) ≡ text "." ∷ [])
unfolding text elements lexically_normal equal
sample_elements = (refl, refl, refl, refl)

-- the open descriptors
abbrev pub Machine : Type 0
Machine = List ℕ

abbrev opened : ℕ → Machine → Bool
opened d s = any (λ x. x == d) s

abbrev total : Machine → ℕ
total [] = 0
total (x ∷ s) = x + total s

abbrev opening : Machine → Outcome ℕ × Machine
opening s = (returned (suc (total s)), suc (total s) ∷ s)

abbrev closing : ℕ → Machine → Machine
closing fd [] = []
closing fd (x ∷ s) = let rest = closing fd s in if x == fd then rest else x ∷ rest

abbrev looking : FileKind → ℕ → Machine → Outcome Stat × Machine
looking kind uid s =
    (returned (record { kind = kind; uid = uid; gid = 0; permissions = 384; size = pos 10 }), s)

abbrev pub os : Files Machine
os = record {
  create_directories = λ path s. (returned tt, s);
  lstat = λ path. looking socket_file 1000;
  fstat = λ fd. looking regular_file 0;
  chmod = λ path mode s. (returned tt, s);
  open_directory = λ path. opening;
  open_no_follow = λ path. opening;
  create_exclusive = λ fd name mode. opening;
  write = λ fd bytes s. (returned 0, s);
  read = λ fd n s. (returned [], s);
  fsync = λ fd s. (returned tt, s);
  renameat = λ fd old new s. (returned tt, s);
  unlinkat = λ fd name s. (returned tt, s);
  close = closing;
  getpid = λ s. 1;
  strerror = λ errno. [];
  interruptions = λ s. 0;
}

abbrev at : FilesAt Machine
at = record {
  stat_at = λ fd name. looking regular_file 0;
  open_directory_at = λ fd name. opening;
  open_nonblock_at = λ fd name. opening;
  create_at = λ fd name mode. opening;
  mkdirat = λ fd name mode s. (failed 17, s);
  fchmod = λ fd mode s. (returned tt, s);
  flock = λ fd s. (returned tt, s);
}

above : (s : Machine) (n : ℕ) → total s < n → opened n s ≡ false
above [] n h = refl
above (x ∷ s) n h = let rest = above s n (omega arith) in ground arith

opening-Gains : (s : Machine) → Gains opened s (opening s)
opening-Gains s = (above s (suc (total s)) (omega arith), λ d. ground arith)

closing-opened :
    (fd : ℕ) (s : Machine) (d : ℕ) → opened d (closing fd s) ≡ (not (d == fd) && opened d s)
closing-opened fd [] d = ground arith
closing-opened fd (x ∷ s) d = let rest = closing-opened fd s d in ground arith

machine-Descriptors : Descriptors opened os at
machine-Descriptors = record {
  create_directories = λ path s d. refl;
  open_directory = λ path s. opening-Gains s;
  fstat = λ fd s d. refl;
  close = closing-opened;
  stat_at = λ fd name s d. refl;
  open_directory_at = λ fd name s. opening-Gains s;
  open_nonblock_at = λ fd name s. opening-Gains s;
  create_at = λ fd name mode s. opening-Gains s;
  mkdirat = λ fd name mode s d. refl;
  fchmod = λ fd mode s d. refl;
  flock = λ fd s d. refl;
}

abbrev options : DeploymentOptions
options = record default_options { image_archive_root = some (text "/srv") }

abbrev archive : ImageArchive
archive = record { path = text "/srv/web/app.tar"; expected_sha256 = [] }

relative_staged_path-IsStaged_example :
    (relative_staged_path (text "/srv") (text "/srv/web/app.tar")
      ≡ ok (text "web" ∷ text "app.tar" ∷ []))
    ↔ IsStaged (text "/srv") (text "/srv/web/app.tar") (text "web" ∷ text "app.tar" ∷ [])
relative_staged_path-IsStaged_example =
    relative_staged_path-IsStaged (text "/srv") (text "/srv/web/app.tar")
      (text "web" ∷ text "app.tar" ∷ [])

sample_staged :
    (relative_staged_path (text "/srv") (text "/srv/web/app.tar")
      ≡ ok (text "web" ∷ text "app.tar" ∷ []))
    × (relative_staged_path (text "/srv") (text "web.tar") ≡ ok (text "web.tar" ∷ []))
    × (relative_staged_path (text "/srv/") (text "/srv/web.tar")
        ≡ fail policy (text "image archive path is outside configured staging root: /srv/web.tar"))
unfolding text relative_staged_path path_component_is_safe elements lexically_normal is_absolute
    append_element joined equal
sample_staged = (refl, refl, refl)

-- the root, which is 1, then the directory, and then the file, which stays open
opened_archive :
    open_staged_image_archive os at archive options [] ≡ (ok (record { fd = 3; size = 10 }), 3 ∷ [])
unfolding text open_staged_image_archive relative_staged_path path_component_is_safe elements
    lexically_normal is_absolute append_element joined equal
opened_archive = refl

open_staged_image_archive-Admitted_example :
    Admitted os at archive options options.image_archive_root (record { fd = 3; size = 10 })
open_staged_image_archive-Admitted_example =
    open_staged_image_archive-Admitted os at archive options (record { fd = 3; size = 10 }) []
      (3 ∷ []) opened_archive

abbrev pub others : Services Machine
others = record {
  resolve_uid = λ uid layout version. give (ok (make_target uid (text "web") layout version));
  open_staged_image_archive = λ archive options. give (ok (record { fd = 3; size = 10 }));
  close_archive = λ archive s. s;
  lock_deployment = λ uid unit. give (ok 4);
  unlock = λ fd s. s;
  validate_podman_socket = λ target layout. give (ok tt);
  ping = λ target. give (ok tt);
  load_image_archive_fd = λ target archive. give (ok tt);
  snapshot_for_user = λ uid name.
      give (ok (record { path = []; file_name = name; existed = false; contents = [] }));
  restore_for_user = λ uid snapshot. give (ok tt);
  install_for_user =
      λ uid quadlet. give (ok (record { path = text "/x"; systemd_unit = text "web.service" }));
}

abbrev pub units : UserSystemdController Machine
units =
    let operate = λ (target : PodmanTarget) (unit : Bytes).
      give {S = Machine} {A = UnitOperationResult}
        (ok (record { job_path = none; final_status = status_of unit (text "failed") })) in
    record {
      daemon_reload = λ target. give (ok tt);
      start_unit = operate;
      restart_unit = operate;
      stop_unit = operate;
      status = λ target unit. give (ok (status_of unit (text "failed")));
    }

others-Tidy : Tidy opened others units
others-Tidy = record {
  resolve_uid = λ uid layout version s d. refl;
  socket = λ target layout s d. refl;
  ping = λ target s d. refl;
  load = λ target archive s d. refl;
  snapshot = λ uid name s d. refl;
  restore = λ uid snapshot s d. refl;
  install = λ uid file s d. refl;
  reload = λ target s d. refl;
  restart = λ target unit s d. refl;
  status = λ target unit s d. refl;
}

deploy-Same_example :
    Same opened
      (7 ∷ [])
      (deploy
        (with_staging os at default_install_layout others)
        (record settings { options = options })
        (some units)
        web_bundle
        (7 ∷ [])).1
deploy-Same_example =
    deploy-Same os at opened machine-Descriptors default_install_layout others units others-Tidy
      (record settings { options = options }) web_bundle (7 ∷ [])

abbrev web_target : PodmanTarget
web_target = make_target 1000 (text "web") default_layout (text "5.0.0")

abbrev database : Users Machine
database = record {
  getpw_r_size_max = pos 1024;
  getpwnam_r = λ name size s. (returned (some (record { pw_uid = 1000; pw_name = text "web" })), s);
  getpwuid_r = λ uid size s. (returned (some (record { pw_uid = uid; pw_name = text "web" })), s);
  strerror = λ errno. [];
}

web_resolved : resolve_uid database default_layout (text "5.0.0") 1000 [] ≡ (ok web_target, [])
unfolding resolve_uid
web_resolved = refl

resolve_uid-validate_podman_socket_example :
    (validate_podman_socket os web_target (options_for default_layout) [] ≡ (ok tt, [])) ↔ (
      (st : Stat) × (os.lstat (podman_socket_for default_layout web_target.uid) []
        ≡ (returned st, []))
      × (st.kind ≡ socket_file)
      × (st.uid ≡ web_target.uid))
resolve_uid-validate_podman_socket_example =
    resolve_uid-validate_podman_socket os database default_layout (text "5.0.0") 1000 web_target []
      [] [] [] web_resolved

validate_podman_socket-IsPodmanSocket_example :
    (validate_podman_socket os web_target (options_for default_layout) [] ≡ (ok tt, [])) ↔ (
      (st : Stat) × (os.lstat web_target.socket_path [] ≡ (returned st, []))
      × IsPodmanSocket web_target (options_for default_layout) st)
validate_podman_socket-IsPodmanSocket_example =
    validate_podman_socket-IsPodmanSocket os web_target (options_for default_layout) [] []

sample_socket : validate_podman_socket os web_target (options_for default_layout) [] ≡ (ok tt, [])
unfolding text validate_podman_socket elements lexically_normal make_target podman_socket_for
    runtime_dir_for join to_string equal starts_with ends_with normalized
sample_socket = refl
