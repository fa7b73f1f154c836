-- ===== src/Deployment/Assembled/Quiet.antt =====
-- The assembled services beside the installer leave a Quadlet, where their calls do.
use pod_installer.Base.{
  ℕ, Bool, true, false, Option, none, some, ◌≡◌, refl, ◌∙◌, arith, Bytes, text, equal, ends_with,
}
use pod_installer.Base.Int.{pos}
use pod_installer.Error.{ok}
use pod_installer.World.{give, Relates, ◌>>=◌, ◌>>◌, then-Relates}
use pod_installer.System.{Stat, attempt, attempt-Relates}
use pod_installer.Http.{HttpRequest}
use pod_installer.Target.{PodmanTarget, RuntimeDirectoryLayout}
use pod_installer.Target.Users.{Passwd, passwd_buffer_size, target_of, uid_failure, resolve_uid}
use pod_installer.Podman.{
  Transfer, client_defaults, with_handle, perform_transfer, request, checked_request, ping,
}
use pod_installer.Podman.Upload.{
  FdUpload, Delivered, UploadTransfer, with_upload_handle, check_upload, stat_upload,
  load_image_archive_fd,
}
use pod_installer.Quadlet.QuadletPolicy.{QuadletPolicy}
use pod_installer.Quadlet.Installer.{QuadletInstallLayout}
use pod_installer.Systemd.Controller.{UserSystemdController}
use pod_installer.SocketValidation.{
  SocketValidationOptions, options_for, check_path, look_at, check_file, validate_podman_socket,
}
use pod_installer.Deployment.Services.{OpenArchive}
use pod_installer.Deployment.Staging.{lock_name}
use pod_installer.Deployment.Staging.Named.{lock_name-apart, locks-apart}
use pod_installer.Deployment.Staging.Kept.{
  CallsRelate, open_staged_image_archive-Relates, lock_deployment-Relates,
}
use pod_installer.Deployment.Orchestrator.Views.{Bystanders}
use pod_installer.Deployment.Assembled.{Calls, ping_podman, load_by_podman, assembled}

module _ {S : Type 0} (quadlet_name : Bytes) (file : S → Option Bytes) where
  abbrev pub Leaves : S → S → Type 0
  Leaves s t = file t ≡ file s

  trans : (s t u : S) → Leaves s t → Leaves t u → Leaves s u
  trans s t u h k = k ∙ h

  -- The calls that have nothing to do with the Quadlet of the user. One that creates a file or a
  -- directory leaves what has another name.
  pub record Quiet (calls : Calls S) (controller : UserSystemdController S) : Type 0 where
    pub stat_at : (fd : ℕ) (name : Bytes) (s : S) → Leaves s (calls.at.stat_at fd name s).1
    pub open_directory_at :
        (fd : ℕ) (name : Bytes) (s : S) → Leaves s (calls.at.open_directory_at fd name s).1
    pub open_nonblock_at :
        (fd : ℕ) (name : Bytes) (s : S) → Leaves s (calls.at.open_nonblock_at fd name s).1
    pub create_at :
        (fd : ℕ) (name : Bytes) (mode : ℕ) (s : S)
        → equal name quadlet_name ≡ false
        → Leaves s (calls.at.create_at fd name mode s).1
    pub mkdirat :
        (fd : ℕ) (name : Bytes) (mode : ℕ) (s : S)
        → equal name quadlet_name ≡ false
        → Leaves s (calls.at.mkdirat fd name mode s).1
    pub fchmod : (fd mode : ℕ) (s : S) → Leaves s (calls.at.fchmod fd mode s).1
    pub flock : (fd : ℕ) (s : S) → Leaves s (calls.at.flock fd s).1
    pub getpwuid_r : (uid size : ℕ) (s : S) → Leaves s (calls.users.getpwuid_r uid size s).1
    pub easy_init : (s : S) → Leaves s (calls.curl.easy_init s).1
    pub easy_perform :
        (transfer : Transfer) (s : S) → Leaves s (calls.curl.easy_perform transfer s).1
    pub easy_cleanup : (s : S) → Leaves s (calls.curl.easy_cleanup s)
    pub upload_init : (s : S) → Leaves s (calls.uploads.easy_init s).1
    pub easy_upload :
        (transfer : UploadTransfer) (callback : ℕ → ℕ → FdUpload → S → Delivered × FdUpload × S)
        (upload : FdUpload) (s : S)
        → Leaves s (calls.uploads.easy_upload transfer callback upload s).1
    pub upload_cleanup : (s : S) → Leaves s (calls.uploads.easy_cleanup s)
    pub reload : (target : PodmanTarget) → Relates Leaves (controller.daemon_reload target)
    pub restart :
        (target : PodmanTarget) (unit : Bytes)
        → Relates Leaves (controller.restart_unit target unit)
    pub status :
        (target : PodmanTarget) (unit : Bytes) → Relates Leaves (controller.status target unit)

  module _ (calls : Calls S) (controller : UserSystemdController S) (quiet : Quiet calls controller)
      (contained : ends_with quadlet_name (text ".container") ≡ true)
      (create_directories : (path : Bytes) (s : S)
        → Leaves s (calls.files.create_directories path s).1)
      (open_directory : (path : Bytes) (s : S) → Leaves s (calls.files.open_directory path s).1)
      (lstat : (path : Bytes) (s : S) → Leaves s (calls.files.lstat path s).1)
      (fstat : (fd : ℕ) (s : S) → Leaves s (calls.files.fstat fd s).1)
      (close : (fd : ℕ) (s : S) → Leaves s (calls.files.close fd s)) where
    staging : CallsRelate Leaves calls.files calls.at
    staging = record {
      same = λ s. refl;
      trans = trans;
      create_directories = create_directories;
      open_directory = open_directory;
      fstat = fstat;
      close = close;
      stat_at = quiet.stat_at;
      open_directory_at = quiet.open_directory_at;
      open_nonblock_at = quiet.open_nonblock_at;
      create_at = λ fd uid unit mode s.
          quiet.create_at fd (lock_name calls.files calls.at uid unit) mode s
            (lock_name-apart calls.files calls.at uid unit quadlet_name contained);
      mkdirat =
          λ fd mode s. quiet.mkdirat fd (text ".locks") mode s (locks-apart quadlet_name contained);
      fchmod = quiet.fchmod;
      flock = quiet.flock;
    }

    target_of_lem :
        (layout : RuntimeDirectoryLayout) (version missing : Bytes) (entry : Option Passwd)
        → Relates Leaves (target_of calls.users layout version missing entry)
    target_of_lem layout version missing none = λ s. refl
    target_of_lem layout version missing (some pw) = λ s. refl

    resolve_uid-Relates :
        (uid : ℕ) (layout : RuntimeDirectoryLayout) (version : Bytes)
        → Relates Leaves (resolve_uid calls.users layout version uid)
    unfolding resolve_uid
    resolve_uid-Relates uid layout version =
        let size = passwd_buffer_size calls.users layout version in
        then-Relates Leaves trans
          (attempt (uid_failure calls.users layout version uid) (calls.users.getpwuid_r uid size)) _
          (attempt-Relates Leaves _ (calls.users.getpwuid_r uid size) (quiet.getpwuid_r uid size))
          (target_of_lem layout version _)

    module _ (target : PodmanTarget) where
      check_path_lem :
          (options : SocketValidationOptions) (s : S)
          → (check_path calls.files target options s).1 ≡ s
      check_path_lem options s = ground arith

      check_file_lem :
          (options : SocketValidationOptions) (st : Stat) (s : S)
          → (check_file calls.files target options st s).1 ≡ s
      check_file_lem options st s = ground arith

      socket-Relates :
          (options : SocketValidationOptions)
          → Relates Leaves (validate_podman_socket calls.files target options)
      unfolding validate_podman_socket
      socket-Relates options =
          then-Relates Leaves trans
            (check_path calls.files target options >> look_at calls.files target options)
            (check_file calls.files target options)
            (then-Relates Leaves trans (check_path calls.files target options)
              (λ _. look_at calls.files target options) (λ s. rw (check_path_lem options s))
              (λ _.
                attempt-Relates Leaves _ (calls.files.lstat target.socket_path)
                  (lstat target.socket_path)))
            (λ st s. rw (check_file_lem options st s))

      with_handle_lem :
          (req : HttpRequest) (s : S) (o : Bool × S)
          → Leaves s o.1
          → Leaves s (with_handle calls.curl target client_defaults req o).1
      unfolding perform_transfer
      with_handle_lem req s (true, t) h = quiet.easy_cleanup _ ∙ quiet.easy_perform _ t ∙ h
      with_handle_lem req s (false, t) h = h

      checked-Relates :
          (req : HttpRequest) (operation : Bytes)
          → Relates Leaves (checked_request calls.curl target client_defaults req operation)
      unfolding checked_request request
      checked-Relates req operation s =
          with_handle_lem req s (calls.curl.easy_init s) (quiet.easy_init s)

      ping-Relates : Relates Leaves (ping_podman calls target)
      unfolding ping
      ping-Relates =
          then-Relates Leaves trans (ping calls.curl target client_defaults) (λ _. give (ok tt))
            (checked-Relates _ _) (λ _ s. refl)

      upload_handle_lem :
          (fd size : ℕ) (s : S) (o : Bool × S)
          → Leaves s o.1
          → Leaves s
              (with_upload_handle calls.files calls.uploads target client_defaults fd size o).1
      upload_handle_lem fd size s (true, t) h =
          quiet.upload_cleanup _ ∙ quiet.easy_upload _ _ _ t ∙ h
      upload_handle_lem fd size s (false, t) h = h

      check_upload_lem :
          (size : ℕ) (st : Stat) (s : S)
          → (check_upload calls.files calls.uploads target client_defaults size st s).1 ≡ s
      check_upload_lem size st s = ground arith

      load-Relates : (archive : OpenArchive) → Relates Leaves (load_by_podman calls target archive)
      unfolding load_image_archive_fd
      load-Relates archive =
          let stat = stat_upload calls.files calls.uploads target client_defaults archive.fd in
          let check = check_upload calls.files calls.uploads target client_defaults archive.size in
          then-Relates Leaves trans
            (load_image_archive_fd calls.files calls.uploads target client_defaults (pos archive.fd)
              archive.size)
            (λ _. give (ok tt))
            (then-Relates Leaves trans (stat >>= check) _
              (then-Relates Leaves trans stat check
                (attempt-Relates Leaves _ (calls.files.fstat archive.fd) (fstat archive.fd))
                (λ st s. rw (check_upload_lem archive.size st s)))
              (λ _ s.
                upload_handle_lem archive.fd archive.size s (calls.uploads.easy_init s)
                  (quiet.upload_init s)))
            (λ _ s. refl)

    -- All that the orchestrator calls but the installer leaves the file.
    pub assembled-Bystanders :
        (layout : QuadletInstallLayout) (rules : QuadletPolicy) (uid : ℕ)
        → Bystanders file (assembled calls layout rules) controller uid
    assembled-Bystanders layout rules uid = record {
      resolve_uid = resolve_uid-Relates uid;
      opens = open_staged_image_archive-Relates Leaves calls.files calls.at staging;
      close = λ archive s. close archive.fd s;
      lock = lock_deployment-Relates Leaves calls.files calls.at staging layout uid;
      unlock = close;
      socket = λ target runtime_layout. socket-Relates target (options_for runtime_layout);
      ping = ping-Relates;
      load = load-Relates;
      reload = quiet.reload;
      restart = quiet.restart;
      status = quiet.status;
    }
