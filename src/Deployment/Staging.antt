-- ===== src/Deployment/Staging.antt =====
-- The staged image archive and the lock of a deployment, of src/deployment.cpp. A path that is
-- walked is the list of its elements.
pub mod Descriptors
pub mod Opened
pub mod Locked
pub mod Tidy
pub mod Balanced
pub mod Walk
pub mod Confined
pub mod Waiting
pub mod Kept
pub mod Named
use pod_installer.Base.{
  ℕ, zero, suc, Bool, true, false, not, ◌||◌, ◌==◌, List, [], ◌∷◌, ◌++◌, Option, none, some, Bytes,
  text, equal, is_empty, if◌then◌else◌,
}
use pod_installer.Base.Decimal.{to_string}
use pod_installer.Error.{Error, Result, ok, err, filesystem, policy, os_error, fail, reject_if}
use pod_installer.World.{Action, give, finally, ◌>>=◌, ◌>>◌}
use pod_installer.System.{Outcome, returned, failed, eintr, eexist, Stat, Files, attempt, cleaning}
use pod_installer.Quadlet.Installer.{QuadletInstallLayout}
use pod_installer.Quadlet.Files.{
  is_regular, refuse, on_path, unnamed, is_other_owner, owner_mismatch,
}
use pod_installer.Quadlet.Store.{is_too_large, size_of}
use pod_installer.Deployment.Bundle.{ImageArchive, DeploymentOptions}
use pod_installer.Deployment.StagedPath.{relative_staged_path}
use pod_installer.Deployment.Services.{OpenArchive, Services}

-- The calls that name a file below an open directory, and the lock. The flags stand in the names:
-- `stat_at` and the opening calls follow no link.
pub record FilesAt (S : Type 0) : Type 0 where
  pub stat_at : ℕ → Bytes → S → Outcome Stat × S
  pub open_directory_at : ℕ → Bytes → S → Outcome ℕ × S
  pub open_nonblock_at : ℕ → Bytes → S → Outcome ℕ × S
  pub create_at : ℕ → Bytes → ℕ → S → Outcome ℕ × S
  pub mkdirat : ℕ → Bytes → ℕ → S → Outcome (Unit {0}) × S
  pub fchmod : ℕ → ℕ → S → Outcome (Unit {0}) × S
  pub flock : ℕ → S → Outcome (Unit {0}) × S

module _ {S : Type 0} (os : Files S) (at : FilesAt S) where
  abbrev pub refuse_policy : Bool → Bytes → Action S (Unit {0})
  refuse_policy refused message = give (reject_if refused policy message)

  -- what a file that is loaded must be, at either look at it
  abbrev pub check_archive : DeploymentOptions → Stat → Action S (Unit {0})
  check_archive options st =
      refuse_policy (not (is_regular st.kind)) (text "staged image archive must be a regular file")
      >> refuse_policy (is_too_large os st.size options.max_image_archive_bytes)
          (text "staged image archive is too large")

  abbrev pub component_failure : Bytes → Bytes → ℕ → Error
  component_failure what name = on_path os (what ++ text " staged image archive component '") name

  abbrev pub open_step : ℕ → Bytes → Action S ℕ
  open_step current name =
      attempt (component_failure (text "failed to open") name) (at.open_directory_at current name)

  abbrev pub open_final : DeploymentOptions → ℕ → Bytes → Action S ℕ
  open_final options current name =
      attempt (component_failure (text "failed to stat") name) (at.stat_at current name)
      >>= check_archive options
      >> attempt (component_failure (text "failed to open") name) (at.open_nonblock_at current name)

  -- The loop over the elements. `current`, which is overwritten or left, is closed either way.
  abbrev pub walk : DeploymentOptions → List Bytes → ℕ → Action S ℕ
  walk options [] current = give (ok current)
  walk options (name ∷ []) current = finally (os.close current) (open_final options current name)
  walk options (name ∷ next ∷ path) current =
      finally (os.close current) (open_step current name) >>= walk options (next ∷ path)

  -- what is behind the loop, with the file that it ends at
  abbrev pub measure : DeploymentOptions → ℕ → Action S OpenArchive
  measure options current =
      attempt (unnamed os (text "failed to stat staged image archive: ")) (os.fstat current)
      >>= λ st.
          check_archive options st >> give (ok (record { fd = current; size = size_of os st.size }))

  -- behind the `open` of the staging root
  abbrev pub open_below : DeploymentOptions → List Bytes → ℕ → Action S OpenArchive
  open_below options path current =
      walk options path current >>= λ fd. cleaning (os.close fd) (measure options fd)

  abbrev pub open_under : ImageArchive → DeploymentOptions → Bytes → Action S OpenArchive
  open_under archive options root = do
    relative ← give (relative_staged_path root archive.path)
    current ←
        attempt (on_path os (text "failed to open image archive staging root '") root)
          (os.open_directory root)
    open_below options relative current

  abbrev pub open_configured :
      ImageArchive → DeploymentOptions → Option Bytes → Action S OpenArchive
  open_configured archive options none =
      give (
        fail policy
          (text "deployment image loading requires DeploymentOptions::image_archive_root"))
  open_configured archive options (some root) = open_under archive options root

  unfoldable pub open_staged_image_archive : ImageArchive → DeploymentOptions → Action S OpenArchive
  open_staged_image_archive archive options =
      refuse_policy (not (is_empty archive.expected_sha256)) (
        text "ImageArchive::expected_sha256 is not implemented; verify bundle "
        ++ text "manifest digests before deployment")
      >> open_configured archive options options.image_archive_root

  abbrev pub check_owner : QuadletInstallLayout → Bytes → Stat → Action S (Unit {0})
  check_owner layout description st =
      refuse os (is_other_owner layout.required_owner_uid st.uid) (
        owner_mismatch os (description ++ text " owner uid ") st.uid
          (text " does not match required uid ") layout.required_owner_uid)
      >> refuse os (is_other_owner layout.required_owner_gid st.gid) (
          owner_mismatch os (description ++ text " owner gid ") st.gid
            (text " does not match required gid ") layout.required_owner_gid)

  unfoldable pub validate_owner_if_required : ℕ → QuadletInstallLayout → Bytes → Action S (Unit {0})
  validate_owner_if_required fd layout description =
      attempt (unnamed os (text "failed to stat " ++ description ++ text ": ")) (os.fstat fd)
      >>= check_owner layout description

  unfoldable pub lock_name : ℕ → Bytes → Bytes
  lock_name uid unit = to_string uid ++ text "-" ++ unit ++ text ".lock"

  abbrev pub lock_failure : Bytes → ℕ → Error
  lock_failure name = on_path os (text "failed to lock deployment '") name

  -- behind a call of `flock`: `again` is the next round
  abbrev pub lock_round :
      Action S (Unit {0}) → Bytes → Outcome (Unit {0}) × S → Result (Unit {0}) × S
  lock_round again name (returned _, s) = (ok tt, s)
  lock_round again name (failed errno, s) =
      if errno == eintr then again s else (err (lock_failure name errno), s)

  -- the loop over `flock`; out of fuel is reported as an interruption
  pub lock_loop : ℕ → ℕ → Bytes → Action S (Unit {0})
  lock_loop zero fd name s = (err (lock_failure name eintr), s)
  lock_loop (suc fuel) fd name s = lock_round (lock_loop fuel fd name) name (at.flock fd s)

  -- what waits for the lock, of which so many waits are interrupted
  unfoldable pub wait_lock : ℕ → Bytes → Action S (Unit {0})
  unfolding lock_loop
  wait_lock fd name s = lock_loop (suc (os.interruptions s)) fd name s

  -- the lock file, which is closed where it cannot be locked
  abbrev pub take_lock : Bytes → ℕ → Action S ℕ
  take_lock name dir_fd = do
    lock_fd ←
        attempt (on_path os (text "failed to open deployment lock '") name)
          (at.create_at dir_fd name 420)
    cleaning (os.close lock_fd) (wait_lock lock_fd name >> give (ok lock_fd))

  abbrev pub lock_in_directory : QuadletInstallLayout → Bytes → ℕ → Action S ℕ
  lock_in_directory layout name dir_fd =
      validate_owner_if_required dir_fd layout (text "deployment lock directory")
      >> attempt (unnamed os (text "failed to chmod deployment lock directory: "))
          (at.fchmod dir_fd 493)
      >> take_lock name dir_fd

  -- behind the `mkdirat`: a directory that is there is no error
  abbrev pub made_directory : Outcome (Unit {0}) × S → Result (Unit {0}) × S
  made_directory (returned _, s) = (ok tt, s)
  made_directory (failed errno, s) =
      if errno == eexist
      then (ok tt, s)
      else (err (unnamed os (text "failed to create deployment lock directory: ") errno), s)

  abbrev pub make_lock_directory : ℕ → Action S (Unit {0})
  make_lock_directory root_fd s = made_directory (at.mkdirat root_fd (text ".locks") 493 s)

  abbrev pub open_lock_directory : ℕ → Action S ℕ
  open_lock_directory root_fd =
      attempt (unnamed os (text "failed to open deployment lock directory: "))
        (at.open_directory_at root_fd (text ".locks"))

  abbrev pub lock_below : QuadletInstallLayout → Bytes → ℕ → Action S ℕ
  lock_below layout name root_fd =
      validate_owner_if_required root_fd layout (text "deployment lock root")
      >> make_lock_directory root_fd
      >> (open_lock_directory root_fd >>= λ dir_fd.
          finally (os.close dir_fd) (lock_in_directory layout name dir_fd))

  unfoldable pub lock_deployment : QuadletInstallLayout → ℕ → Bytes → Action S ℕ
  unfolding validate_owner_if_required wait_lock
  lock_deployment layout uid unit = do
    attempt
        (λ errno.
          os_error filesystem
            (text "failed to create deployment lock root '"
              ++ layout.admin_user_root
              ++ text "': "
              ++ os.strerror errno)
            0)
        (os.create_directories layout.admin_user_root)
    root_fd ←
        attempt (on_path os (text "failed to open deployment lock root '") layout.admin_user_root)
          (os.open_directory layout.admin_user_root)
    finally (os.close root_fd) (lock_below layout (lock_name uid unit) root_fd)

  -- the services of a deployment whose archive and lock are these
  abbrev pub with_staging : QuadletInstallLayout → Services S → Services S
  with_staging layout services = record services {
    open_staged_image_archive = open_staged_image_archive;
    close_archive = λ archive. os.close archive.fd;
    lock_deployment = lock_deployment layout;
    unlock = os.close;
  }
