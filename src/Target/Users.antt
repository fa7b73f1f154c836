-- ===== src/Target/Users.antt =====
-- `resolve_user` and `resolve_uid` of src/target.cpp, over the database of users.
use pod_installer.Base.{ℕ, zero, suc, ◌*◌, ◌++◌, Option, none, some, Bytes, text, is_empty}
use pod_installer.Base.Decimal.{to_string}
use pod_installer.Base.Int.{ℤ, pos, negsuc}
use pod_installer.Error.{Error, ok, filesystem, invalid_argument, os_error, fail, reject_if}
use pod_installer.World.{Action, give, ◌>>=◌, ◌>>◌}
use pod_installer.System.{Outcome, attempt}
use pod_installer.Target.{RuntimeDirectoryLayout, PodmanTarget, make_target}
use pod_installer.Podman.{c_str}

-- what is read of `passwd`
pub record Passwd : Type 0 where
  pub pw_uid : ℕ
  pub pw_name : Bytes

-- The calls fail with a code, or they give the entry if there is one. They are passed the name, as
-- a C string, or the uid, and the size of the buffer.
pub record Users (S : Type 0) : Type 0 where
  pub getpw_r_size_max : ℤ
  pub getpwnam_r : Bytes → ℕ → S → Outcome (Option Passwd) × S
  pub getpwuid_r : ℕ → ℕ → S → Outcome (Option Passwd) × S
  pub strerror : ℕ → Bytes

abbrev pub buffer_size : ℤ → ℕ
buffer_size (pos (suc n)) = suc n
buffer_size (pos zero) = 16 * 1024
buffer_size (negsuc n) = 16 * 1024

module _ {S : Type 0} (users : Users S) (layout : RuntimeDirectoryLayout)
    (api_version : Bytes) where
  unfoldable pub passwd_buffer_size : ℕ
  passwd_buffer_size = buffer_size users.getpw_r_size_max

  -- behind a call that did not fail
  abbrev pub target_of : Bytes → Option Passwd → Action S PodmanTarget
  target_of missing none = give (fail invalid_argument missing)
  target_of missing (some pw) = give (ok (make_target pw.pw_uid pw.pw_name layout api_version))

  abbrev pub user_failure : Bytes → ℕ → Error
  user_failure user_name rc =
      os_error filesystem
        (text "getpwnam_r failed for user '" ++ user_name ++ text "': " ++ users.strerror rc) rc

  unfoldable pub resolve_user : Bytes → Action S PodmanTarget
  unfolding passwd_buffer_size
  resolve_user user_name =
      give (reject_if (is_empty user_name) invalid_argument (text "user name is empty"))
      >> attempt (user_failure user_name) (users.getpwnam_r (c_str user_name) passwd_buffer_size)
      >>= target_of (text "user '" ++ user_name ++ text "' does not exist")

  abbrev pub uid_failure : ℕ → ℕ → Error
  uid_failure uid rc =
      os_error filesystem
        (text "getpwuid_r failed for uid " ++ to_string uid ++ text ": " ++ users.strerror rc) rc

  unfoldable pub resolve_uid : ℕ → Action S PodmanTarget
  unfolding passwd_buffer_size
  resolve_uid uid =
      attempt (uid_failure uid) (users.getpwuid_r uid passwd_buffer_size)
      >>= target_of (text "uid " ++ to_string uid ++ text " does not exist")
