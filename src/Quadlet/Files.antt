-- ===== src/Quadlet/Files.antt =====
-- The file operations of the installer, of src/quadlet.cpp, over the system calls.
pub mod WriteAll
use pod_installer.Base.{
  ℕ, zero, suc, ◌+◌, ◌-◌, ◌*◌, ◌/◌, ◌%◌, Bool, true, false, not, ◌&&◌, ◌||◌, ◌==◌, ltb, List, [],
  ◌∷◌, ◌++◌, Option, none, some, Bytes, text, length, drop, if◌then◌else◌,
}
use pod_installer.Base.Decimal.{to_string}
use pod_installer.Base.Int.{ℤ, pos, negsuc}
use pod_installer.Error.{Error, Result, ok, err, filesystem, os_error, fail}
use pod_installer.World.{Action, Effect, give, finally, ◌>>=◌, ◌>>◌}
use pod_installer.System.{
  Outcome, returned, failed, enoent, eintr, eexist, FileKind, regular_file, real_directory,
  symbolic_link, Stat, Files, attempt, cleaning,
}
use pod_installer.Target.{filename, parent_path}
use pod_installer.Quadlet.Installer.{QuadletInstallLayout, user_directory}

-- `st.st_mode & 0022`
abbrev pub others_may_write : ℕ → Bool
others_may_write permissions = permissions / 16 % 2 == 1 || permissions / 2 % 2 == 1

abbrev pub is_real_directory : FileKind → Bool
is_real_directory FileKind.real_directory = true
is_real_directory _ = false

abbrev pub is_regular : FileKind → Bool
is_regular FileKind.regular_file = true
is_regular _ = false

-- `required && actual != *required`
abbrev pub is_other_owner : Option ℕ → ℕ → Bool
is_other_owner none actual = false
is_other_owner (some required) actual = not (actual == required)

abbrev pub required_text : Option ℕ → Bytes
required_text none = []
required_text (some required) = to_string required

module _ {S : Type 0} (os : Files S) where
  abbrev pub refuse : Bool → Bytes → Action S (Unit {0})
  refuse true message = give (fail filesystem message)
  refuse false message = give (ok tt)

  -- the error of a call on a path
  abbrev pub on_path : Bytes → Bytes → ℕ → Error
  on_path message path errno =
      os_error filesystem (message ++ path ++ text "': " ++ os.strerror errno) errno

  abbrev pub unnamed : Bytes → ℕ → Error
  unnamed message errno = os_error filesystem (message ++ os.strerror errno) errno

  abbrev pub owner_mismatch : Bytes → ℕ → Bytes → Option ℕ → Bytes
  owner_mismatch what actual which required =
      what ++ to_string actual ++ which ++ required_text required

  -- what is looked at behind the first `lstat`
  abbrev pub check_directory : Bytes → QuadletInstallLayout → Stat → Action S (Unit {0})
  check_directory dir layout st = do
    refuse (not (is_real_directory st.kind))
        (text "Quadlet directory is not a real directory: " ++ dir)
    refuse (is_other_owner layout.required_owner_uid st.uid) (
        owner_mismatch (text "Quadlet directory owner uid ") st.uid
          (text " does not match required uid ") layout.required_owner_uid)
    refuse (is_other_owner layout.required_owner_gid st.gid) (
        owner_mismatch (text "Quadlet directory owner gid ") st.gid
          (text " does not match required gid ") layout.required_owner_gid)

  -- what is looked at behind the `chmod`
  abbrev pub check_writers : Bytes → Stat → Action S (Unit {0})
  check_writers dir now =
      refuse (others_may_write now.permissions)
        (text "Quadlet directory must not be group/other writable: " ++ dir)

  unfoldable pub ensure_directory_safe : Bytes → QuadletInstallLayout → Action S (Unit {0})
  ensure_directory_safe dir layout = do
    attempt
        (λ errno.
          os_error filesystem
            (text "failed to create Quadlet directory '" ++ dir ++ text "': " ++ os.strerror errno)
            0)
        (os.create_directories dir)
    st ← attempt (on_path (text "failed to stat Quadlet directory '") dir) (os.lstat dir)
    check_directory dir layout st
    attempt (on_path (text "failed to chmod Quadlet directory '") dir) (os.chmod dir 493)
    now ← attempt (on_path (text "failed to restat Quadlet directory '") dir) (os.lstat dir)
    check_writers dir now

  unfoldable pub ensure_admin_tree : ℕ → QuadletInstallLayout → Action S (Unit {0})
  unfolding ensure_directory_safe
  ensure_admin_tree uid layout = do
    ensure_directory_safe layout.admin_user_root layout
    ensure_directory_safe (user_directory layout uid) layout

  abbrev pub write_failure : ℕ → Error
  write_failure = unnamed (text "failed to write Quadlet file: ")

  -- behind a round of the loop of `write_all`: `again` is the next round, on what is left
  abbrev pub write_round :
      (Bytes → Action S (Unit {0})) → Bytes → Outcome ℕ × S → Result (Unit {0}) × S
  write_round again contents (returned written, s) = again (drop written contents) s
  write_round again contents (failed errno, s) =
      if errno == eintr then again contents s else (err (write_failure errno), s)

  -- The loop of `write_all`. A round writes a byte or is interrupted, or it fails; out of fuel is
  -- reported as an interruption.
  pub write_loop : ℕ → ℕ → Bytes → Action S (Unit {0})
  write_loop fuel fd [] s = (ok tt, s)
  write_loop zero fd (c ∷ contents) s = (err (write_failure eintr), s)
  write_loop (suc fuel) fd (c ∷ contents) s =
      write_round (write_loop fuel fd) (c ∷ contents) (os.write fd (c ∷ contents) s)

  unfoldable pub write_all : ℕ → Bytes → Action S (Unit {0})
  unfolding write_loop
  write_all fd contents s = write_loop (length contents + os.interruptions s) fd contents s
