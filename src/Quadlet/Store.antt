-- ===== src/Quadlet/Store.antt =====
-- The reads and writes of whole files, and the operations of `QuadletInstaller`, of
-- src/quadlet.cpp.
pub mod Temporary
pub mod Atomic
pub mod ReadBack
pub mod Keeping
pub mod Installed
pub mod Restored
use pod_installer.Base.{
  ℕ, zero, suc, ◌+◌, ◌-◌, Bool, true, false, not, ◌==◌, ltb, [], ◌∷◌, ◌++◌, Bytes, text, length,
  if◌then◌else◌,
}
use pod_installer.Base.Decimal.{to_string}
use pod_installer.Base.Int.{ℤ, pos, negsuc}
use pod_installer.Error.{Error, Result, ok, err, filesystem, fail}
use pod_installer.World.{Action, Effect, give, finally, ◌>>=◌, ◌>>◌}
use pod_installer.System.{
  Outcome, returned, failed, enoent, eintr, eexist, Stat, Files, attempt, cleaning,
}
use pod_installer.Target.{same_path, filename, parent_path}
use pod_installer.Quadlet.QuadletPolicy.{QuadletFile, QuadletPolicy}
use pod_installer.Quadlet.FileName.{validate_quadlet_file_name}
use pod_installer.Quadlet.Installer.{
  InstalledQuadlet, QuadletSnapshot, QuadletInstallLayout, quadlet_path, expected_install,
}
use pod_installer.Quadlet.Files.{is_regular, refuse, on_path, unnamed, ensure_admin_tree, write_all}

module _ {S : Type 0} (os : Files S) where
  unfoldable pub fsync_directory : ℕ → Action S (Unit {0})
  fsync_directory fd =
      attempt (unnamed os (text "failed to fsync Quadlet directory: ")) (os.fsync fd)

  -- the name that `attempt_no` gives the temporary file
  abbrev pub candidate_name : Bytes → ℕ → ℕ → Bytes
  candidate_name final_name pid attempt_no =
      text "." ++ final_name ++ text ".tmp." ++ to_string pid ++ text "." ++ to_string attempt_no

  -- behind an attempt: only a name that is taken leads to the next one
  abbrev pub created : Action S (ℕ × Bytes) → Bytes → Bytes → Outcome ℕ × S → Result (ℕ × Bytes) × S
  created next dir candidate (returned fd, s) = (ok (fd, candidate), s)
  created next dir candidate (failed errno, s) =
      if errno == eexist
      then next s
      else (err (on_path os (text "failed to open temporary Quadlet file in '") dir errno), s)

  -- the loop over the attempts, of which so many are left
  pub create_temporary : ℕ → ℕ → ℕ → Bytes → Bytes → ℕ → Action S (ℕ × Bytes)
  create_temporary zero attempt_no dir_fd dir final_name mode s =
      (fail filesystem (text "failed to allocate unique temporary Quadlet file name"), s)
  create_temporary (suc left) attempt_no dir_fd dir final_name mode s =
      let candidate = candidate_name final_name (os.getpid s) attempt_no in
      created (create_temporary left (suc attempt_no) dir_fd dir final_name mode) dir candidate
        (os.create_exclusive dir_fd candidate mode s)

  -- `unlinkat`, of which the result is not looked at
  abbrev pub discard : ℕ → Bytes → Effect S
  discard dir_fd name s = (os.unlinkat dir_fd name s).1

  abbrev pub flush_temporary : ℕ → Bytes → Action S (Unit {0})
  flush_temporary fd contents =
      write_all os fd contents
      >> attempt (unnamed os (text "failed to fsync temporary Quadlet file: ")) (os.fsync fd)

  -- the temporary file, filled and closed; it is removed where this fails
  abbrev pub fill_temporary : ℕ → ℕ × Bytes → Bytes → Action S (Unit {0})
  fill_temporary dir_fd (fd, tmp_name) contents =
      finally (os.close fd) (cleaning (discard dir_fd tmp_name) (flush_temporary fd contents))

  -- the temporary file takes the place of the final one; it is removed where this fails
  abbrev pub install_temporary : ℕ → Bytes → Bytes → Bytes → Action S (Unit {0})
  install_temporary dir_fd tmp_name final_path final_name = cleaning (discard dir_fd tmp_name) (
      attempt (on_path os (text "failed to install Quadlet file '") final_path)
        (os.renameat dir_fd tmp_name final_name))

  -- behind the temporary file, which is empty
  abbrev pub replace_file : ℕ → ℕ × Bytes → Bytes → Bytes → Bytes → Action S (Unit {0})
  replace_file dir_fd temporary contents final_path final_name =
      fill_temporary dir_fd temporary contents
      >> install_temporary dir_fd temporary.1 final_path final_name
      >> fsync_directory dir_fd

  -- behind the `open` of the directory
  abbrev pub replace_in_directory : ℕ → Bytes → Bytes → Bytes → ℕ → Action S (Unit {0})
  replace_in_directory dir_fd dir final_path contents mode =
      create_temporary 100 0 dir_fd dir (filename final_path) mode >>= λ temporary.
      replace_file dir_fd temporary contents final_path (filename final_path)

  unfoldable pub atomic_write_file : Bytes → Bytes → ℕ → Action S (Unit {0})
  unfolding create_temporary
  atomic_write_file final_path contents mode = do
    let dir = parent_path final_path
    dir_fd ←
        attempt (on_path os (text "failed to open Quadlet directory '") dir) (os.open_directory dir)
    finally (os.close dir_fd) (replace_in_directory dir_fd dir final_path contents mode)

  -- `st.st_size < 0 || std::cmp_greater(st.st_size, max_size)`
  abbrev pub is_too_large : ℤ → ℕ → Bool
  is_too_large (pos size) max_size = ltb max_size size
  is_too_large (negsuc n) max_size = true

  -- `static_cast<size_t>(st.st_size)`, of a size that is not negative
  abbrev pub size_of : ℤ → ℕ
  size_of (pos size) = size
  size_of (negsuc n) = 0

  abbrev pub read_failure : Bytes → ℕ → Error
  read_failure path = on_path os (text "failed to read Quadlet file '") path

  -- behind a round of the loop over `read`
  abbrev pub read_round :
      (ℕ → Bytes → Action S Bytes) → Bytes → ℕ → Bytes → Outcome Bytes × S → Result Bytes × S
  read_round again path left out (returned [], s) =
      (fail filesystem (text "Quadlet file changed while reading: " ++ path), s)
  read_round again path left out (returned (c ∷ bytes), s) =
      again (left - length (c ∷ bytes)) (out ++ c ∷ bytes) s
  read_round again path left out (failed errno, s) =
      if errno == eintr then again left out s else (err (read_failure path errno), s)

  -- the loop, with so many bytes left to read
  pub read_loop : ℕ → ℕ → Bytes → ℕ → Bytes → Action S Bytes
  read_loop fuel fd path zero out s = (ok out, s)
  read_loop zero fd path (suc left) out s = (err (read_failure path eintr), s)
  read_loop (suc fuel) fd path (suc left) out s =
      read_round (read_loop fuel fd path) path (suc left) out (os.read fd (suc left) s)

  -- behind the `fstat`
  abbrev pub read_checked : ℕ → Bytes → ℕ → Stat → Action S Bytes
  read_checked fd path max_size st =
      refuse os (not (is_regular st.kind)) (text "Quadlet path is not a regular file: " ++ path)
      >> refuse os (is_too_large st.size max_size) (text "Quadlet file is too large: " ++ path)
      >> λ s. read_loop (size_of st.size + os.interruptions s) fd path (size_of st.size) [] s

  -- behind the `open`
  abbrev pub read_opened : ℕ → Bytes → ℕ → Action S Bytes
  read_opened fd path max_size =
      attempt (on_path os (text "failed to stat Quadlet file '") path) (os.fstat fd)
      >>= read_checked fd path max_size

  unfoldable pub read_regular_file_no_symlink : Bytes → ℕ → Action S Bytes
  unfolding read_loop
  read_regular_file_no_symlink path max_size = do
    fd ← attempt (on_path os (text "failed to open Quadlet file '") path) (os.open_no_follow path)
    finally (os.close fd) (read_opened fd path max_size)

  -- behind the `unlinkat`: a file that is not there is no error
  abbrev pub unlinked : Bytes → Outcome (Unit {0}) × S → Result (Unit {0}) × S
  unlinked path (returned _, s) = (ok tt, s)
  unlinked path (failed errno, s) =
      if errno == enoent
      then (ok tt, s)
      else (err (on_path os (text "failed to remove Quadlet file '") path errno), s)

  abbrev pub remove_in_directory : ℕ → Bytes → Action S (Unit {0})
  remove_in_directory dir_fd path =
      (λ s. unlinked path (os.unlinkat dir_fd (filename path) s)) >> fsync_directory dir_fd

  unfoldable pub unlink_quadlet_file : Bytes → Action S (Unit {0})
  unlink_quadlet_file path = do
    dir_fd ←
        attempt (unnamed os (text "failed to open Quadlet directory for remove: "))
          (os.open_directory (parent_path path))
    finally (os.close dir_fd) (remove_in_directory dir_fd path)

  -- behind the checks of the name and of the directories
  abbrev pub restore_checked : Bytes → QuadletSnapshot → Action S (Unit {0})
  restore_checked path snapshot = do
    refuse os (not (same_path path snapshot.path))
        (text "Quadlet snapshot path does not match installer layout")
    if snapshot.existed
        then atomic_write_file path snapshot.contents 420
        else unlink_quadlet_file path

  module _ (layout : QuadletInstallLayout) (rules : QuadletPolicy) where
    -- behind the `lstat` of `snapshot_for_user`
    abbrev pub snapshot_at : Bytes → Bytes → Outcome Stat × S → Result QuadletSnapshot × S
    snapshot_at path file_name (failed errno, s) =
        if errno == enoent
        then (ok (record { path = path; file_name = file_name; existed = false; contents = [] }), s)
        else (err (on_path os (text "failed to stat Quadlet snapshot path '") path errno), s)
    snapshot_at path file_name (returned st, s) =
        (read_regular_file_no_symlink path layout.max_quadlet_bytes >>= λ contents.
        give
          (ok (record { path = path; file_name = file_name; existed = true; contents = contents })))
          s

    unfoldable pub snapshot_for_user : ℕ → Bytes → Action S QuadletSnapshot
    snapshot_for_user uid file_name = do
      give (validate_quadlet_file_name file_name)
      ensure_admin_tree os uid layout
      λ s.
          let path = quadlet_path layout uid file_name in
          snapshot_at path file_name (os.lstat path s)

    unfoldable pub restore_for_user : ℕ → QuadletSnapshot → Action S (Unit {0})
    restore_for_user uid snapshot = do
      give (validate_quadlet_file_name snapshot.file_name)
      ensure_admin_tree os uid layout
      restore_checked (quadlet_path layout uid snapshot.file_name) snapshot

    unfoldable pub remove_for_user : ℕ → Bytes → Action S (Unit {0})
    remove_for_user uid file_name = do
      give (validate_quadlet_file_name file_name)
      ensure_admin_tree os uid layout
      unlink_quadlet_file (quadlet_path layout uid file_name)

    unfoldable pub install_for_user : ℕ → QuadletFile → Action S InstalledQuadlet
    install_for_user uid quadlet = do
      expected ← give (expected_install layout rules uid quadlet)
      ensure_admin_tree os uid layout
      atomic_write_file expected.path quadlet.contents 420
      give (ok expected)
