-- ===== src/Service/Staged.antt =====
-- The staged files of examples/orchestrator_service.cpp: their paths, and how they are opened and
-- read. The example has its own copies of some of the library's functions.
use pod_installer.Base.{
  ℕ, zero, suc, ◌+◌, ◌-◌, Bool, not, ◌&&◌, ◌==◌, List, [], ◌∷◌, ◌++◌, Option, none, some, Bytes,
  text, length, equal, is_empty, if◌then◌else◌,
}
use pod_installer.Error.{Error, Result, ok, err, filesystem, policy, fail, reject_if}
use pod_installer.World.{Action, give, finally, ◌>>=◌, ◌>>◌}
use pod_installer.System.{Outcome, returned, failed, eintr, Files, attempt, cleaning}
use pod_installer.FilePath.{
  elements, joined, is_absolute, is_dot, is_dot_dot, lexically_normal, append_element,
}
use pod_installer.Quadlet.Files.{is_regular, on_path, unnamed}
use pod_installer.Quadlet.Store.{is_too_large, size_of}

-- `openat` of a directory and of a file, neither of which follows a link
pub record StagedFiles (S : Type 0) : Type 0 where
  pub open_directory_at : ℕ → Bytes → S → Outcome ℕ × S
  pub open_file_at : ℕ → Bytes → S → Outcome ℕ × S

unfoldable pub component_is_safe : Bytes → Bool
component_is_safe value = not (is_empty value) && not (is_dot value) && not (is_dot_dot value)

abbrev pub check_safe : List Bytes → List Bytes → Result (List Bytes)
check_safe whole [] = ok whole
check_safe whole (component ∷ path) =
    let rest = check_safe whole path in
    if component_is_safe component
    then rest
    else fail policy (text "staged file path must not contain '.' or '..': " ++ joined whole)

-- what is left of a path behind the root
abbrev pub left_behind : List Bytes → List Bytes → Option (List Bytes)
left_behind path [] = some path
left_behind [] (r ∷ root) = none
left_behind (p ∷ path) (r ∷ root) =
    let rest = left_behind path root in if equal p r then rest else none

abbrev pub joined_elements : List Bytes → List Bytes → List Bytes
joined_elements relative [] = relative
joined_elements relative (name ∷ path) = joined_elements (append_element relative name) path

abbrev pub check_normal : List Bytes → Result (List Bytes)
check_normal [] = fail policy (text "staged file path is empty")
check_normal (name ∷ path) =
    if is_dot name && is_empty path
    then fail policy (text "staged file path is empty")
    else check_safe (name ∷ path) (name ∷ path)

abbrev pub below_root : List Bytes → Option (List Bytes) → Result (List Bytes)
below_root normalized none =
    fail policy (text "staged file is outside staging root: " ++ joined normalized)
below_root normalized (some left) = check_normal (joined_elements [] left)

abbrev pub relative_of : Bytes → List Bytes → Result (List Bytes)
relative_of staging_root normalized =
    if is_absolute normalized
    then below_root normalized (left_behind normalized (lexically_normal (elements staging_root)))
    else check_normal normalized

unfoldable pub staged_relative_path : Bytes → Bytes → Result (List Bytes)
staged_relative_path staging_root requested =
    relative_of staging_root (lexically_normal (elements requested))

pub record OpenStagedFile : Type 0 where
  pub fd : ℕ
  pub size : ℕ
  pub relative_path : List Bytes

module _ {S : Type 0} (os : Files S) (at : StagedFiles S) where
  abbrev pub open_failure : Bytes → ℕ → Error
  open_failure name = on_path os (text "failed to open staged file component '") name

  -- the loop over the elements: `current` is closed where it is overwritten or left
  abbrev pub walk_staged : List Bytes → ℕ → Action S ℕ
  walk_staged [] current = give (ok current)
  walk_staged (name ∷ []) current =
      finally (os.close current) (attempt (open_failure name) (at.open_file_at current name))
  walk_staged (name ∷ next ∷ path) current =
      finally (os.close current) (attempt (open_failure name) (at.open_directory_at current name))
      >>= walk_staged (next ∷ path)

  -- behind the loop
  abbrev pub staged_file : List Bytes → ℕ → ℕ → Action S OpenStagedFile
  staged_file relative max_size current = do
    st ← attempt (unnamed os (text "failed to stat staged file: ")) (os.fstat current)
    give (reject_if (not (is_regular st.kind)) policy (text "staged file must be a regular file"))
    give (reject_if (is_too_large os st.size max_size) policy (text "staged file is too large"))
    give (ok (record { fd = current; size = size_of os st.size; relative_path = relative }))

  unfoldable pub open_staged_regular_file : Bytes → Bytes → ℕ → Action S OpenStagedFile
  unfolding staged_relative_path
  open_staged_regular_file staging_root requested max_size = do
    relative ← give (staged_relative_path staging_root requested)
    current ←
        attempt (unnamed os (text "failed to open staging root: ")) (os.open_directory staging_root)
    fd ← walk_staged relative current
    cleaning (os.close fd) (staged_file relative max_size fd)

  abbrev pub read_failure : ℕ → Error
  read_failure = unnamed os (text "failed to read staged file: ")

  -- behind a round of the loop over `read`
  abbrev pub staged_round :
      (ℕ → Bytes → Action S Bytes) → ℕ → Bytes → Outcome Bytes × S → Result Bytes × S
  staged_round again left out (returned [], s) =
      (fail filesystem (text "staged file changed while reading"), s)
  staged_round again left out (returned (c ∷ bytes), s) =
      again (left - length (c ∷ bytes)) (out ++ c ∷ bytes) s
  staged_round again left out (failed errno, s) =
      if errno == eintr then again left out s else (err (read_failure errno), s)

  -- the loop, with so many bytes left; out of fuel is reported as an interruption
  unfoldable pub staged_loop : ℕ → ℕ → ℕ → Bytes → Action S Bytes
  staged_loop fuel fd zero out s = (ok out, s)
  staged_loop zero fd (suc left) out s = (err (read_failure eintr), s)
  staged_loop (suc fuel) fd (suc left) out s =
      staged_round (staged_loop fuel fd) (suc left) out (os.read fd (suc left) s)

  abbrev pub read_all : OpenStagedFile → Action S Bytes
  read_all file s = staged_loop (file.size + os.interruptions s) file.fd file.size [] s

  unfoldable pub read_staged_regular_file : Bytes → Bytes → ℕ → Action S Bytes
  unfolding open_staged_regular_file staged_loop
  read_staged_regular_file staging_root path max_size =
      open_staged_regular_file staging_root path max_size >>= λ file.
      finally (os.close file.fd) (read_all file)
