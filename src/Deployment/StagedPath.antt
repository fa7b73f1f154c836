-- ===== src/Deployment/StagedPath.antt =====
-- `relative_staged_path` of src/deployment.cpp. A path that is walked is the list of its elements.
pub mod Relative
use pod_installer.Base.{
  Bool, true, false, not, ◌&&◌, List, [], ◌∷◌, ◌++◌, Option, none, some, Bytes, text, equal,
  is_empty, if◌then◌else◌,
}
use pod_installer.Error.{Result, Checked, ok, policy, fail, reject_if, ◌>>=◌, ◌>>◌}
use pod_installer.FilePath.{
  elements, joined, is_absolute, is_dot, is_dot_dot, lexically_normal, append_element,
}

unfoldable pub path_component_is_safe : Bytes → Bool
path_component_is_safe value = not (is_empty value) && not (is_dot value) && not (is_dot_dot value)

-- a loop over the elements of a path, which `shown` prints
abbrev pub check_components : Bytes → List Bytes → Checked
check_components shown [] = ok tt
check_components shown (component ∷ path) =
    let rest = check_components shown path in
    if path_component_is_safe component
    then rest
    else fail policy (text "image archive path must not contain '.' or '..': " ++ shown)

-- the loop over both paths: what is left of the first one behind the root
abbrev pub behind_root : List Bytes → List Bytes → Option (List Bytes)
behind_root path [] = some path
behind_root [] (r ∷ root) = none
behind_root (p ∷ path) (r ∷ root) =
    let rest = behind_root path root in if equal p r then rest else none

-- `relative /= *path_it` for each element
abbrev pub append_elements : List Bytes → List Bytes → List Bytes
append_elements relative [] = relative
append_elements relative (name ∷ path) = append_elements (append_element relative name) path

abbrev pub relative_to : List Bytes → Option (List Bytes) → Result (List Bytes)
relative_to normalized none =
    fail policy
      (text "image archive path is outside configured staging root: " ++ joined normalized)
relative_to normalized (some left) = ok (append_elements [] left)

-- `normalized.empty() || normalized == "."`
abbrev pub is_no_path : List Bytes → Bool
is_no_path [] = true
is_no_path (name ∷ []) = is_dot name
is_no_path (name ∷ next ∷ path) = false

abbrev pub strip_root : Bytes → List Bytes → Result (List Bytes)
strip_root root normalized =
    if is_absolute normalized
    then relative_to normalized (behind_root normalized (lexically_normal (elements root)))
    else ok normalized

-- the checks at the end
abbrev pub check_relative : List Bytes → Result (List Bytes)
check_relative normalized =
    reject_if (is_no_path normalized) policy (text "image archive path is empty")
    >> (check_components (joined normalized) normalized >> ok normalized)

unfoldable pub relative_staged_path : Bytes → Bytes → Result (List Bytes)
relative_staged_path root path =
    check_components path (elements path)
    >> (strip_root root (lexically_normal (elements path)) >>= check_relative)
