-- ===== src/Quadlet/FileName.antt =====
-- `validate_quadlet_file_name` and `service_unit_name_from_quadlet` of src/quadlet.cpp.
pub mod Accepted
pub mod Unit
use pod_installer.Base.{
  ℕ, ◌-◌, Bool, not, ◌||◌, List, ◌++◌, Bytes, text, equal, length, take, is_empty, starts_with,
  ends_with, all, ltb,
}
use pod_installer.Error.{Checked, Result, ok, err, fail, invalid_argument, reject_if, ◌>>=◌, ◌>>◌}
use pod_installer.Quadlet.Strings.{contains_control_or_slash, safe_unit_file_char}

unfoldable pub is_hidden_or_option : Bytes → Bool
is_hidden_or_option file_name =
    equal file_name (text ".")
    || equal file_name (text "..")
    || starts_with file_name (text ".")
    || starts_with file_name (text "-")

unfoldable pub validate_quadlet_file_name : Bytes → Checked
validate_quadlet_file_name file_name = do
  reject_if (is_empty file_name || ltb 255 (length file_name)) invalid_argument
      (text "Quadlet file name must be 1 to 255 bytes")
  reject_if (is_hidden_or_option file_name) invalid_argument
      (text "Quadlet file name must not be hidden, relative, or option-like")
  reject_if (contains_control_or_slash file_name) invalid_argument
      (text "Quadlet file name must not contain slashes or control characters")
  reject_if (not (all safe_unit_file_char file_name)) invalid_argument
      (text "Quadlet file name contains unsupported characters")
  reject_if (not (ends_with file_name (text ".container"))) invalid_argument
      (text "MVP deployment bundles require a .container Quadlet file")

unfoldable pub service_unit_name_from_quadlet : Bytes → Result Bytes
service_unit_name_from_quadlet file_name = do
  validate_quadlet_file_name file_name
  ok (take (length file_name - length (text ".container")) file_name ++ text ".service")
