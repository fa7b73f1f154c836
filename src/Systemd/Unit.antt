-- ===== src/Systemd/Unit.antt =====
-- `safe_systemd_value`, `safe_systemd_unit` and `build_systemctl_user_args` of src/systemd.cpp.
pub mod Accepted
use pod_installer.Base.{
  ℕ, Bool, true, false, not, ◌&&◌, ◌||◌, List, [], ◌∷◌, ◌++◌, Option, none, some, Bytes, text,
  length, is_empty, all, ltb, is_alnum, is_control, ◌==◌, starts_with, ends_with, if◌then◌else◌,
}
use pod_installer.Error.{Checked, Result, ok, invalid_argument, reject_if, ◌>>=◌, ◌>>◌}
use pod_installer.Target.{PodmanTarget}

-- the loop returns false at a control character
unfoldable pub safe_systemd_value : Bytes → Bool
safe_systemd_value value =
    if is_empty value then false else all (λ c. not (is_control c || c == 0x7f)) value

unfoldable pub safe_unit_byte : ℕ → Bool
unfolding is_alnum
safe_unit_byte c = is_alnum c || c == b'_' || c == b'-' || c == b'.' || c == b'@' || c == b'\\'

unfoldable pub has_unit_suffix : Bytes → Bool
has_unit_suffix unit =
    ends_with unit (text ".service")
    || ends_with unit (text ".socket")
    || ends_with unit (text ".timer")
    || ends_with unit (text ".target")

unfoldable pub safe_systemd_unit : Bytes → Bool
unfolding safe_unit_byte has_unit_suffix
safe_systemd_unit unit =
    if is_empty unit || ltb 255 (length unit) || starts_with unit (text "-")
    then false
    else all safe_unit_byte unit && has_unit_suffix unit

unfoldable pub validate_systemd_unit_name : Bytes → Checked
validate_systemd_unit_name unit =
    reject_if (not (safe_systemd_unit unit)) invalid_argument
      (text "unsupported systemd unit name: " ++ unit)

-- `if (unit)` around the check, and around the last argument
abbrev pub check_unit : Option Bytes → Checked
check_unit none = ok tt
check_unit (some unit) = validate_systemd_unit_name unit

abbrev pub unit_args : Option Bytes → List Bytes
unit_args none = []
unit_args (some unit) = unit ∷ []

unfoldable pub build_systemctl_user_args : PodmanTarget → Bytes → Option Bytes → Result (List Bytes)
build_systemctl_user_args target command unit = do
  reject_if (is_empty target.user_name) invalid_argument
      (text "systemctl user commands require target user_name")
  reject_if (not (safe_systemd_value command)) invalid_argument (text "invalid systemctl command")
  check_unit unit
  ok (
      text "systemctl"
      ∷ text "--user"
      ∷ (text "--machine=" ++ target.user_name ++ text "@.host")
      ∷ command
      ∷ unit_args unit)
