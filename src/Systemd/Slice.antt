-- ===== src/Systemd/Slice.antt =====
-- `UserSlicePolicy`, its check and its argument vector, of src/systemd.cpp.
pub mod Accepted
pub mod Properties
use pod_installer.Base.{
  ℕ, Bool, true, false, not, ◌&&◌, ◌||◌, List, [], ◌∷◌, ◌++◌, Option, none, some, Bytes, text, ltb,
  ◌==◌, String,
}
use pod_installer.Base.Decimal.{to_string}
use pod_installer.Error.{Checked, Result, ok, policy, reject_if, ◌>>=◌, ◌>>◌}
use pod_installer.Systemd.Unit.{safe_systemd_value}

pub record UserSlicePolicy : Type 0 where
  pub uid : ℕ
  pub cpu_quota : Option Bytes
  pub cpu_weight : Option ℕ
  pub memory_max : Option Bytes
  pub tasks_max : Option ℕ
  pub allowed_cpus : Option Bytes

-- `o.has_value()`, and `o && test(*o)`
abbrev pub has_value {ℓ} : {A : Type ℓ} → Option A → Bool
has_value none = false
has_value (some a) = true

abbrev pub has_and {ℓ} : {A : Type ℓ} → Option A → (A → Bool) → Bool
has_and none test = false
has_and (some a) test = test a

abbrev pub has_property : UserSlicePolicy → Bool
has_property slice =
    has_value slice.cpu_quota
    || has_value slice.cpu_weight
    || has_value slice.memory_max
    || has_value slice.tasks_max
    || has_value slice.allowed_cpus

unfoldable pub validate_user_slice_policy : UserSlicePolicy → Checked
validate_user_slice_policy slice = do
  reject_if (not (has_property slice)) policy (text "user slice policy contains no properties")
  reject_if (has_and slice.cpu_quota (λ value. not (safe_systemd_value value))) policy
      (text "CPUQuota value is empty or contains control chars")
  reject_if (has_and slice.cpu_weight (λ weight. ltb weight 1 || ltb 10000 weight)) policy
      (text "CPUWeight must be between 1 and 10000")
  reject_if (has_and slice.memory_max (λ value. not (safe_systemd_value value))) policy
      (text "MemoryMax value is empty or contains control chars")
  reject_if (has_and slice.tasks_max (λ tasks. tasks == 0)) policy
      (text "TasksMax must be positive")
  reject_if (has_and slice.allowed_cpus (λ value. not (safe_systemd_value value))) policy
      (text "AllowedCPUs value is empty or contains control chars")

-- `if (value) args.push_back(name + write(*value));`
abbrev pub push_if_some {ℓ} :
    {A : Type ℓ} → Option A → String → (A → Bytes) → List Bytes → List Bytes
push_if_some none name write args = args
push_if_some (some value) name write args = args ++ (text name ++ write value) ∷ []

unfoldable pub build_systemctl_set_property_args : UserSlicePolicy → Result (List Bytes)
build_systemctl_set_property_args slice = do
  validate_user_slice_policy slice
  let args0 =
      text "systemctl"
      ∷ text "set-property"
      ∷ text "--runtime"
      ∷ (text "user-" ++ to_string slice.uid ++ text ".slice")
      ∷ []
  let args1 = push_if_some slice.cpu_quota "CPUQuota=" (λ value. value) args0
  let args2 = push_if_some slice.cpu_weight "CPUWeight=" to_string args1
  let args3 = push_if_some slice.memory_max "MemoryMax=" (λ value. value) args2
  let args4 = push_if_some slice.tasks_max "TasksMax=" to_string args3
  ok (push_if_some slice.allowed_cpus "AllowedCPUs=" (λ value. value) args4)
