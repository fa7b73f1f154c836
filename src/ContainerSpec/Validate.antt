-- ===== src/ContainerSpec/Validate.antt =====
-- The validation of src/container_spec.cpp.
pub mod Accepted
use pod_installer.Base.{
  ℕ, Bool, true, false, not, ◌&&◌, ◌||◌, List, [], ◌∷◌, ◌++◌, Option, none, some, String, Bytes,
  text, length, is_empty, all, any, ltb, is_alnum, is_digit, is_control, ◌==◌,
}
use pod_installer.Base.Int.{ℤ, is_nonpositive}
use pod_installer.Base.Maps.{Map}
use pod_installer.Error.{Checked, ok, invalid_argument, policy, reject_if, ◌>>=◌, ◌>>◌}
use pod_installer.ContainerSpec.{CpuLimits, MemoryLimits, PidsLimits, ResourceLimits, ContainerSpec}

unfoldable pub has_control : Bytes → Bool
has_control = any is_control

-- `valid_rest`
unfoldable pub valid_name_rest : ℕ → Bool
unfolding is_alnum
valid_name_rest c = is_alnum c || c == b'_' || c == b'.' || c == b'-'

abbrev pub valid_name_parts : Bytes → Bool
valid_name_parts [] = false
valid_name_parts (first ∷ rest) = is_alnum first && all valid_name_rest rest

unfoldable pub valid_container_name : Bytes → Bool
valid_container_name value =
    not (is_empty value || ltb 128 (length value)) && valid_name_parts value

unfoldable pub valid_key : Bytes → Bool
valid_key value = not (is_empty value) && not (has_control value)

unfoldable pub valid_cpuset : Bytes → Bool
valid_cpuset value = not (is_empty value) && all (λ c. is_digit c || c == b',' || c == b'-') value

unfoldable pub require_positive : Option ℤ → String → Checked
require_positive none field = ok tt
require_positive (some value) field =
    reject_if (is_nonpositive value) policy (text field ++ text " must be positive")

-- the loops over `spec.env` and `spec.labels`
unfoldable pub check_map_keys : String → Map Bytes → Checked
check_map_keys message [] = ok tt
check_map_keys message ((key, value) ∷ rest) = do
  reject_if (not (valid_key key)) invalid_argument (text message)
  check_map_keys message rest

unfoldable pub check_cpuset : Option Bytes → Checked
check_cpuset none = ok tt
check_cpuset (some cpus) =
    reject_if (not (valid_cpuset cpus)) policy
      (text "cpu.cpus must contain only digits, commas, and dashes")

unfoldable pub check_cpu : Option CpuLimits → Checked
check_cpu none = ok tt
check_cpu (some cpu) = do
  require_positive cpu.period "cpu.period"
  require_positive cpu.quota "cpu.quota"
  require_positive cpu.shares "cpu.shares"
  check_cpuset cpu.cpus

unfoldable pub check_memory : Option MemoryLimits → Checked
check_memory none = ok tt
check_memory (some memory) = do
  require_positive memory.limit "memory.limit"
  require_positive memory.swap "memory.swap"

unfoldable pub check_pids : Option PidsLimits → Checked
check_pids none = ok tt
check_pids (some pids) = require_positive pids.limit "pids.limit"

unfoldable pub check_limits : Option ResourceLimits → Checked
check_limits none = ok tt
check_limits (some limits) = do
  check_cpu limits.cpu
  check_memory limits.memory
  check_pids limits.pids

unfoldable pub validate_container_spec : ContainerSpec → Checked
validate_container_spec spec = do
  reject_if (not (valid_container_name spec.name)) invalid_argument
      (text "container name must match [A-Za-z0-9][A-Za-z0-9_.-]{0,127}")
  reject_if (is_empty spec.image || has_control spec.image) invalid_argument
      (text "container image must be non-empty and contain no control characters")
  check_map_keys "environment keys must be non-empty and contain no control characters" spec.env
  check_map_keys "label keys must be non-empty and contain no control characters" spec.labels
  check_limits spec.resource_limits
