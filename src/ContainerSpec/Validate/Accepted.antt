-- ===== src/ContainerSpec/Validate/Accepted.antt =====
-- Which specifications `validate_container_spec` accepts.
use pod_installer.Base.{
  ℕ, zero, suc, ◌≤◌, true, false, not, ◌||◌, [], ◌∷◌, Option, none, some, String, ◌≡◌, ◌≢◌, ◌↔◌,
  refl, arith, Bytes, length, is_empty, all, All, any_not_iff, all_iff, is_empty_not_iff, is_alnum,
  is_digit, is_control, ◌==◌,
}
use pod_installer.Base.Int.{ℤ, pos, negsuc}
use pod_installer.Base.Maps.{Map}
use pod_installer.Error.{ok, reject_if_iff, ↔-trans, >>-iff}
use pod_installer.ContainerSpec.{CpuLimits, MemoryLimits, PidsLimits, ResourceLimits, ContainerSpec}
use pod_installer.ContainerSpec.Validate.{
  has_control, valid_name_rest, valid_container_name, valid_key, valid_cpuset, require_positive,
  check_map_keys, check_cpuset, check_cpu, check_memory, check_pids, check_limits,
  validate_container_spec,
}

-- "[A-Za-z0-9][A-Za-z0-9_.-]{0,127}"
pub record IsContainerName (name : Bytes) : Type 0 where
  pub first : ℕ
  pub rest : Bytes
  pub splits : name ≡ first ∷ rest
  pub alnum : is_alnum first ≡ true
  pub others : all valid_name_rest rest ≡ true
  pub short : length rest ≤ 127

abbrev pub IsKey : Bytes → Type 0
IsKey key = (key ≢ []) × All (λ c. is_control c ≡ false) key

-- a limit that is given is at least 1
abbrev pub IsPositive : Option ℤ → Type 0
IsPositive none = Unit
IsPositive (some value) = (n : ℕ) × (value ≡ pos (suc n))

abbrev pub IsCpuset : Option Bytes → Type 0
IsCpuset none = Unit
IsCpuset (some cpus) = (cpus ≢ []) × All (λ c. (is_digit c || c == b',' || c == b'-') ≡ true) cpus

abbrev pub IsCpu : Option CpuLimits → Type 0
IsCpu none = Unit
IsCpu (some cpu) =
    IsPositive cpu.period × (IsPositive cpu.quota × (IsPositive cpu.shares × IsCpuset cpu.cpus))

abbrev pub IsMemory : Option MemoryLimits → Type 0
IsMemory none = Unit
IsMemory (some memory) = IsPositive memory.limit × IsPositive memory.swap

abbrev pub IsPids : Option PidsLimits → Type 0
IsPids none = Unit
IsPids (some pids) = IsPositive pids.limit

abbrev pub IsLimits : Option ResourceLimits → Type 0
IsLimits none = Unit
IsLimits (some limits) = IsCpu limits.cpu × (IsMemory limits.memory × IsPids limits.pids)

pub record IsValid (spec : ContainerSpec) : Type 0 where
  pub name : IsContainerName spec.name
  pub image : IsKey spec.image
  pub env : All (λ field. IsKey field.0) spec.env
  pub labels : All (λ field. IsKey field.0) spec.labels
  pub limits : IsLimits spec.resource_limits

IsKey-iff : (key : Bytes) → ((is_empty key || has_control key) ≡ false) ↔ IsKey key
unfolding has_control
IsKey-iff key =
    let (forth, back) = any_not_iff is_control key in
    let (ne, ne') = is_empty_not_iff key in
    ((λ h. (ne (ground arith), forth (ground arith))), (λ (n, cs). ground (arith, ne' n, back cs)))

valid_key-IsKey : (key : Bytes) → (not (valid_key key) ≡ false) ↔ IsKey key
valid_key-IsKey key =
    ↔-trans {Q = (is_empty key || has_control key) ≡ false}
      (unfold valid_key in ((λ h. ground arith), (λ h. ground arith))) (IsKey-iff key)

check_map_keys-IsKey :
    (message : String) (fields : Map Bytes)
    → (check_map_keys message fields ≡ ok tt) ↔ All (λ field. IsKey field.0) fields
unfolding check_map_keys
check_map_keys-IsKey message [] = ((λ _. tt), (λ _. refl))
check_map_keys-IsKey message ((key, value) ∷ fields) =
    >>-iff _ _ (↔-trans (reject_if_iff _ _ _) (valid_key-IsKey key))
      (check_map_keys-IsKey message fields)

IsContainerName-accepted :
    (c : ℕ) (rest : Bytes) (d : ℕ) (more : Bytes)
    → c ∷ rest ≡ d ∷ more
    → is_alnum d ≡ true
    → all valid_name_rest more ≡ true
    → length more ≤ 127
    → not (valid_container_name (c ∷ rest)) ≡ false
unfolding valid_container_name
IsContainerName-accepted c rest d more e a o l =
    let e1 : c ≡ d = cc in
    let e2 : rest ≡ more = cc in
    let a' : is_alnum c ≡ true = cc in
    let o' : all valid_name_rest rest ≡ true = cc in
    let l' : length rest ≤ 127 = rw e2 l in ground arith

valid_container_name-IsContainerName :
    (name : Bytes) → (not (valid_container_name name) ≡ false) ↔ IsContainerName name
unfolding valid_container_name
valid_container_name-IsContainerName [] = ((λ h. cc), (λ n. cc (n.splits)))
valid_container_name-IsContainerName (c ∷ rest) = (
  (λ h. record {
    first = c;
    rest = rest;
    splits = refl;
    alnum = ground arith;
    others = ground arith;
    short = ground arith;
  }),
  (λ n. IsContainerName-accepted c rest n.first n.rest n.splits n.alnum n.others n.short),
)

require_positive-IsPositive :
    (value : Option ℤ) (field : String) → (require_positive value field ≡ ok tt) ↔ IsPositive value
unfolding require_positive
require_positive-IsPositive none field = ((λ _. tt), (λ _. refl))
require_positive-IsPositive (some (pos zero)) field = ((λ h. cc), (λ (n, e). cc))
require_positive-IsPositive (some (pos (suc n))) field = ((λ _. (n, refl)), (λ _. refl))
require_positive-IsPositive (some (negsuc n)) field = ((λ h. cc), (λ (m, e). cc))

check_cpuset-IsCpuset : (cpus : Option Bytes) → (check_cpuset cpus ≡ ok tt) ↔ IsCpuset cpus
unfolding check_cpuset valid_cpuset
check_cpuset-IsCpuset none = ((λ _. tt), (λ _. refl))
check_cpuset-IsCpuset (some cpus) =
    let (forth, back) = all_iff (λ c. is_digit c || c == b',' || c == b'-') cpus in
    let (ne, ne') = is_empty_not_iff cpus in
    ((λ h. (ne (ground arith), forth (ground arith))), (λ (n, cs). ground (arith, ne' n, back cs)))

check_cpu-IsCpu : (cpu : Option CpuLimits) → (check_cpu cpu ≡ ok tt) ↔ IsCpu cpu
unfolding check_cpu
check_cpu-IsCpu none = ((λ _. tt), (λ _. refl))
check_cpu-IsCpu (some cpu) = >>-iff _ _ (require_positive-IsPositive cpu.period _) (
    >>-iff _ _ (require_positive-IsPositive cpu.quota _)
      (>>-iff _ _ (require_positive-IsPositive cpu.shares _) (check_cpuset-IsCpuset cpu.cpus)))

check_memory-IsMemory :
    (memory : Option MemoryLimits) → (check_memory memory ≡ ok tt) ↔ IsMemory memory
unfolding check_memory
check_memory-IsMemory none = ((λ _. tt), (λ _. refl))
check_memory-IsMemory (some memory) =
    >>-iff _ _ (require_positive-IsPositive memory.limit _)
      (require_positive-IsPositive memory.swap _)

check_pids-IsPids : (pids : Option PidsLimits) → (check_pids pids ≡ ok tt) ↔ IsPids pids
unfolding check_pids
check_pids-IsPids none = ((λ _. tt), (λ _. refl))
check_pids-IsPids (some pids) = require_positive-IsPositive pids.limit _

check_limits-IsLimits :
    (limits : Option ResourceLimits) → (check_limits limits ≡ ok tt) ↔ IsLimits limits
unfolding check_limits
check_limits-IsLimits none = ((λ _. tt), (λ _. refl))
check_limits-IsLimits (some limits) =
    >>-iff _ _ (check_cpu-IsCpu limits.cpu)
      (>>-iff _ _ (check_memory-IsMemory limits.memory) (check_pids-IsPids limits.pids))

-- A specification is accepted exactly when its name matches the stated pattern, its image and
-- all keys of its environment and labels are non-empty and free of control characters, every
-- limit that is given is at least 1, and a CPU set is non-empty and consists of digits, commas
-- and dashes.
pub validate_container_spec-IsValid :
    (spec : ContainerSpec) → (validate_container_spec spec ≡ ok tt) ↔ IsValid spec
unfolding validate_container_spec
validate_container_spec-IsValid spec =
    let chain =
      >>-iff _ _ (↔-trans (reject_if_iff _ _ _) (valid_container_name-IsContainerName spec.name)) (
        >>-iff _ _ (↔-trans (reject_if_iff _ _ _) (IsKey-iff spec.image)) (
          >>-iff _ _ (check_map_keys-IsKey _ spec.env) (
            >>-iff _ _ (check_map_keys-IsKey _ spec.labels)
              (check_limits-IsLimits spec.resource_limits)))) in
    (
      (λ h.
          let t = chain.0 h in
          record {
            name = t.0;
            image = t.1.0;
            env = t.1.1.0;
            labels = t.1.1.1.0;
            limits = t.1.1.1.1;
          }),
      (λ v. chain.1 (v.name, (v.image, (v.env, (v.labels, v.limits))))),
    )
