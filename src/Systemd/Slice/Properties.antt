-- ===== src/Systemd/Slice/Properties.antt =====
-- The argument vector for a slice, read back.
use mathlib.Core.Option
use pod_installer.Base.{
  ℕ, false, List, [], ◌∷◌, ◌++◌, Option, none, some, String, ◌≡◌, refl, sym, ap, ◌∙◌, Bytes, text,
  starts_with, starts_with-append, drop, drop-append_length, length, if◌then◌else◌, append-nil,
  append_assoc,
}
use pod_installer.Base.Decimal.{to_string}
use pod_installer.Error.{ok, >>-eq-ok}
use pod_installer.Systemd.Slice.{
  UserSlicePolicy, validate_user_slice_policy, push_if_some, build_systemctl_set_property_args,
}

-- what stands behind `name` in the first argument that begins with it
pub property : Bytes → List Bytes → Option Bytes
property name [] = none
property name (arg ∷ args) =
    if starts_with arg name then some (drop (length name) arg) else property name args

-- the arguments of one property
abbrev assigned {ℓ} : {A : Type ℓ} → Option A → String → (A → Bytes) → List Bytes
assigned none name write = []
assigned (some a) name write = (text name ++ write a) ∷ []

push_if_some-assigned {ℓ} :
    {A : Type ℓ} (o : Option A) (name : String) (write : A → Bytes) (args : List Bytes)
    → push_if_some o name write args ≡ args ++ assigned o name write
push_if_some-assigned none name write args = sym (append-nil args)
push_if_some-assigned (some a) name write args = refl

-- no text behind `other` makes it begin with `name`
abbrev Differs : String → String → Type 0
Differs other name = (v : Bytes) → starts_with (text other ++ v) (text name) ≡ false

property-other {ℓ} :
    {A : Type ℓ} (name other : String) (o : Option A) (write : A → Bytes) (rest : List Bytes)
    → Differs other name
    → property (text name) (assigned o other write ++ rest) ≡ property (text name) rest
unfolding property
property-other name other none write rest d = refl
property-other name other (some a) write rest d = rw (d (write a)) refl

property-own {ℓ} :
    {A : Type ℓ} (name : String) (o : Option A) (write : A → Bytes) (rest : List Bytes)
    → property (text name) rest ≡ none
    → property (text name) (assigned o name write ++ rest) ≡ Option.map write o
unfolding property
property-own name none write rest h = h
property-own name (some a) write rest h =
    rw (starts_with-append (text name) (write a), drop-append_length (text name) (write a)) refl

map_same : (o : Option Bytes) → Option.map (λ (value : Bytes). value) o ≡ o
map_same none = refl
map_same (some value) = refl

-- the arguments in front of the properties
abbrev command_args : ℕ → List Bytes
command_args uid =
    text "systemctl"
    ∷ text "set-property"
    ∷ text "--runtime"
    ∷ (text "user-" ++ to_string uid ++ text ".slice")
    ∷ []

abbrev same_text : Bytes → Bytes
same_text value = value

module _ (slice : UserSlicePolicy) where
  -- the arguments from each property on
  abbrev from_cpus : List Bytes
  from_cpus = assigned slice.allowed_cpus "AllowedCPUs=" same_text ++ []

  abbrev from_tasks : List Bytes
  from_tasks = assigned slice.tasks_max "TasksMax=" to_string ++ from_cpus

  abbrev from_memory : List Bytes
  from_memory = assigned slice.memory_max "MemoryMax=" same_text ++ from_tasks

  abbrev from_weight : List Bytes
  from_weight = assigned slice.cpu_weight "CPUWeight=" to_string ++ from_memory

  abbrev from_quota : List Bytes
  from_quota = assigned slice.cpu_quota "CPUQuota=" same_text ++ from_weight

  property-from_cpus :
      (name : String) → Differs "AllowedCPUs=" name → property (text name) from_cpus ≡ none
  unfolding property
  property-from_cpus name a = property-other name "AllowedCPUs=" slice.allowed_cpus same_text [] a

  property-from_tasks :
      (name : String)
      → Differs "TasksMax=" name
      → Differs "AllowedCPUs=" name
      → property (text name) from_tasks ≡ none
  property-from_tasks name t a =
      property-other name "TasksMax=" slice.tasks_max to_string from_cpus t
      ∙ property-from_cpus name a

  property-from_memory :
      (name : String)
      → Differs "MemoryMax=" name
      → Differs "TasksMax=" name
      → Differs "AllowedCPUs=" name
      → property (text name) from_memory ≡ none
  property-from_memory name m t a =
      property-other name "MemoryMax=" slice.memory_max same_text from_tasks m
      ∙ property-from_tasks name t a

  property-from_weight :
      (name : String)
      → Differs "CPUWeight=" name
      → Differs "MemoryMax=" name
      → Differs "TasksMax=" name
      → Differs "AllowedCPUs=" name
      → property (text name) from_weight ≡ none
  property-from_weight name w m t a =
      property-other name "CPUWeight=" slice.cpu_weight to_string from_memory w
      ∙ property-from_memory name m t a

  skip_quota :
      (name : String)
      → Differs "CPUQuota=" name
      → property (text name) from_quota ≡ property (text name) from_weight
  skip_quota name q = property-other name "CPUQuota=" slice.cpu_quota same_text from_weight q

  skip_weight :
      (name : String)
      → Differs "CPUQuota=" name
      → Differs "CPUWeight=" name
      → property (text name) from_quota ≡ property (text name) from_memory
  skip_weight name q w =
      skip_quota name q ∙ property-other name "CPUWeight=" slice.cpu_weight to_string from_memory w

  skip_memory :
      (name : String)
      → Differs "CPUQuota=" name
      → Differs "CPUWeight=" name
      → Differs "MemoryMax=" name
      → property (text name) from_quota ≡ property (text name) from_tasks
  skip_memory name q w m =
      skip_weight name q w
      ∙ property-other name "MemoryMax=" slice.memory_max same_text from_tasks m

  skip_tasks :
      (name : String)
      → Differs "CPUQuota=" name
      → Differs "CPUWeight=" name
      → Differs "MemoryMax=" name
      → Differs "TasksMax=" name
      → property (text name) from_quota ≡ property (text name) from_cpus
  skip_tasks name q w m t =
      skip_memory name q w m ∙ property-other name "TasksMax=" slice.tasks_max to_string from_cpus t

  -- the arguments pushed one property after another, with `args` in front
  pushed :
      (args : List Bytes)
      → push_if_some slice.allowed_cpus "AllowedCPUs=" same_text (
          push_if_some slice.tasks_max "TasksMax=" to_string (
            push_if_some slice.memory_max "MemoryMax=" same_text (
              push_if_some slice.cpu_weight "CPUWeight=" to_string
                (push_if_some slice.cpu_quota "CPUQuota=" same_text args))))
        ≡ args ++ from_quota
  pushed args = simp (push_if_some-assigned, append_assoc, append-nil)

  set_property_args-eq :
      (args : List Bytes)
      → build_systemctl_set_property_args slice ≡ ok args
      → args ≡ command_args slice.uid ++ from_quota
  unfolding build_systemctl_set_property_args
  set_property_args-eq args h =
      let (_, e) = >>-eq-ok (validate_user_slice_policy slice) _ h in
      cc (pushed (command_args slice.uid))

-- a name that begins no argument in front of the properties
abbrev IsPropertyName : String → Type 0
IsPropertyName name =
    (starts_with (text "systemctl") (text name) ≡ false)
    × (starts_with (text "set-property") (text name) ≡ false)
    × (starts_with (text "--runtime") (text name) ≡ false)
    × Differs "user-" name

property-command_args :
    (name : String) (uid : ℕ) (rest : List Bytes)
    → IsPropertyName name
    → property (text name) (command_args uid ++ rest) ≡ property (text name) rest
unfolding property starts_with text
property-command_args name uid rest (a, b, c, d) =
    rw (a, b, c, d (to_string uid ++ text ".slice")) refl

-- Each property of an argument vector that is built can be read back from it: behind the first
-- argument with its name stands what the policy says, and there is none where it says nothing.
pub property-build_systemctl_set_property_args :
    (slice : UserSlicePolicy) (args : List Bytes)
    → build_systemctl_set_property_args slice ≡ ok args
    → (property (text "CPUQuota=") args ≡ slice.cpu_quota)
      × (property (text "CPUWeight=") args ≡ Option.map to_string slice.cpu_weight)
      × (property (text "MemoryMax=") args ≡ slice.memory_max)
      × (property (text "TasksMax=") args ≡ Option.map to_string slice.tasks_max)
      × (property (text "AllowedCPUs=") args ≡ slice.allowed_cpus)
unfolding text starts_with
property-build_systemctl_set_property_args slice args h =
    let e = set_property_args-eq slice args h in
    let r : (v : Bytes) → false ≡ false = λ v. refl in
    let front = λ (name : String) (p : IsPropertyName name).
      ap (property (text name)) e ∙ property-command_args name slice.uid (from_quota slice) p in
    (
      front "CPUQuota=" (refl, refl, refl, r)
          ∙ property-own "CPUQuota=" slice.cpu_quota same_text (from_weight slice)
              (property-from_weight slice "CPUQuota=" r r r r)
          ∙ map_same slice.cpu_quota,
      front "CPUWeight=" (refl, refl, refl, r)
          ∙ skip_quota slice "CPUWeight=" r
          ∙ property-own "CPUWeight=" slice.cpu_weight to_string (from_memory slice)
              (property-from_memory slice "CPUWeight=" r r r),
      front "MemoryMax=" (refl, refl, refl, r)
          ∙ skip_weight slice "MemoryMax=" r r
          ∙ property-own "MemoryMax=" slice.memory_max same_text (from_tasks slice)
              (property-from_tasks slice "MemoryMax=" r r)
          ∙ map_same slice.memory_max,
      front "TasksMax=" (refl, refl, refl, r)
          ∙ skip_memory slice "TasksMax=" r r r
          ∙ property-own "TasksMax=" slice.tasks_max to_string (from_cpus slice)
              (property-from_cpus slice "TasksMax=" r),
      front "AllowedCPUs=" (refl, refl, refl, r)
          ∙ skip_tasks slice "AllowedCPUs=" r r r r
          ∙ property-own "AllowedCPUs=" slice.allowed_cpus same_text [] (unfold property in refl)
          ∙ map_same slice.allowed_cpus,
    )
