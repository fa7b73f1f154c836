-- ===== src/Quadlet/PodmanArgs.antt =====
-- `split_podman_args` and `denied_podman_arg` of src/quadlet.cpp.
pub mod Split
pub mod Denied
use pod_installer.Base.{
  ℕ, suc, ◌+◌, Bool, true, false, not, ◌&&◌, ◌||◌, List, [], ◌∷◌, ◌++◌, Option, none, some, Bytes,
  text, equal, length, drop, is_empty, is_space, ◌==◌, if◌then◌else◌,
}
use pod_installer.Quadlet.Strings.{lower_ascii, starts_with_option_assignment}
use pod_installer.Quadlet.QuadletPolicy.{QuadletPolicy}

-- the variables of `split_podman_args`
pub record Splitter : Type 0 where
  pub tokens : List Bytes
  pub current : Bytes
  pub in_single : Bool
  pub in_double : Bool
  pub escaped : Bool

abbrev pub push_byte : Splitter → ℕ → Splitter
push_byte s c = record s { current = s.current ++ c ∷ [] }

-- `if (!current.empty()) { tokens.push_back(std::move(current)); current.clear(); }`
abbrev pub flush : Splitter → Splitter
flush s =
    if is_empty s.current then s else record s { tokens = s.tokens ++ s.current ∷ []; current = [] }

-- the body of the loop
unfoldable pub split_step : Splitter → ℕ → Splitter
unfolding is_space
split_step s c =
    if s.escaped
    then record (push_byte s c) { escaped = false }
    else if c == b'\\' && not s.in_single
    then record s { escaped = true }
    else if c == b'\'' && not s.in_double
    then record s { in_single = not s.in_single }
    else if c == b'"' && not s.in_single
    then record s { in_double = not s.in_double }
    else if is_space c && not s.in_single && not s.in_double
    then flush s
    else push_byte s c

pub split_loop : Splitter → Bytes → Splitter
split_loop s [] = s
split_loop s (c ∷ value) = split_loop (split_step s c) value

abbrev pub empty_splitter : Splitter
empty_splitter = record {
  tokens = [];
  current = [];
  in_single = false;
  in_double = false;
  escaped = false;
}

-- `if (escaped) current.push_back('\\');`
abbrev pub keep_backslash : Bool → Splitter → Splitter
keep_backslash true s = push_byte s b'\\'
keep_backslash false s = s

-- what stands behind the loop
abbrev pub split_finish : Splitter → List Bytes
split_finish s = (flush (keep_backslash s.escaped s)).tokens

unfoldable pub split_podman_args : Bytes → List Bytes
unfolding split_loop split_step
split_podman_args value = split_finish (split_loop empty_splitter value)

-- `option_value`
unfoldable pub option_value : Bytes → Bytes → Bytes
option_value token option =
    if starts_with_option_assignment token option then drop (suc (length option)) token else []

-- `token_has_value`
unfoldable pub token_has_value : Bytes → Bytes → Bytes → Bytes → Bool
unfolding option_value
token_has_value token next option denied_value =
    let assigned = lower_ascii (option_value token option) in
    if not (is_empty assigned)
    then equal assigned (lower_ascii denied_value)
    else equal (lower_ascii token) (lower_ascii option)
      && equal (lower_ascii next) (lower_ascii denied_value)

-- `lower_ascii(part) == option || starts_with_option_assignment(lower_ascii(part), option)`
abbrev pub is_option : Bytes → Bytes → Bool
is_option part option =
    equal (lower_ascii part) option || starts_with_option_assignment (lower_ascii part) option

-- the tests that the loop of `denied_podman_arg` makes of a part
unfoldable pub denied_part : QuadletPolicy → Bytes → Bytes → Bool
denied_part policy part next =
    not policy.allow_privileged && is_option part (text "--privileged")
    || not policy.allow_host_network
      && (token_has_value part next (text "--network") (text "host")
          || token_has_value part next (text "--net") (text "host"))
    || not policy.allow_host_pid && token_has_value part next (text "--pid") (text "host")
    || not policy.allow_host_ipc && token_has_value part next (text "--ipc") (text "host")
    || not policy.allow_host_userns && token_has_value part next (text "--userns") (text "host")
    || not policy.allow_devices && is_option part (text "--device")
    || not policy.allow_root_mount
      && (is_option part (text "--volume")
          || is_option part (text "-v")
          || is_option part (text "--mount"))

-- `parts[i + 1]`, or nothing behind the last part
abbrev pub next_of : List Bytes → Bytes
next_of [] = []
next_of (next ∷ rest) = next

pub denied_parts : QuadletPolicy → List Bytes → Bool
denied_parts policy [] = false
denied_parts policy (part ∷ rest) =
    let later = denied_parts policy rest in
    if is_empty part then later else if denied_part policy part (next_of rest) then true else later

unfoldable pub denied_podman_arg : Bytes → QuadletPolicy → Bool
unfolding denied_parts denied_part
denied_podman_arg value policy = denied_parts policy (split_podman_args value)
