-- ===== src/Quadlet/Strings.antt =====
-- The text helpers of src/quadlet.cpp.
use pod_installer.Base.{
  ℕ, Bool, ◌&&◌, ◌||◌, map, reverse, Bytes, text, equal, ◌==◌, length, drop, drop_while, is_space,
  is_alnum, is_control, to_lower, any, starts_with, ltb,
}

-- `trim`: the two loops remove blanks in front and then blanks at the back
unfoldable pub trim : Bytes → Bytes
trim value = reverse (drop_while is_space (reverse (drop_while is_space value)))

-- `lower_ascii`
abbrev pub lower_ascii : Bytes → Bytes
lower_ascii = map to_lower

-- `truthy`
unfoldable pub truthy : Bytes → Bool
truthy value =
    let normalized = lower_ascii (trim value) in
    equal normalized (text "1")
    || equal normalized (text "yes")
    || equal normalized (text "true")
    || equal normalized (text "on")

-- `contains_control_or_slash`
unfoldable pub contains_control_or_slash : Bytes → Bool
contains_control_or_slash = any (λ c. is_control c || c == 0x7f || c == b'/')

-- `safe_unit_file_char`
unfoldable pub safe_unit_file_char : ℕ → Bool
unfolding is_alnum
safe_unit_file_char c = is_alnum c || c == b'_' || c == b'-' || c == b'.' || c == b'@'

-- `starts_with_option_assignment`
unfoldable pub starts_with_option_assignment : Bytes → Bytes → Bool
starts_with_option_assignment value option =
    ltb (length option) (length value)
    && starts_with value option
    && starts_with (drop (length option) value) (text "=")

-- `equals_key`
unfoldable pub equals_key : Bytes → Bytes → Bool
equals_key value expected = equal (lower_ascii (trim value)) (lower_ascii expected)
