-- ===== src/Quadlet/HostPath.antt =====
-- `host_path_volume` and `host_path_mount` of src/quadlet.cpp.
pub mod Named
use pod_installer.Base.{
  ℕ, suc, Bool, true, false, not, ◌&&◌, ◌||◌, List, [], ◌∷◌, Option, none, some, Bytes, text, equal,
  find, take, drop, starts_with, contains_text, is_empty, pieces, any, if◌then◌else◌,
}
use pod_installer.Quadlet.Strings.{trim, lower_ascii}

-- the tests that both functions make of a source, in their order
unfoldable pub names_host_path : Bytes → Bool
names_host_path source =
    starts_with source (text "/")
    || starts_with source (text ".")
    || starts_with source (text "~")
    || starts_with source (text "$")
    || contains_text source (text "/")
    || contains_text source (text "\\")
    || contains_text source (text "..")
    || contains_text source (text "%")

abbrev pub before_mark : Bytes → Option ℕ → Bytes
before_mark s none = s
before_mark s (some n) = take n s

abbrev pub behind_mark : Bytes → Option ℕ → Bytes
behind_mark s none = []
behind_mark s (some n) = drop (suc n) s

unfoldable pub host_path_volume : Bytes → Bool
host_path_volume value =
    let trimmed = trim value in
    let source = trim (before_mark trimmed (find b':' trimmed)) in
    if is_empty source then false else names_host_path source

-- the key and the value of one part of a `Mount=`
abbrev pub part_key : Bytes → Bytes
part_key part = lower_ascii (trim (before_mark part (find b'=' part)))

abbrev pub part_value : Bytes → Bytes
part_value part = trim (behind_mark part (find b'=' part))

abbrev pub is_source_key : Bytes → Bool
is_source_key key = equal key (text "source") || equal key (text "src") || equal key (text "from")

-- the two tests of the loop's body
unfoldable pub host_path_part : Bytes → Bool
host_path_part part =
    equal (part_key part) (text "type") && equal (lower_ascii (part_value part)) (text "bind")
    || is_source_key (part_key part) && names_host_path (part_value part)

host_path_parts : List Bytes → Bool
host_path_parts [] = false
host_path_parts (part ∷ rest) = if host_path_part part then true else host_path_parts rest

unfoldable pub host_path_mount : Bytes → Bool
unfolding host_path_parts
host_path_mount value = host_path_parts (pieces b',' (trim value))
