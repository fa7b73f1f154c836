-- ===== src/Target.antt =====
-- include/pod_installer/target.hpp and src/target.cpp. A path is its text; the database of
-- users, which getpwnam_r and getpwuid_r read, is a parameter.
pub mod Paths
pub mod Users
use pod_installer.Base.{
  Bool, [], ◌∷◌, ◌&&◌, equal, reverse, take_while, drop_while, not, ◌==◌, ℕ, ◌||◌, ◌++◌, Bytes,
  text, is_empty, starts_with, ends_with, if◌then◌else◌,
}
use pod_installer.Base.Decimal.{to_string}

-- `a / b` of `std::filesystem::path`
unfoldable pub join : Bytes → Bytes → Bytes
join a b =
    if starts_with b (text "/")
    then b
    else if is_empty a || ends_with a (text "/")
    then a ++ b
    else a ++ text "/" ++ b

-- `path.filename()` and `path.parent_path()`
unfoldable pub filename : Bytes → Bytes
filename path = reverse (take_while (λ c. not (c == b'/')) (reverse path))

unfoldable pub parent_path : Bytes → Bytes
parent_path path =
    let front = drop_while (λ c. not (c == b'/')) (reverse path) in
    let bare = drop_while (λ c. c == b'/') front in reverse (if is_empty bare then front else bare)

-- a path with each row of slashes as one
collapsed : Bytes → Bytes
collapsed [] = []
collapsed (c ∷ []) = c ∷ []
collapsed (c ∷ d ∷ path) =
    let rest = collapsed (d ∷ path) in if c == b'/' && d == b'/' then rest else c ∷ rest

-- `a == b` of paths, which compares their elements
unfoldable pub same_path : Bytes → Bytes → Bool
unfolding collapsed
same_path a b = equal (collapsed a) (collapsed b)

pub record RuntimeDirectoryLayout : Type 0 where
  pub root : Bytes

abbrev pub default_layout : RuntimeDirectoryLayout
default_layout = record { root = text "/run/user" }

unfoldable pub runtime_dir_for : RuntimeDirectoryLayout → ℕ → Bytes
runtime_dir_for layout uid = join layout.root (to_string uid)

unfoldable pub podman_socket_for : RuntimeDirectoryLayout → ℕ → Bytes
podman_socket_for layout uid =
    join (join (runtime_dir_for layout uid) (text "podman")) (text "podman.sock")

pub record PodmanTarget : Type 0 where
  pub uid : ℕ
  pub user_name : Bytes
  pub runtime_dir : Bytes
  pub socket_path : Bytes
  pub api_version : Bytes

unfoldable pub make_target : ℕ → Bytes → RuntimeDirectoryLayout → Bytes → PodmanTarget
make_target uid user_name layout api_version = record {
  uid = uid;
  user_name = user_name;
  runtime_dir = runtime_dir_for layout uid;
  socket_path = podman_socket_for layout uid;
  api_version = api_version;
}
