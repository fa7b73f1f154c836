-- ===== src/FilePath.antt =====
-- What the sources use of `std::filesystem::path`: the elements that its iterator visits, and
-- `lexically_normal` on them. A path whose last element is empty ends in a slash.
pub mod Normal
use pod_installer.Base.{
  ℕ, Bool, true, false, not, ◌&&◌, ◌||◌, ◌==◌, List, [], ◌∷◌, ◌++◌, reverse, Bytes, text, equal,
  is_empty, if◌then◌else◌,
}

-- the names between slashes, a row of slashes being one; the empty one at the end is kept
abbrev pub cons_byte : ℕ → List Bytes → List Bytes
cons_byte c [] = (c ∷ []) ∷ []
cons_byte c (name ∷ names) = (c ∷ name) ∷ names

-- a slash in front of what is split already
abbrev cut : List Bytes → List Bytes
cut [] = [] ∷ [] ∷ []
cut ([] ∷ names) = [] ∷ names
cut ((c ∷ name) ∷ names) = [] ∷ (c ∷ name) ∷ names

-- The first name is empty where the text begins with a slash.
pub split_names : Bytes → List Bytes
split_names [] = []
split_names (c ∷ path) =
    let rest = split_names path in if c == b'/' then cut rest else cons_byte c rest

abbrev pub slash : Bytes
slash = b'/' ∷ []

abbrev rooted : List Bytes → List Bytes
rooted ([] ∷ [] ∷ []) = slash ∷ []
rooted ([] ∷ names) = slash ∷ names
rooted names = names

-- the elements that the iterator visits, the root directory among them
unfoldable pub elements : Bytes → List Bytes
unfolding split_names
elements path = rooted (split_names path)

-- `path.string()`
unfoldable pub joined : List Bytes → Bytes
joined [] = []
joined (name ∷ []) = name
joined (name ∷ next ∷ names) =
    let rest = joined (next ∷ names) in
    if equal name slash then name ++ rest else name ++ (b'/' ∷ rest)

unfoldable pub is_absolute : List Bytes → Bool
is_absolute [] = false
is_absolute (name ∷ names) = equal name slash

abbrev pub is_dot : Bytes → Bool
is_dot name = equal name (b'.' ∷ [])

abbrev pub is_dot_dot : Bytes → Bool
is_dot_dot name = equal name (b'.' ∷ b'.' ∷ [])

-- a `..` behind the names that are kept, the last of them first
abbrev pub step_up : Bool → List Bytes → List Bytes
step_up absolute [] = if absolute then [] else text ".." ∷ []
step_up absolute (top ∷ kept) = if is_dot_dot top then text ".." ∷ top ∷ kept else kept

-- the names that are kept, with an empty one where a slash is left at the end
abbrev pub finished : Bool → List Bytes → List Bytes
finished trailing [] = []
finished trailing (top ∷ kept) =
    if trailing && not (is_dot_dot top) then reverse ([] ∷ top ∷ kept) else reverse (top ∷ kept)

pub normal_loop : Bool → Bool → List Bytes → List Bytes → List Bytes
normal_loop absolute trailing kept [] = finished trailing kept
normal_loop absolute trailing kept (name ∷ names) =
    let skipped = normal_loop absolute true kept names in
    let up = normal_loop absolute true (step_up absolute kept) names in
    let pushed = normal_loop absolute false (name ∷ kept) names in
    if is_empty name || is_dot name then skipped else if is_dot_dot name then up else pushed

-- a relative path of which nothing is left
abbrev pub or_dot : List Bytes → List Bytes
or_dot [] = text "." ∷ []
or_dot (name ∷ names) = name ∷ names

-- `path.lexically_normal()`
unfoldable pub lexically_normal : List Bytes → List Bytes
unfolding normal_loop
lexically_normal [] = []
lexically_normal (name ∷ names) =
    if equal name slash
    then slash ∷ normal_loop true false [] names
    else or_dot (normal_loop false false [] (name ∷ names))

-- `path /= element`: an absolute one takes its place, an empty last element is filled, and an
-- empty element adds nothing to the empty path
unfoldable pub append_element : List Bytes → Bytes → List Bytes
append_element [] element = if is_empty element then [] else element ∷ []
append_element (name ∷ []) element =
    if equal element slash
    then element ∷ []
    else if is_empty name
    then element ∷ []
    else name ∷ element ∷ []
append_element (name ∷ next ∷ names) element =
    let rest = append_element (next ∷ names) element in
    if equal element slash then element ∷ [] else name ∷ rest
