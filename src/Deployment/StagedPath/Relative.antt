-- ===== src/Deployment/StagedPath/Relative.antt =====
-- What `relative_staged_path` accepts.
use mathlib.Core.Path.{subst}
use pod_installer.Base.{
  true, false, List, [], ◌∷◌, ◌++◌, Option, none, some, ◌≡◌, ◌≢◌, ◌⊎◌, ◌↔◌, refl, sym, ap, ◌∙◌, inl,
  inr, arith, Bytes, equal, equal_iff, is_empty, All, All-append, append_assoc, append-nil,
  Bool-cases,
}
use pod_installer.Error.{ok, ◌>>=◌, >>=-eq-ok, >>-eq-ok}
use pod_installer.FilePath.{elements, joined, slash, is_absolute, lexically_normal, append_element}
use pod_installer.FilePath.Normal.{
  is_plain, RootFirst, lexically_normal-plain, elements-RootFirst, append_element-plain,
}
use pod_installer.Deployment.StagedPath.{
  path_component_is_safe, check_components, behind_root, append_elements, relative_to, is_no_path,
  strip_root, check_relative, relative_staged_path,
}

-- elements that are neither empty nor `.` or `..`
abbrev pub AreSafe : List Bytes → Type 0
AreSafe = All (λ name. path_component_is_safe name ≡ true)

plain_safe : (path : List Bytes) → AreSafe path → All (λ name. is_plain name ≡ true) path
unfolding path_component_is_safe
plain_safe [] h = tt
plain_safe (name ∷ path) (h, hs) = (ground arith, plain_safe path hs)

check_components_iff :
    (shown : Bytes) (path : List Bytes) → (check_components shown path ≡ ok tt) ↔ AreSafe path
check_components_iff shown [] = ((λ _. tt), (λ _. refl))
check_components_iff shown (name ∷ path) =
    let (forth, back) = check_components_iff shown path in
    elim (Bool-cases (path_component_is_safe name)) [
      | inl safe ↦ ((λ h. (safe, forth (ground arith))), (λ (_, hs). rw safe (back hs)))
      | inr unsafe ↦ ((λ h. ground arith), (λ (h, _). ground arith))
    ]

behind_root_iff :
    (path root left : List Bytes) → (behind_root path root ≡ some left) ↔ (path ≡ root ++ left)
behind_root_iff path [] left = ((λ h. cc), (λ h. cc))
behind_root_iff [] (r ∷ root) left = ((λ h. cc), (λ h. cc))
behind_root_iff (p ∷ path) (r ∷ root) left =
    let (forth, back) = behind_root_iff path root left in
    elim (Bool-cases (equal p r)) [
      | inl same ↦ (
        (λ h. let e : p ≡ r = (equal_iff p r).0 same in let f = forth (ground arith) in cc),
        (λ h. rw same (back (cc))),
      )
      | inr other ↦
          ((λ h. ground arith), (λ h. let e : equal p r ≡ true = (equal_iff p r).1 (cc) in cc))
    ]

append_elements-append :
    (first : Bytes) (relative path : List Bytes)
    → AreSafe (first ∷ relative)
    → AreSafe path
    → All (λ name. equal name slash ≡ false) path
    → append_elements (first ∷ relative) path ≡ first ∷ relative ++ path
append_elements-append first relative [] h hs ns = ap (◌∷◌ first) (sym (append-nil relative))
append_elements-append first relative (name ∷ path) h (hn, hs) (n, ns) =
    rw (append_element-plain first relative name (plain_safe (first ∷ relative) h) n) (
      append_elements-append first (relative ++ name ∷ []) path
        (All-append (λ n. path_component_is_safe n ≡ true) (first ∷ relative) (name ∷ []) h
          (hn, tt))
        hs ns
      ∙ ap (◌∷◌ first) (append_assoc relative (name ∷ []) path))

append_elements-nil :
    (path : List Bytes) → AreSafe path → RootFirst path → append_elements [] path ≡ path
unfolding append_element path_component_is_safe
append_elements-nil [] h first = refl
append_elements-nil (name ∷ path) (h, hs) first =
    let full : is_empty name ≡ false = ground arith in
    rw full (append_elements-append name [] path (h, tt) hs first)

All-behind : (P : Bytes → Type 0) (xs ys : List Bytes) → All P (xs ++ ys) → All P ys
All-behind P [] ys h = h
All-behind P (x ∷ xs) ys (h, hs) = All-behind P xs ys hs

RootFirst-behind : (root left : List Bytes) → RootFirst (root ++ left) → RootFirst left
RootFirst-behind [] left first = first
RootFirst-behind (r ∷ root) [] first = tt
RootFirst-behind (r ∷ root) (name ∷ left) first =
    (All-behind (λ n. equal n slash ≡ false) root (name ∷ left) first).1

relative_to-eq-ok :
    (path : List Bytes) (o : Option (List Bytes)) {names : List Bytes}
    → relative_to path o ≡ ok names
    → (left : List Bytes) × (o ≡ some left) × (append_elements [] left ≡ names)
relative_to-eq-ok path none h = cc
relative_to-eq-ok path (some left) h = (left, refl, cc)

-- Relative, or behind the root in normal form.
abbrev pub IsBelow : Bytes → List Bytes → List Bytes → Type 0
IsBelow root path names =
    ((is_absolute path ≡ false) × (path ≡ names))
    ⊎ ((is_absolute path ≡ true) × (path ≡ lexically_normal (elements root) ++ names))

module _ (root : Bytes) (path : List Bytes) (safe : AreSafe path) (first : RootFirst path) where
  left-appended : (base left : List Bytes) → path ≡ base ++ left → append_elements [] left ≡ left
  left-appended base left e =
      append_elements-nil left
        (All-behind (λ n. path_component_is_safe n ≡ true) base left (rw (sym e) safe))
        (RootFirst-behind base left (rw (sym e) first))

  strip_root_iff :
      (names : List Bytes) → (strip_root root path ≡ ok names) ↔ IsBelow root path names
  strip_root_iff names =
      let base = lexically_normal (elements root) in
      elim (Bool-cases (is_absolute path)) [
        | inl absolute ↦ (
          (λ h.
              let stripped : relative_to path (behind_root path base) ≡ ok names = ground arith in
              let (left, found, same) = relative_to-eq-ok path (behind_root path base) stripped in
              let e = (behind_root_iff path base left).0 found in
              inr (absolute, e ∙ ap (λ l. base ++ l) (sym (left-appended base left e) ∙ same))),
          (λ below. elim below [
            | inl (relative, e) ↦ cc
            | inr (_, e) ↦
                rw (absolute, (behind_root_iff path base names).1 e)
                  (ap ok (left-appended base names e))
          ]),
        )
        | inr relative ↦ (
          (λ h. inl (relative, ground arith)),
          (λ below. elim below [ inl (_, e) ↦ rw relative (ap ok e) | inr (absolute, e) ↦ cc ]),
        )
      ]

-- What is walked from the staging root: names of which none goes up, at least one.
abbrev pub IsStaged : Bytes → Bytes → List Bytes → Type 0
IsStaged root path names =
    AreSafe (elements path) × (names ≢ []) × IsBelow root (elements path) names

below-AreSafe :
    (root : Bytes) (path names : List Bytes)
    → AreSafe path
    → IsBelow root path names
    → AreSafe names
below-AreSafe root path names safe (inl (_, e)) = rw (sym e) safe
below-AreSafe root path names safe (inr (_, e)) =
    All-behind (λ n. path_component_is_safe n ≡ true) (lexically_normal (elements root)) names
      (rw (sym e) safe)

check_relative_iff :
    (names left : List Bytes)
    → AreSafe names
    → (check_relative names ≡ ok left) ↔ ((names ≢ []) × (names ≡ left))
check_relative_iff [] left h = ((λ e. cc), (λ (ne, _). absurd (ne refl)))
check_relative_iff (name ∷ names) left h =
    let path : is_no_path (name ∷ names) ≡ false = is_path name names h in
    let checked = (check_components_iff (joined (name ∷ names)) (name ∷ names)).1 h in
    ((λ e. ((λ e'. cc), cc)), (λ (_, e). rw (path, checked) (ap ok e)))
  where
    is_path :
        (name : Bytes) (names : List Bytes)
        → AreSafe (name ∷ names)
        → is_no_path (name ∷ names) ≡ false
    is_path name (n ∷ names) h = refl
    is_path name [] (h, _) = let plain = plain_safe (name ∷ []) (h, tt) in ground arith

-- `relative_staged_path` gives names exactly where no element of the path is empty, `.` or
-- `..`, where there is a name, and where they are the elements of the path if it is relative, and
-- if it is absolute what is behind those of the staging root, the root being in normal form.
pub relative_staged_path-IsStaged :
    (root path : Bytes) (names : List Bytes)
    → (relative_staged_path root path ≡ ok names) ↔ IsStaged root path names
unfolding relative_staged_path
relative_staged_path-IsStaged root path names = (
  (λ h.
      let (checked, stripped) =
        >>-eq-ok (check_components path (elements path))
          (strip_root root (lexically_normal (elements path)) >>= check_relative) h in
      let safe = (check_components_iff path (elements path)).0 checked in
      let (left, e, kept) =
        >>=-eq-ok (strip_root root (lexically_normal (elements path))) check_relative stripped in
      let below =
        (strip_root_iff root (elements path) safe (elements-RootFirst path) left).0
          (rw (sym (lexically_normal-plain (elements path) (plain_safe (elements path) safe))) e) in
      let (ne, same) =
        (check_relative_iff left names (below-AreSafe root (elements path) left safe below)).0
          kept in
      (safe, (λ e'. ne (same ∙ e')), subst (λ l. IsBelow root (elements path) l) same below)),
  (λ (safe, ne, below).
      rw
        (
          (check_components_iff path (elements path)).1 safe,
          lexically_normal-plain (elements path) (plain_safe (elements path) safe),
          (strip_root_iff root (elements path) safe (elements-RootFirst path) names).1 below,
        )
        ((check_relative_iff names names (below-AreSafe root (elements path) names safe below)).1
          (ne, refl))),
)
