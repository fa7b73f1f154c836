-- ===== src/FilePath/Normal.antt =====
-- Paths whose elements are neither empty nor a dot or two: `lexically_normal` leaves them.
use mathlib.Core.List.{reverse-append}
use pod_installer.Base.{
  ℕ, Bool, true, false, not, ◌&&◌, ◌||◌, ◌==◌, List, [], ◌∷◌, ◌++◌, reverse, ◌≡◌, refl, sym, ap,
  ◌∙◌, arith, Bytes, equal, equal_iff, is_empty, All, Lacks, drop, append_assoc, append-nil,
  Bool-cases, inl, inr,
}
use pod_installer.FilePath.{
  cons_byte, cut, split_names, rooted, slash, elements, is_dot, is_dot_dot, normal_loop,
  lexically_normal, or_dot, append_element,
}

-- an element that is a name or the root directory
abbrev pub is_plain : Bytes → Bool
is_plain name = not (is_empty name) && not (is_dot name) && not (is_dot_dot name)

normal_loop-plain :
    (absolute : Bool) (kept names : List Bytes)
    → All (λ name. is_plain name ≡ true) names
    → normal_loop absolute false kept names ≡ reverse kept ++ names
unfolding normal_loop
normal_loop-plain absolute [] [] h = refl
normal_loop-plain absolute (top ∷ kept) [] h = sym (append-nil (reverse (top ∷ kept)))
normal_loop-plain absolute kept (name ∷ names) (hn, h) =
    let here : (is_empty name || is_dot name) ≡ false = ground arith in
    let up : is_dot_dot name ≡ false = ground arith in
    rw (here, up)
      (normal_loop-plain absolute (name ∷ kept) names h
        ∙ ap (λ l. l ++ names) (reverse-append (name ∷ []) kept)
        ∙ append_assoc (reverse kept) (name ∷ []) names)

-- a path of such elements is in normal form
pub lexically_normal-plain :
    (path : List Bytes) → All (λ name. is_plain name ≡ true) path → lexically_normal path ≡ path
unfolding lexically_normal
lexically_normal-plain [] h = refl
lexically_normal-plain (name ∷ names) (hn, h) = elim (Bool-cases (equal name slash)) [
  | inl root ↦ rw root (
      ap (◌∷◌ slash) (normal_loop-plain true [] names h)
      ∙ ap (λ n. n ∷ names) (sym ((equal_iff name slash).0 root)))
  | inr plain ↦ rw plain (ap or_dot (normal_loop-plain false [] (name ∷ names) (hn, h)))
]

cut-Lacks : (names : List Bytes) → All (Lacks b'/') names → All (Lacks b'/') (cut names)
cut-Lacks [] h = (tt, (tt, tt))
cut-Lacks ([] ∷ names) h = h
cut-Lacks ((c ∷ name) ∷ names) h = (tt, h)

cons_byte-Lacks :
    (c : ℕ) (names : List Bytes)
    → (c == b'/') ≡ false
    → All (Lacks b'/') names
    → All (Lacks b'/') (cons_byte c names)
cons_byte-Lacks c [] hc h = ((hc, tt), tt)
cons_byte-Lacks c (name ∷ names) hc (hn, h) = ((hc, hn), h)

split_names-Lacks : (path : Bytes) → All (Lacks b'/') (split_names path)
unfolding split_names
split_names-Lacks [] = tt
split_names-Lacks (c ∷ path) = elim (Bool-cases (c == b'/')) [
  | inl here ↦ rw here (cut-Lacks (split_names path) (split_names-Lacks path))
  | inr other ↦ rw other (cons_byte-Lacks c (split_names path) other (split_names-Lacks path))
]

-- the root directory is the first element alone
abbrev pub RootFirst : List Bytes → Type 0
RootFirst path = All (λ name. equal name slash ≡ false) (drop 1 path)

names-ne :
    (names : List Bytes) → All (Lacks b'/') names → All (λ name. equal name slash ≡ false) names
unfolding equal
names-ne [] h = tt
names-ne ([] ∷ names) (hn, h) = (refl, names-ne names h)
names-ne ((c ∷ name) ∷ names) ((hc, hn), h) = (ground arith, names-ne names h)

pub elements-RootFirst : (path : Bytes) → RootFirst (elements path)
unfolding elements
elements-RootFirst path = firsts (split_names path) (split_names-Lacks path)
  where
    firsts : (names : List Bytes) → All (Lacks b'/') names → RootFirst (rooted names)
    firsts [] h = tt
    firsts ([] ∷ []) h = tt
    firsts ([] ∷ [] ∷ []) h = tt
    firsts ([] ∷ [] ∷ name ∷ names) (h, hs) = names-ne ([] ∷ name ∷ names) hs
    firsts ([] ∷ (c ∷ name) ∷ names) (h, hs) = names-ne ((c ∷ name) ∷ names) hs
    firsts ((c ∷ name) ∷ names) (h, hs) = names-ne names hs

-- an element that is no root is put behind others that are not empty
pub append_element-plain :
    (n : Bytes) (path : List Bytes) (name : Bytes)
    → All (λ n. is_plain n ≡ true) (n ∷ path)
    → equal name slash ≡ false
    → append_element (n ∷ path) name ≡ n ∷ path ++ name ∷ []
unfolding append_element
append_element-plain n [] name (h, _) hn =
    let full : is_empty n ≡ false = ground arith in rw (hn, full)
append_element-plain n (m ∷ path) name (h, hs) hn =
    rw hn (ap (◌∷◌ n) (append_element-plain m path name hs hn))
