-- ===== src/Quadlet/Parsed.antt =====
-- `ParsedQuadlet` of src/quadlet.cpp: sections of keys, each with its values in file order.
use mathlib.Core.Option.{get_or}
use pod_installer.Base.{
  Bool, true, ◌&&◌, List, [], ◌∷◌, ◌++◌, Option, none, some, ◌≡◌, refl, ap, ◌∙◌, Bytes, equal,
  equal_iff, if◌then◌else◌, Bool-cases, inl, inr,
}
use pod_installer.Base.Maps.{Map, lookup, contains, modify, lookup-modify, contains-modify}

abbrev pub Section : Type 0
Section = Map (List Bytes)

abbrev pub ParsedQuadlet : Type 0
ParsedQuadlet = Map Section

-- `ParsedQuadlet::has_section`
unfoldable pub has_section : ParsedQuadlet → Bytes → Bool
has_section parsed section = contains section parsed

abbrev values_of : Option (List Bytes) → List Bytes
values_of none = []
values_of (some vs) = vs

abbrev section_values : Bytes → Option Section → List Bytes
section_values key none = []
section_values key (some entries) = values_of (lookup key entries)

-- `ParsedQuadlet::values`
unfoldable pub values : ParsedQuadlet → Bytes → Bytes → List Bytes
values parsed section key = section_values key (lookup section parsed)

abbrev push_back : Bytes → List Bytes → List Bytes
push_back value vs = vs ++ value ∷ []

-- `ParsedQuadlet::add`
unfoldable pub add : Bytes → Bytes → Bytes → ParsedQuadlet → ParsedQuadlet
add section key value = modify section [] (modify key [] (push_back value))

section_values-get_or :
    (key : Bytes) (o : Option Section) → values_of (lookup key (get_or o [])) ≡ section_values key o
unfolding lookup
section_values-get_or key none = refl
section_values-get_or key (some entries) = refl

values_of-push_back :
    (value : Bytes) (o : Option (List Bytes))
    → push_back value (get_or o []) ≡ values_of o ++ value ∷ []
values_of-push_back value none = refl
values_of-push_back value (some vs) = refl

section_values-modify :
    (key value k : Bytes) (o : Option Section)
    → section_values k (some (modify key [] (push_back value) (get_or o [])))
      ≡ (if equal key k then section_values k o ++ value ∷ [] else section_values k o)
section_values-modify key value k o = elim (Bool-cases (equal key k)) [
  | inl same ↦
      rw (lookup-modify k key [] (push_back value) (get_or o []), same, (equal_iff key k).0 same)
        (values_of-push_back value (lookup k (get_or o []))
          ∙ ap (push_back value) (section_values-get_or k o))
  | inr other ↦
      rw (lookup-modify k key [] (push_back value) (get_or o []), other) (section_values-get_or k o)
]

-- `add` appends the value to its own key, and leaves the values of every other section and key.
pub values-add :
    (section key value : Bytes) (parsed : ParsedQuadlet) (s k : Bytes)
    → values (add section key value parsed) s k ≡ (
        if equal section s && equal key k
        then values parsed s k ++ value ∷ []
        else values parsed s k)
unfolding values add
values-add section key value parsed s k = elim (Bool-cases (equal section s)) [
  | inl same ↦
      rw
        (
          lookup-modify s section [] (modify key [] (push_back value)) parsed,
          same,
          (equal_iff section s).0 same,
        )
        (section_values-modify key value k (lookup s parsed))
  | inr other ↦ rw (lookup-modify s section [] (modify key [] (push_back value)) parsed, other) refl
]

pub has_section-add :
    (section key value : Bytes) (parsed : ParsedQuadlet) (s : Bytes)
    → has_section (add section key value parsed) s
      ≡ (if equal section s then true else has_section parsed s)
unfolding has_section add
has_section-add section key value parsed s =
    contains-modify s section [] (modify key [] (push_back value)) parsed

pub values-nil : (section key : Bytes) → values [] section key ≡ []
unfolding values lookup
values-nil section key = refl
