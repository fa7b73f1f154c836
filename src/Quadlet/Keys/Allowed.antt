-- ===== src/Quadlet/Keys/Allowed.antt =====
-- Which sections and keys a checked file has.
use pod_installer.Base.{
  Bool, true, false, not, List, [], ◌∷◌, Option, none, some, ◌≡◌, ◌≢◌, ◌↔◌, ◌⊎◌, refl, sym, ap, ◌∙◌,
  arith, Bytes, text, equal, equal_iff, All, all, starts_with, Bool-cases, Option-cases, inl, inr,
}
use pod_installer.Base.Maps.{Map, lookup}
use pod_installer.Error.{ok, >>-eq-ok}
use pod_installer.Quadlet.Parsed.{ParsedQuadlet, Section, values}
use pod_installer.Quadlet.Keys.{
  dangerous_service_key, member, allowed, check_keys, check_section, validate_allowed_keys,
}

-- `key` is one of the allowed keys of an allowed section
abbrev pub IsAllowed : Bytes → Bytes → Type 0
IsAllowed section key =
    (keys : List Bytes) × (lookup section allowed ≡ some keys) × (member key keys ≡ true)

-- a section is allowed, and so is each of its keys
abbrev pub AllowedSection : Bytes × Section → Type 0
AllowedSection (section, entries) =
    (keys : List Bytes) × (lookup section allowed ≡ some keys)
    × All (λ entry. member entry.0 keys ≡ true) entries

-- no allowed key begins with "Exec" or is another of the keys that run something on the host
abbrev pub harmless : List Bytes → Bool
harmless = all (λ key. not (dangerous_service_key key))

allowed-harmless : all (λ entry. harmless entry.1) allowed ≡ true
unfolding allowed dangerous_service_key starts_with text equal
allowed-harmless = refl

lookup-harmless :
    (m : Map (List Bytes)) (section : Bytes) (keys : List Bytes)
    → all (λ entry. harmless entry.1) m ≡ true
    → lookup section m ≡ some keys
    → harmless keys ≡ true
unfolding lookup
lookup-harmless [] section keys h e = cc
lookup-harmless ((s, ks) ∷ m) section keys h e = ground (arith, lookup-harmless m section keys)

member-harmless :
    (keys : List Bytes) (key : Bytes)
    → harmless keys ≡ true
    → member key keys ≡ true
    → dangerous_service_key key ≡ false
member-harmless [] key h m = cc
member-harmless (k ∷ keys) key h m = ground (arith, equal_iff k key, member-harmless keys key)

check_keys_iff :
    (section : Bytes) (keys : List Bytes) (entries : Section)
    → harmless keys ≡ true
    → (check_keys section keys entries ≡ ok tt) ↔ All (λ entry. member entry.0 keys ≡ true) entries
unfolding check_keys
check_keys_iff section keys [] h = (λ _. tt, λ _. refl)
check_keys_iff section keys ((key, vs) ∷ entries) h =
    let (forth, back) = check_keys_iff section keys entries h in
    (
      (λ e. (ground arith, forth (ground arith))),
      (λ (m, rest). ground (arith, member-harmless keys key h, back rest)),
    )

check_section_iff :
    (section : Bytes) (o : Option (List Bytes)) (entries : Section)
    → lookup section allowed ≡ o
    → (check_section section o entries ≡ ok tt) ↔ AllowedSection (section, entries)
unfolding check_section
check_section_iff section none entries found = (λ e. cc, λ (keys, e, _). cc)
check_section_iff section (some keys) entries found =
    let harmless_keys = lookup-harmless allowed section keys allowed-harmless found in
    let (forth, back) = check_keys_iff section keys entries harmless_keys in
    (
      (λ e. (keys, found, forth e)),
      (λ (keys', found', h). let same : keys' ≡ keys = cc in back (rw same at h)),
    )

-- The check passes exactly when every section of the file is an allowed one and has only keys
-- that are allowed there.
pub validate_allowed_keys-AllowedSection :
    (parsed : ParsedQuadlet) → (validate_allowed_keys parsed ≡ ok tt) ↔ All AllowedSection parsed
unfolding validate_allowed_keys
validate_allowed_keys-AllowedSection [] = (λ _. tt, λ _. refl)
validate_allowed_keys-AllowedSection ((section, entries) ∷ parsed) =
    let (forth, back) = validate_allowed_keys-AllowedSection parsed in
    let one = check_section_iff section (lookup section allowed) entries refl in
    (
      (λ e.
          let (here, rest) =
            >>-eq-ok (check_section section (lookup section allowed) entries) _ e in
          (one.0 here, forth rest)),
      (λ (here, rest). rw (one.1 here) (back rest)),
    )

lookup-member :
    (entries : Section) (keys : List Bytes) (key : Bytes) (vs : List Bytes)
    → All (λ entry. member entry.0 keys ≡ true) entries
    → lookup key entries ≡ some vs
    → member key keys ≡ true
unfolding lookup
lookup-member [] keys key vs h e = cc
lookup-member ((k, ws) ∷ entries) keys key vs (m, h) e =
    ground (arith, equal_iff k key, lookup-member entries keys key vs h)

pub values-IsAllowed :
    (parsed : ParsedQuadlet) (section key : Bytes)
    → All AllowedSection parsed
    → values parsed section key ≢ []
    → IsAllowed section key
unfolding values lookup
values-IsAllowed [] section key h ne = absurd (ne refl)
values-IsAllowed ((s, entries) ∷ parsed) section key ((keys, found, members), h) ne =
    elim (Bool-cases (equal s section)) [
      | inl same ↦ elim (Option-cases (lookup key entries)) [
        | inl absent ↦ absurd (ne (rw (same, absent, lookup) refl))
        | inr (vs, e) ↦ (
          keys,
          ap (λ x. lookup x allowed) (sym ((equal_iff s section).0 same)) ∙ found,
          lookup-member entries keys key vs members e,
        )
      ]
      | inr other ↦ values-IsAllowed parsed section key h (rw other at ne)
    ]

IsAllowed-harmless :
    (section key : Bytes) → IsAllowed section key → dangerous_service_key key ≡ false
IsAllowed-harmless section key (keys, found, m) =
    member-harmless keys key (lookup-harmless allowed section keys allowed-harmless found) m

is_nil_or : (vs : List Bytes) → (vs ≡ []) ⊎ (vs ≢ [])
is_nil_or [] = inl refl
is_nil_or (v ∷ vs) = inr (λ e. cc)

-- A file that passes has no value for a key that runs something on the host or reads one of
-- its files, in any section.
pub values-dangerous_service_key :
    (parsed : ParsedQuadlet) (section key : Bytes)
    → validate_allowed_keys parsed ≡ ok tt
    → dangerous_service_key key ≡ true
    → values parsed section key ≡ []
values-dangerous_service_key parsed section key h dangerous =
    elim (is_nil_or (values parsed section key)) [
      | inl e ↦ e
      | inr ne ↦
          let all_allowed = (validate_allowed_keys-AllowedSection parsed).0 h in
          cc (IsAllowed-harmless section key (values-IsAllowed parsed section key all_allowed ne))
    ]
