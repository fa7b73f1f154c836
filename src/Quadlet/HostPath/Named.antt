-- ===== src/Quadlet/HostPath/Named.antt =====
-- A source that passes the tests of `host_path_volume` and `host_path_mount`.
use pod_installer.Base.{
  ℕ, false, ◌&&◌, List, [], ◌∷◌, ◌≡◌, ◌⊎◌, refl, arith, Bytes, text, equal, find, is_empty,
  starts_with, contains_text, Lacks, pieces, All, if◌then◌else◌, Bool-cases, ||-eq-false, inl, inr,
}
use pod_installer.Quadlet.Strings.{trim, lower_ascii}
use pod_installer.Quadlet.HostPath.{
  names_host_path, before_mark, host_path_volume, host_path_part, host_path_parts, host_path_mount,
  part_key, part_value, is_source_key,
}

-- It has no byte by which a path leaves the names of volumes, and does not begin like a path
-- that the shell, systemd or Podman would expand.
pub record IsPlainName (source : Bytes) : Type 0 where
  pub no_slash : Lacks b'/' source
  pub no_backslash : Lacks b'\\' source
  pub no_percent : Lacks b'%' source
  pub no_dot : starts_with source (b'.' ∷ []) ≡ false
  pub no_tilde : starts_with source (b'~' ∷ []) ≡ false
  pub no_dollar : starts_with source (b'$' ∷ []) ≡ false

contains_text-Lacks : (c : ℕ) (s : Bytes) → contains_text s (c ∷ []) ≡ false → Lacks c s
unfolding contains_text
contains_text-Lacks c [] h = tt
contains_text-Lacks c (x ∷ []) h = ground arith
contains_text-Lacks c (x ∷ y ∷ s) h = ground (arith, contains_text-Lacks c (y ∷ s))

names_host_path-IsPlainName : (source : Bytes) → names_host_path source ≡ false → IsPlainName source
unfolding names_host_path text
names_host_path-IsPlainName source h = record {
  no_slash = contains_text-Lacks b'/' source (ground arith);
  no_backslash = contains_text-Lacks b'\\' source (ground arith);
  no_percent = contains_text-Lacks b'%' source (ground arith);
  no_dot = ground arith;
  no_tilde = ground arith;
  no_dollar = ground arith;
}

-- the source of a `Volume=`, the text before the first ':'
abbrev pub volume_source : Bytes → Bytes
volume_source value = let trimmed = trim value in trim (before_mark trimmed (find b':' trimmed))

IsPlainName-nil : IsPlainName []
unfolding starts_with
IsPlainName-nil = record {
  no_slash = tt;
  no_backslash = tt;
  no_percent = tt;
  no_dot = refl;
  no_tilde = refl;
  no_dollar = refl;
}

plain_if_tested :
    (source : Bytes)
    → (if is_empty source then false else names_host_path source) ≡ false
    → IsPlainName source
plain_if_tested [] h = IsPlainName-nil
plain_if_tested (c ∷ source) h = names_host_path-IsPlainName (c ∷ source) h

-- A `Volume=` that is no host path has a plain name for its source, or none.
pub host_path_volume-IsPlainName :
    (value : Bytes) → host_path_volume value ≡ false → IsPlainName (volume_source value)
host_path_volume-IsPlainName value h =
    plain_if_tested (volume_source value) (unfold host_path_volume in h)

-- a part of a `Mount=` is no bind mount, and a source that it names is a plain name
pub record IsPlainPart (part : Bytes) : Type 0 where
  pub no_bind :
      (equal (part_key part) (text "type") && equal (lower_ascii (part_value part)) (text "bind"))
      ≡ false
  pub plain_source : (is_source_key (part_key part) ≡ false) ⊎ IsPlainName (part_value part)

host_path_part-tests :
    (part : Bytes)
    → host_path_part part ≡ false
    → ((equal (part_key part) (text "type") && equal (lower_ascii (part_value part)) (text "bind"))
        ≡ false)
      × ((is_source_key (part_key part) && names_host_path (part_value part)) ≡ false)
host_path_part-tests part h = unfold host_path_part in ||-eq-false _ _ h

host_path_part-IsPlainPart : (part : Bytes) → host_path_part part ≡ false → IsPlainPart part
host_path_part-IsPlainPart part h =
    let (bind, source) = host_path_part-tests part h in
    record {
      no_bind = bind;
      plain_source = elim (Bool-cases (is_source_key (part_key part))) [
        | inr other ↦ inl other
        | inl named ↦ inr (names_host_path-IsPlainName (part_value part) (rw named at source))
      ];
    }

host_path_parts-IsPlainPart :
    (parts : List Bytes) → host_path_parts parts ≡ false → All IsPlainPart parts
unfolding host_path_parts
host_path_parts-IsPlainPart [] h = tt
host_path_parts-IsPlainPart (part ∷ parts) h = (
  host_path_part-IsPlainPart part (ground arith),
  host_path_parts-IsPlainPart parts (ground arith),
)

-- Every part of a `Mount=` that is no host path mount is plain: it is no
-- bind mount, and a source that it names is a plain name.
pub host_path_mount-IsPlainPart :
    (value : Bytes) → host_path_mount value ≡ false → All IsPlainPart (pieces b',' (trim value))
unfolding host_path_mount
host_path_mount-IsPlainPart value h = host_path_parts-IsPlainPart (pieces b',' (trim value)) h
