-- ===== src/Systemd/Unit/Accepted.antt =====
-- Which units and commands systemctl is called with.
use pod_installer.Base.{
  All, all_iff, is_empty_not_iff, ℕ, ◌≤◌, Bool, true, false, not, ◌&&◌, ◌||◌, List, [], ◌∷◌, ◌++◌,
  Option, none, some, ◌≡◌, ◌≢◌, ◌↔◌, ◌⊎◌, inl, inr, refl, ap, ◌∙◌, arith, Bytes, text, length,
  length-append, is_empty, all, all-append, is_control, ◌==◌, starts_with, ends_with,
  ends_with-split, ends_with-append,
}
use pod_installer.Error.{
  ok, invalid_argument, reject_if, reject_if_iff, >>-iff, ↔-trans, ◌>>◌, >>-eq-ok,
}
use pod_installer.Target.{PodmanTarget}
use pod_installer.Quadlet.Strings.{safe_unit_file_char}
use pod_installer.Quadlet.FileName.{service_unit_name_from_quadlet}
use pod_installer.Quadlet.FileName.Unit.{service_unit_name_from_quadlet-IsFileName}
use pod_installer.Systemd.Unit.{
  safe_systemd_value, safe_unit_byte, has_unit_suffix, safe_systemd_unit,
  validate_systemd_unit_name, check_unit, unit_args, build_systemctl_user_args,
}

-- the unit ends in the suffix
abbrev EndsIn : Bytes → Bytes → Type 0
EndsIn unit suffix = (front : Bytes) × (unit ≡ front ++ suffix)

-- At most 255 bytes, the first no '-', each a letter, a digit or one of "_-.@\"; it ends in one
-- of the four suffixes.
pub record IsUnitName (unit : Bytes) : Type 0 where
  pub short : length unit ≤ 255
  pub no_option : starts_with unit (text "-") ≡ false
  pub safe : all safe_unit_byte unit ≡ true
  pub suffix :
      ((EndsIn unit (text ".service") ⊎ EndsIn unit (text ".socket")) ⊎ EndsIn unit (text ".timer"))
      ⊎ EndsIn unit (text ".target")

ends_with-EndsIn : (unit suffix : Bytes) → (ends_with unit suffix ≡ true) ↔ EndsIn unit suffix
ends_with-EndsIn unit suffix =
    (ends_with-split unit suffix, (λ (front, e). rw e (ends_with-append front suffix)))

||_iff : {P Q : Type 0} (a b : Bool) → (a ≡ true) ↔ P → (b ≡ true) ↔ Q → ((a || b) ≡ true) ↔ (P ⊎ Q)
||_iff true b p q = ((λ _. inl (p.0 refl)), (λ _. refl))
||_iff false b p q = ((λ h. inr (q.0 h)), elim [ inl x ↦ cc (p.1 x) | inr y ↦ q.1 y ])

EndsIn-nonempty : (unit : Bytes) → has_unit_suffix unit ≡ true → is_empty unit ≡ false
unfolding has_unit_suffix ends_with text starts_with
EndsIn-nonempty [] h = cc
EndsIn-nonempty (c ∷ unit) h = refl

safe_systemd_unit-tests :
    (unit : Bytes)
    → (not (safe_systemd_unit unit) ≡ false) ↔ (
        (length unit ≤ 255)
        × ((starts_with unit (text "-") ≡ false)
            × ((all safe_unit_byte unit ≡ true) × (has_unit_suffix unit ≡ true))))
unfolding safe_systemd_unit
safe_systemd_unit-tests unit = (
  (λ h. ground arith),
  (λ (short, (first, (safe, suffix))). ground (arith, EndsIn-nonempty unit suffix)),
)

-- A unit name is accepted exactly when it has at most 255 bytes, does not begin with '-', holds
-- only letters, digits and "_-.@\", and ends in ".service", ".socket", ".timer" or ".target".
pub validate_systemd_unit_name-IsUnitName :
    (unit : Bytes) → (validate_systemd_unit_name unit ≡ ok tt) ↔ IsUnitName unit
unfolding validate_systemd_unit_name has_unit_suffix
validate_systemd_unit_name-IsUnitName unit =
    let (forth, back) = ↔-trans (reject_if_iff _ _ _) (safe_systemd_unit-tests unit) in
    let (split, join) =
      ||_iff _ _
        (||_iff _ _
          (||_iff _ _ (ends_with-EndsIn unit (text ".service"))
            (ends_with-EndsIn unit (text ".socket")))
          (ends_with-EndsIn unit (text ".timer")))
        (ends_with-EndsIn unit (text ".target")) in
    (
      (λ h.
          let t = forth h in
          record { short = t.0; no_option = t.1.0; safe = t.1.1.0; suffix = split t.1.1.1 }),
      (λ u. back (u.short, (u.no_option, (u.safe, join u.suffix)))),
    )

safe_unit_file_char-safe_unit_byte :
    (s : Bytes) → all safe_unit_file_char s ≡ true → all safe_unit_byte s ≡ true
unfolding safe_unit_file_char safe_unit_byte
safe_unit_file_char-safe_unit_byte [] h = refl
safe_unit_file_char-safe_unit_byte (c ∷ s) h = ground (arith, safe_unit_file_char-safe_unit_byte s)

-- the stem of a file's name, safe, and short enough for the longer suffix
stem-IsUnitName :
    (stem : Bytes)
    → length (stem ++ text ".container") ≤ 255
    → starts_with (stem ++ text ".service") (text "-") ≡ false
    → all safe_unit_file_char (stem ++ text ".container") ≡ true
    → IsUnitName (stem ++ text ".service")
unfolding text safe_unit_byte
stem-IsUnitName stem short first safe =
    let safe_stem : all safe_unit_file_char stem ≡ true =
      ground (arith, all-append safe_unit_file_char stem (text ".container")) in
    record {
      short = omega (
        arith,
        short,
        length-append {0} stem (text ".container"),
        length-append {0} stem (text ".service"),
      );
      no_option = first;
      safe =
          all-append safe_unit_byte stem (text ".service")
          ∙ ap (λ b. b && all safe_unit_byte (text ".service"))
              (safe_unit_file_char-safe_unit_byte stem safe_stem);
      suffix = inl (inl (inl (stem, refl)));
    }

first-no_option : (c : ℕ) (s : Bytes) → c ≢ b'-' → starts_with (c ∷ s) (text "-") ≡ false
unfolding starts_with text
first-no_option c [] ne = ground arith
first-no_option c (d ∷ s) ne = ground arith

-- The unit of every Quadlet file that is accepted by name is one that systemctl is called with.
pub service_unit_name_from_quadlet-IsUnitName :
    (file_name unit : Bytes)
    → service_unit_name_from_quadlet file_name ≡ ok unit
    → validate_systemd_unit_name unit ≡ ok tt
service_unit_name_from_quadlet-IsUnitName file_name unit h =
    let (f, e) = (service_unit_name_from_quadlet-IsFileName file_name unit).0 h in
    (validate_systemd_unit_name-IsUnitName unit).1 (
      rw e (
        stem-IsUnitName (f.first ∷ f.stem) (rw f.splits at f.short)
          (first-no_option f.first _ f.first_ne_dash) (rw f.splits at f.safe)))

-- not empty, and free of control characters
abbrev pub IsValue : Bytes → Type 0
IsValue value = (value ≢ []) × All (λ c. not (is_control c || c == 0x7f) ≡ true) value

pub safe_systemd_value-IsValue :
    (value : Bytes) → (not (safe_systemd_value value) ≡ false) ↔ IsValue value
unfolding safe_systemd_value
safe_systemd_value-IsValue value =
    let (forth, back) = all_iff (λ (c : ℕ). not (is_control c || c == 0x7f)) value in
    let (ne, ne') = is_empty_not_iff value in
    ((λ h. (ne (ground arith), forth (ground arith))), (λ (n, cs). ground (arith, ne' n, back cs)))

-- a unit that is given has a proper name
abbrev pub IsGivenUnit : Option Bytes → Type 0
IsGivenUnit none = Unit
IsGivenUnit (some unit) = IsUnitName unit

check_unit-IsGivenUnit : (unit : Option Bytes) → (check_unit unit ≡ ok tt) ↔ IsGivenUnit unit
check_unit-IsGivenUnit none = ((λ _. tt), (λ _. refl))
check_unit-IsGivenUnit (some unit) = validate_systemd_unit_name-IsUnitName unit

user_args-checks :
    (target : PodmanTarget) (command : Bytes) (unit : Option Bytes)
    → ((reject_if
            (is_empty target.user_name)
            invalid_argument
            (text "systemctl user commands require target user_name")
          >> (reject_if
                (not (safe_systemd_value command))
                invalid_argument
                (text "invalid systemctl command")
              >> check_unit unit))
        ≡ ok tt)
      ↔ ((target.user_name ≢ []) × (IsValue command × IsGivenUnit unit))
user_args-checks target command unit =
    >>-iff _ _ (↔-trans (reject_if_iff _ _ _) (is_empty_not_iff target.user_name)) (
      >>-iff _ _ (↔-trans (reject_if_iff _ _ _) (safe_systemd_value-IsValue command))
        (check_unit-IsGivenUnit unit))

-- An argument vector is built exactly for a target with a user name, a command that is not
-- empty and has no control character, and a proper name for the unit if one is given. It is
-- then systemctl for this user's manager, the command, and the unit.
pub build_systemctl_user_args_lem :
    (target : PodmanTarget) (command : Bytes) (unit : Option Bytes) (args : List Bytes)
    → (build_systemctl_user_args target command unit ≡ ok args) ↔ (
        ((target.user_name ≢ []) × (IsValue command × IsGivenUnit unit))
        × (args
            ≡ text "systemctl"
              ∷ text "--user"
              ∷ (text "--machine=" ++ target.user_name ++ text "@.host")
              ∷ command
              ∷ unit_args unit))
unfolding build_systemctl_user_args
build_systemctl_user_args_lem target command unit args = (
  (λ h.
      let (named, h1) = >>-eq-ok (reject_if (is_empty target.user_name) _ _) _ h in
      let (safe, h2) = >>-eq-ok (reject_if (not (safe_systemd_value command)) _ _) _ h1 in
      let (given, e) = >>-eq-ok (check_unit unit) _ h2 in
      ((user_args-checks target command unit).0 (rw (named, safe, given) refl), cc)),
  (λ ((named, (safe, given)), e).
      rw
        (
          (is_empty_not_iff target.user_name).1 named,
          (safe_systemd_value-IsValue command).1 safe,
          (check_unit-IsGivenUnit unit).1 given,
          e,
        )
        refl),
)
