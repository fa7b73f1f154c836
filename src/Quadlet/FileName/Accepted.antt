-- ===== src/Quadlet/FileName/Accepted.antt =====
-- Which file names `validate_quadlet_file_name` accepts.
use pod_installer.Base.{
  ℕ, ◌≤◌, true, false, ◌||◌, [], ◌∷◌, ◌++◌, ◌≡◌, ◌≢◌, ◌↔◌, refl, arith, Bytes, text, equal, length,
  is_empty, starts_with, ends_with, ends_with-split, ends_with-append, all, is_control, ◌==◌,
}
use pod_installer.Error.{ok}
use pod_installer.Quadlet.Strings.{contains_control_or_slash, safe_unit_file_char}
use pod_installer.Quadlet.FileName.{is_hidden_or_option, validate_quadlet_file_name}

-- A stem that is not empty and does not begin with '.' or '-', then ".container"; at most 255
-- bytes, each a letter, a digit, '_', '-', '.' or '@'.
pub record IsFileName (file_name : Bytes) : Type 0 where
  pub first : ℕ
  pub stem : Bytes
  pub splits : file_name ≡ first ∷ stem ++ text ".container"
  pub first_ne_dot : first ≢ b'.'
  pub first_ne_dash : first ≢ b'-'
  pub short : length file_name ≤ 255
  pub safe : all safe_unit_file_char file_name ≡ true

safe_unit_file_char-not_control :
    (c : ℕ) → safe_unit_file_char c ≡ true → (is_control c || c == 0x7f || c == b'/') ≡ false
unfolding safe_unit_file_char
safe_unit_file_char-not_control c h = ground arith

contains_control_or_slash-of_safe :
    (s : Bytes) → all safe_unit_file_char s ≡ true → contains_control_or_slash s ≡ false
unfolding contains_control_or_slash
contains_control_or_slash-of_safe [] h = refl
contains_control_or_slash-of_safe (c ∷ s) h =
    ground (arith, safe_unit_file_char-not_control c, contains_control_or_slash-of_safe s)

is_hidden_or_option-cons :
    (c : ℕ) (s : Bytes) → c ≢ b'.' → c ≢ b'-' → is_hidden_or_option (c ∷ s) ≡ false
unfolding is_hidden_or_option equal starts_with text
is_hidden_or_option-cons c s ne_dot ne_dash = ground arith

is_hidden_or_option-first :
    (c : ℕ) (s : Bytes) → is_hidden_or_option (c ∷ s) ≡ false → (c ≢ b'.') × (c ≢ b'-')
unfolding is_hidden_or_option equal starts_with text
is_hidden_or_option-first c [] h = ground arith
is_hidden_or_option-first c (d ∷ s) h = ground arith

IsFileName-of_split :
    (file_name front : Bytes)
    → file_name ≡ front ++ text ".container"
    → length file_name ≤ 255
    → is_hidden_or_option file_name ≡ false
    → all safe_unit_file_char file_name ≡ true
    → IsFileName file_name
IsFileName-of_split file_name [] e short hidden safe =
    absurd (unfold text in (is_hidden_or_option-first b'.' _ (rw e at hidden)).0 refl)
IsFileName-of_split file_name (c ∷ front) e short hidden safe =
    let (ne_dot, ne_dash) = is_hidden_or_option-first c _ (rw e at hidden) in
    record {
      first = c;
      stem = front;
      splits = e;
      first_ne_dot = ne_dot;
      first_ne_dash = ne_dash;
      short = short;
      safe = safe;
    }

-- the five tests, all of which an accepted name passes
pub validate_quadlet_file_name-tests :
    (file_name : Bytes)
    → (validate_quadlet_file_name file_name ≡ ok tt) ↔ (
        (is_empty file_name ≡ false)
        × (length file_name ≤ 255)
        × (is_hidden_or_option file_name ≡ false)
        × (contains_control_or_slash file_name ≡ false)
        × (all safe_unit_file_char file_name ≡ true)
        × (ends_with file_name (text ".container") ≡ true))
unfolding validate_quadlet_file_name
validate_quadlet_file_name-tests file_name = (λ h. ground arith, λ t. ground arith)

IsFileName-tests :
    (file_name : Bytes)
    → IsFileName file_name
    → (is_hidden_or_option file_name ≡ false) × (ends_with file_name (text ".container") ≡ true)
IsFileName-tests file_name f = (
  rw f.splits (is_hidden_or_option-cons f.first _ f.first_ne_dot f.first_ne_dash),
  rw f.splits (ends_with-append (f.first ∷ f.stem) (text ".container")),
)

-- A file name is accepted exactly when it is a non-empty stem and ".container", begins neither
-- with '.' nor with '-', has at most 255 bytes, and holds only letters, digits and "_-.@".
pub validate_quadlet_file_name-IsFileName :
    (file_name : Bytes) → (validate_quadlet_file_name file_name ≡ ok tt) ↔ IsFileName file_name
validate_quadlet_file_name-IsFileName file_name = (
  (λ h.
      let (_, short, hidden, _, safe, suffix) = (validate_quadlet_file_name-tests file_name).0 h in
      let (front, e) = ends_with-split file_name (text ".container") suffix in
      IsFileName-of_split file_name front e short hidden safe),
  λ f.
      let (shown, suffix) = IsFileName-tests file_name f in
      (validate_quadlet_file_name-tests file_name).1 (
        rw f.splits refl,
        f.short,
        shown,
        contains_control_or_slash-of_safe file_name f.safe,
        f.safe,
        suffix,
      ),
)
