-- ===== src/Target/Paths.antt =====
-- A name below a directory: `join` puts them together, `filename` and `parent_path` take them
-- apart.
use mathlib.Core.List.{reverse-append, reverse-reverse}
use pod_installer.Base.{
  ℕ, Bool, true, false, not, ◌==◌, ◌||◌, [], ◌∷◌, ◌++◌, reverse, ◌≡◌, ◌≢◌, refl, sym, ap, ◌∙◌,
  arith, Bytes, text, Lacks, All, All-map, All-reverse, drop_while, take_while-stops,
  drop_while-stops, append_assoc, is_empty, starts_with, ends_with, Bool-cases, inl, inr, is_digit,
}
use pod_installer.Base.Decimal.{to_string, to_string-is_digit, to_string-ne}
use pod_installer.Target.{join, filename, parent_path}

abbrev is_name_byte : ℕ → Bool
is_name_byte c = not (c == b'/')

abbrev is_slash : ℕ → Bool
is_slash c = c == b'/'

-- a directory that ends in a byte of its last name
pub record IsBare (dir : Bytes) : Type 0 where
  pub last : ℕ
  pub before : Bytes
  pub stops : reverse dir ≡ last ∷ before
  pub last_kept : is_slash last ≡ false

reverse-below :
    (dir name : Bytes) → reverse (dir ++ b'/' ∷ name) ≡ reverse name ++ b'/' ∷ reverse dir
reverse-below dir name =
    reverse-append dir (b'/' ∷ name)
    ∙ ap (λ s. s ++ reverse dir) (reverse-append (b'/' ∷ []) name)
    ∙ append_assoc (reverse name) (b'/' ∷ []) (reverse dir)

reversed-name : (name : Bytes) → Lacks b'/' name → All (λ c. is_name_byte c ≡ true) (reverse name)
reversed-name name h =
    All-map (λ c. (c == b'/') ≡ false) _ (reverse name) (λ c e. ap not e) (All-reverse _ name h)

filename-below : (dir name : Bytes) → Lacks b'/' name → filename (dir ++ b'/' ∷ name) ≡ name
unfolding filename
filename-below dir name h =
    rw
      (
        reverse-below dir name,
        take_while-stops is_name_byte (reverse name) b'/' (reverse dir) (reversed-name name h)
            (ground arith),
      )
      (reverse-reverse name)

bare_end : (dir : Bytes) (d : IsBare dir) → drop_while is_slash (reverse dir) ≡ reverse dir
bare_end dir d = rw (d.stops, d.last_kept)

reverse-ne : (dir : Bytes) (d : IsBare dir) → is_empty (reverse dir) ≡ false
reverse-ne dir d = rw d.stops

parent_path-below :
    (dir name : Bytes) → IsBare dir → Lacks b'/' name → parent_path (dir ++ b'/' ∷ name) ≡ dir
unfolding parent_path
parent_path-below dir name d h =
    rw
      (
        reverse-below dir name,
        drop_while-stops is_name_byte (reverse name) b'/' (reverse dir) (reversed-name name h)
            (ground arith),
        bare_end dir d,
        reverse-ne dir d,
      )
      (reverse-reverse dir)

join-below :
    (dir name : Bytes)
    → IsBare dir
    → starts_with name (text "/") ≡ false
    → join dir name ≡ dir ++ b'/' ∷ name
unfolding join text ends_with starts_with
join-below [] name d h = absurd (cc (d.stops))
join-below (c ∷ dir) name d h =
    rw (h, d.stops, d.last_kept) (append_assoc (c ∷ dir) (b'/' ∷ []) name)

Lacks-starts_with : (name : Bytes) → Lacks b'/' name → starts_with name (text "/") ≡ false
unfolding starts_with text
Lacks-starts_with [] h = refl
Lacks-starts_with (c ∷ name) h = ground arith

-- what is put together is taken apart again
pub join-splits :
    (dir name : Bytes)
    → IsBare dir
    → Lacks b'/' name
    → (parent_path (join dir name) ≡ dir) × (filename (join dir name) ≡ name)
join-splits dir name d h =
    rw (join-below dir name d (Lacks-starts_with name h))
      (parent_path-below dir name d h, filename-below dir name h)

digits-IsBare : (front s : Bytes) → All (λ c. is_digit c ≡ true) s → s ≢ [] → IsBare (front ++ s)
unfolding is_digit
digits-IsBare front s h ne = ended (reverse s) refl (All-reverse _ s h)
  where
    ended : (r : Bytes) → reverse s ≡ r → All (λ c. is_digit c ≡ true) r → IsBare (front ++ s)
    ended [] e all_of = absurd (ne (sym (reverse-reverse s) ∙ ap reverse e))
    ended (c ∷ r) e (hc, all_of) = record {
      last = c;
      before = r ++ reverse front;
      stops = reverse-append front s ∙ ap (λ t. t ++ reverse front) e;
      last_kept = ground arith;
    }

starts_with-digits : (s : Bytes) → All (λ c. is_digit c ≡ true) s → starts_with s (text "/") ≡ false
unfolding starts_with text is_digit
starts_with-digits [] h = refl
starts_with-digits (c ∷ s) h = ground arith

-- the directory of a number ends in a digit
pub join-to_string-IsBare : (root : Bytes) (n : ℕ) → IsBare (join root (to_string n))
unfolding join
join-to_string-IsBare root n =
    let digits = to_string-is_digit n in
    let some_digit = to_string-ne n in
    rw (starts_with-digits (to_string n) digits)
      (elim (Bool-cases (is_empty root || ends_with root (text "/"))) [
        | inl plain ↦ rw plain (digits-IsBare root (to_string n) digits some_digit)
        | inr slash ↦ rw slash (digits-IsBare (root ++ text "/") (to_string n) digits some_digit)
      ])
