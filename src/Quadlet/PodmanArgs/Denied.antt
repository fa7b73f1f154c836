-- ===== src/Quadlet/PodmanArgs/Denied.antt =====
-- What `denied_podman_arg` lets through.
use pod_installer.Base.{
  ℕ, Bool, true, false, not, ◌&&◌, ◌||◌, [], ◌∷◌, ◌++◌, ◌≡◌, refl, sym, ap, ◌∙◌, arith, Bytes, text,
  equal, starts_with, length, drop, is_space, to_lower, ◌==◌, append_assoc, append-nil, all,
}
use pod_installer.Quadlet.Strings.{lower_ascii, starts_with_option_assignment}
use pod_installer.Quadlet.QuadletPolicy.{QuadletPolicy}
use pod_installer.Quadlet.PodmanArgs.{
  Splitter, split_step, split_loop, split_finish, empty_splitter, split_podman_args, option_value,
  token_has_value, is_option, denied_part, denied_parts, denied_podman_arg,
}

-- a byte that the splitter copies: no blank, quote or backslash
abbrev pub is_word_byte : ℕ → Bool
is_word_byte c = not (c == b'\\' || c == b'\'' || c == b'"' || is_space c)

-- the splitter between tokens, with `current` of the next one read
abbrev in_word : Bytes → Splitter
in_word current = record empty_splitter { current = current }

split_step-word :
    (current : Bytes) (c : ℕ)
    → is_word_byte c ≡ true
    → split_step (in_word current) c ≡ in_word (current ++ c ∷ [])
unfolding split_step
split_step-word current c h = ground arith

split_loop-word :
    (s current : Bytes)
    → all is_word_byte s ≡ true
    → split_loop (in_word current) s ≡ in_word (current ++ s)
unfolding split_loop
split_loop-word [] current h = ap in_word (sym (append-nil current))
split_loop-word (c ∷ s) current h =
    ap (λ t. split_loop t s) (split_step-word current c (ground arith))
    ∙ split_loop-word s (current ++ c ∷ []) (ground arith)
    ∙ ap in_word (append_assoc current (c ∷ []) s)

-- a text without blanks, quotes and backslashes is one token
split_podman_args-word :
    (c : ℕ) (s : Bytes) → all is_word_byte (c ∷ s) ≡ true → split_podman_args (c ∷ s) ≡ (c ∷ s) ∷ []
unfolding split_podman_args
split_podman_args-word c s h = ap split_finish (split_loop-word (c ∷ s) [] h)

-- the start of the tests for an assignment, without the one for the size
abbrev has_assignment : Bytes → Bytes → Bool
has_assignment value option =
    starts_with value option && starts_with (drop (length option) value) (text "=")

not_assigned :
    (value option : Bytes)
    → has_assignment value option ≡ false
    → starts_with_option_assignment value option ≡ false
unfolding starts_with_option_assignment
not_assigned value option h = ground arith

is_option-other :
    (part option : Bytes)
    → equal (lower_ascii part) option ≡ false
    → has_assignment (lower_ascii part) option ≡ false
    → is_option part option ≡ false
is_option-other part option e h = ground (arith, not_assigned (lower_ascii part) option)

token_has_value-other :
    (part next option denied_value : Bytes)
    → equal (lower_ascii part) (lower_ascii option) ≡ false
    → has_assignment part option ≡ false
    → token_has_value part next option denied_value ≡ false
unfolding token_has_value option_value
token_has_value-other part next option denied_value e h = rw (not_assigned part option h, e) refl

attached_part :
    (rules : QuadletPolicy) (path : Bytes)
    → denied_part rules (b'-' ∷ b'v' ∷ b'/' ∷ path) [] ≡ false
unfolding denied_part text equal to_lower starts_with
attached_part rules path =
    let part = b'-' ∷ b'v' ∷ b'/' ∷ path in
    ground (
      arith,
      is_option-other part (text "--privileged") refl refl,
      token_has_value-other part [] (text "--network") (text "host") refl refl,
      token_has_value-other part [] (text "--net") (text "host") refl refl,
      token_has_value-other part [] (text "--pid") (text "host") refl refl,
      token_has_value-other part [] (text "--ipc") (text "host") refl refl,
      token_has_value-other part [] (text "--userns") (text "host") refl refl,
      is_option-other part (text "--device") refl refl,
      is_option-other part (text "--volume") refl refl,
      is_option-other part (text "-v") refl refl,
      is_option-other part (text "--mount") refl refl,
    )

-- Whatever the policy says of mounts, `-v` with the path of the host right behind it is let
-- through: a value `-v/path`, where the path holds no blank, quote or backslash.
pub denied_podman_arg-attached_volume :
    (rules : QuadletPolicy) (path : Bytes)
    → all is_word_byte path ≡ true
    → denied_podman_arg (text "-v/" ++ path) rules ≡ false
unfolding denied_podman_arg text denied_parts is_space
denied_podman_arg-attached_volume rules path h =
    rw (split_podman_args-word b'-' (b'v' ∷ b'/' ∷ path) (ground arith), attached_part rules path)
      refl
