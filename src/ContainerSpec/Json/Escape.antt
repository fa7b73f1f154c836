-- ===== src/ContainerSpec/Json/Escape.antt =====
-- `append_json_string` writes JSON string literals, which a JSON reader reads back.
use pod_installer.Base.{
  ℕ, zero, suc, ◌+◌, ◌-◌, ◌*◌, ◌/◌, ◌%◌, ◌<◌, ◌||◌, [], ◌∷◌, ◌++◌, Option, none, some, ◌≡◌, refl,
  sym, ap, ◌∙◌, arith, Bytes, IsBytes, ltb, ◌==◌, if◌then◌else◌, within, append_assoc, append-nil,
  is_control,
}
use pod_installer.ContainerSpec.Json.{
  json_byte, json_bytes, append_json_string, json_string, lower_hex_digit,
}
use pod_installer.ContainerSpec.Json.Value.{escaped, quoted}

json_bytes-escaped : (value out : Bytes) → json_bytes out value ≡ out ++ escaped value
unfolding json_bytes
json_bytes-escaped [] out = sym (append-nil out)
json_bytes-escaped (c ∷ value) out = simp (json_bytes-escaped value, append_assoc)

pub append_json_string-quoted :
    (out value : Bytes) → append_json_string out value ≡ out ++ quoted value
unfolding append_json_string
append_json_string-quoted out value = simp (json_bytes-escaped value, append_assoc)

pub json_string-quoted : (value : Bytes) → json_string value ≡ quoted value
unfolding json_string
json_string-quoted value = append_json_string-quoted [] value

-- A JSON reader inside a string literal. A backslash starts an escape, `\u` wants four
-- hexadecimal digits, the quote ends the literal, and a control byte is an error. Only escapes
-- of ASCII characters are read, as a byte each.
pub data Mode : Type 0 where
  plain escape : Mode
  unicode : ℕ → ℕ → Mode

simple_escape : ℕ → Option ℕ
simple_escape c =
    if c == b'"' || c == b'\\' || c == b'/'
    then some c
    else if c == b'b'
    then some 8
    else if c == b'f'
    then some 12
    else if c == b'n'
    then some b'\n'
    else if c == b'r'
    then some b'\r'
    else if c == b't'
    then some b'\t'
    else none

hex_digit_value : ℕ → Option ℕ
hex_digit_value c =
    if within b'0' b'9' c
    then some (c - b'0')
    else if within b'a' b'f' c
    then some (c - b'a' + 10)
    else if within b'A' b'F' c
    then some (c - b'A' + 10)
    else none

-- `read_string mode out rest` is the literal's value and what stands behind its closing quote;
-- the bytes `out` of the value are read already.
unfoldable pub read_string : Mode → Bytes → Bytes → Option (Bytes × Bytes)
unfolding simple_escape hex_digit_value
read_string mode out [] = none
read_string plain out (c ∷ rest) =
    let escaped_next = read_string escape out rest in
    let next = read_string plain (out ++ c ∷ []) rest in
    if c == b'"'
    then some (out, rest)
    else if c == b'\\'
    then escaped_next
    else if is_control c
    then none
    else next
read_string escape out (c ∷ rest) =
    let digits = read_string (unicode 3 0) out rest in
    if c == b'u'
    then digits
    else elim (simple_escape c) [ none ↦ none | some d ↦ read_string plain (out ++ d ∷ []) rest ]
read_string (unicode zero code) out (c ∷ rest) = elim (hex_digit_value c) [
  | none ↦ none
  | some d ↦
      if ltb (code * 16 + d) 128 then read_string plain (out ++ (code * 16 + d) ∷ []) rest else none
]
read_string (unicode (suc k) code) out (c ∷ rest) = elim (hex_digit_value c) [
  | none ↦ none
  | some d ↦ read_string (unicode k (code * 16 + d)) out rest
]

hex_digit_value-lower_hex_digit : (d : ℕ) → d < 16 → hex_digit_value (lower_hex_digit d) ≡ some d
unfolding hex_digit_value
hex_digit_value-lower_hex_digit d h = ground arith

read_string-digit :
    (k code c d : ℕ) (out rest : Bytes)
    → hex_digit_value c ≡ some d
    → read_string (unicode (suc k) code) out (c ∷ rest)
      ≡ read_string (unicode k (code * 16 + d)) out rest
read_string-digit k code c d out rest h = unfold read_string in ground arith

read_string_last_digit :
    (code c d : ℕ) (out rest : Bytes)
    → hex_digit_value c ≡ some d
    → code * 16 + d < 128
    → read_string (unicode zero code) out (c ∷ rest)
      ≡ read_string plain (out ++ (code * 16 + d) ∷ []) rest
read_string_last_digit code c d out rest h lt = unfold read_string in ground arith

read_string-unicode :
    (c : ℕ) (out rest : Bytes)
    → c < 32
    → read_string plain out
        (b'\\' ∷ b'u' ∷ b'0' ∷ b'0' ∷ lower_hex_digit (c / 16) ∷ lower_hex_digit (c % 16) ∷ rest)
      ≡ read_string plain (out ++ c ∷ []) rest
read_string-unicode c out rest h =
    let hi = hex_digit_value-lower_hex_digit (c / 16) (omega arith) in
    let lo = hex_digit_value-lower_hex_digit (c % 16) (omega arith) in
    let start : read_string plain out
          (b'\\' ∷ b'u' ∷ b'0' ∷ b'0' ∷ lower_hex_digit (c / 16) ∷ lower_hex_digit (c % 16) ∷ rest)
        ≡ read_string (unicode 1 0) out
            (lower_hex_digit (c / 16) ∷ lower_hex_digit (c % 16) ∷ rest) =
      unfold read_string in refl in
    start
    ∙ read_string-digit 0 0 (lower_hex_digit (c / 16)) (c / 16) out _ hi
    ∙ read_string_last_digit (0 * 16 + c / 16) (lower_hex_digit (c % 16)) (c % 16) out rest lo
        (omega arith)
    ∙ ap (λ (b : ℕ). read_string plain (out ++ b ∷ []) rest) (omega arith)

read_string-json_byte :
    (c : ℕ) (out rest : Bytes)
    → c < 256
    → read_string plain out (json_byte c ++ rest) ≡ read_string plain (out ++ c ∷ []) rest
unfolding json_byte read_string
read_string-json_byte c out rest h = ground (arith, read_string-unicode c out rest)

read_string-escaped :
    (value out rest : Bytes)
    → IsBytes value
    → read_string plain out (escaped value ++ b'"' ∷ rest) ≡ some (out ++ value, rest)
read_string-escaped [] out rest h = unfold read_string in rw append-nil
read_string-escaped (c ∷ value) out rest (hc, h) = rw append_assoc (
    read_string-json_byte c out (escaped value ++ b'"' ∷ rest) hc
    ∙ read_string-escaped value (out ++ c ∷ []) rest h
    ∙ rw append_assoc)

-- a whole literal, from its opening quote
unfoldable pub read_literal : Bytes → Option (Bytes × Bytes)
read_literal [] = none
read_literal (c ∷ rest) = if c == b'"' then read_string plain [] rest else none

-- Whatever bytes a string has, quotes, backslashes and control bytes among them, a JSON reader
-- reads exactly these bytes back from what is written for it, and stops where it ends: no
-- value closes its literal early.
pub read_literal-json_string :
    (value rest : Bytes)
    → IsBytes value
    → read_literal (json_string value ++ rest) ≡ some (value, rest)
unfolding read_literal
read_literal-json_string value rest h =
    rw (json_string-quoted, append_assoc) (read_string-escaped value [] rest h)
