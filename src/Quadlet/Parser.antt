-- ===== src/Quadlet/Parser.antt =====
-- `parse_quadlet` of src/quadlet.cpp.
pub mod Lines
pub mod Meaning
use mathlib.Core.Option.{get_or}
use pod_installer.Base.{
  ℕ, zero, suc, ◌+◌, ◌-◌, Bool, true, false, ◌&&◌, ◌||◌, List, [], ◌∷◌, ◌++◌, Option, none, some,
  Bytes, String, text, find, take, drop, length, starts_with, ends_with, is_empty, if◌then◌else◌,
}
use pod_installer.Base.Decimal.{to_string}
use pod_installer.Error.{Result, ok, err, fail, invalid_argument, reject_if, ◌>>=◌, ◌>>◌}
use pod_installer.Quadlet.Strings.{trim}
use pod_installer.Quadlet.Parsed.{ParsedQuadlet, add}

-- The variables of the loop but `contents`. `line_no` counts the lines read.
pub record Progress : Type 0 where
  pub parsed : ParsedQuadlet
  pub section : Bytes
  pub line_no : ℕ

-- the removal of a carriage return at the end, and the trim
unfoldable pub trimmed_line : Bytes → Bytes
trimmed_line line = trim (if ends_with line (text "\r") then take (length line - 1) line else line)

unfoldable pub at_line : String → ℕ → Bytes
at_line message line_no = text message ++ to_string line_no

-- the name between the brackets, and the two sides of the '=' at `eq`
abbrev pub header_name : Bytes → Bytes
header_name trimmed = trim (take (length trimmed - 2) (drop 1 trimmed))

abbrev pub key_of : Bytes → ℕ → Bytes
key_of trimmed eq = trim (take eq trimmed)

abbrev pub value_of : Bytes → ℕ → Bytes
value_of trimmed eq = trim (drop (suc eq) trimmed)

-- a line `[section]`
read_header : Progress → Bytes → Result Progress
read_header p trimmed = do
  let section = header_name trimmed
  reject_if (is_empty section) invalid_argument
      (at_line "empty section name in Quadlet at line " p.line_no)
  ok (record p { section = section })

-- a line `key=value`, of which `find` has looked for the '='
read_assignment : Progress → Bytes → Option ℕ → Result Progress
read_assignment p trimmed none =
    fail invalid_argument (at_line "expected key=value in Quadlet at line " p.line_no)
read_assignment p trimmed (some eq) = do
  reject_if (is_empty p.section) invalid_argument
      (at_line "Quadlet key appears before any section at line " p.line_no)
  let key = key_of trimmed eq
  let value = value_of trimmed eq
  reject_if (is_empty key) invalid_argument (at_line "empty key in Quadlet at line " p.line_no)
  ok (record p { parsed = add p.section key value p.parsed })

unfoldable pub is_skipped : Bytes → Bool
is_skipped trimmed =
    is_empty trimmed || starts_with trimmed (text "#") || starts_with trimmed (text ";")

unfoldable pub is_header : Bytes → Bool
is_header trimmed = starts_with trimmed (text "[") && ends_with trimmed (text "]")

-- the body of the loop behind the trim
unfoldable pub read_trimmed : Progress → Bytes → Result Progress
unfolding read_header read_assignment
read_trimmed p trimmed =
    if is_skipped trimmed
    then ok p
    else if is_header trimmed
    then read_header p trimmed
    else read_assignment p trimmed (find b'=' trimmed)

-- the body of the loop on a line
unfoldable pub read_line : Progress → Bytes → Result Progress
read_line p line = read_trimmed (record p { line_no = p.line_no + 1 }) (trimmed_line line)

-- `contents.substr(0, newline)` and what is left of `contents`
abbrev pub line_of : Bytes → Option ℕ → Bytes
line_of contents none = contents
line_of contents (some newline) = take newline contents

abbrev pub rest_of : Bytes → Option ℕ → Bytes
rest_of contents none = []
rest_of contents (some newline) = drop (suc newline) contents

-- `while (!contents.empty())`. Each round takes a byte at least; `none` is out of fuel.
pub parse_loop : ℕ → Progress → Bytes → Option (Result Progress)
parse_loop fuel p [] = some (ok p)
parse_loop zero p (c ∷ cs) = none
parse_loop (suc fuel) p (c ∷ cs) =
    let newline = find b'\n' (c ∷ cs) in
    elim (read_line p (line_of (c ∷ cs) newline)) [
      | ok q ↦ parse_loop fuel q (rest_of (c ∷ cs) newline)
      | err e ↦ some (err e)
    ]

abbrev pub start : Progress
start = record { parsed = []; section = []; line_no = 0 }

-- the fuel is the size of the contents
unfoldable pub parse_quadlet : Bytes → Result ParsedQuadlet
unfolding parse_loop read_line read_trimmed trimmed_line is_skipped is_header
parse_quadlet contents = do
  p ← get_or (parse_loop (length contents) start contents) (ok start)
  ok p.parsed
