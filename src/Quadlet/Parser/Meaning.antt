-- ===== src/Quadlet/Parser/Meaning.antt =====
-- Which values a parsed file has, and which line a refused file fails at.
pub mod Failure
use pod_installer.Base.{
  ℕ, suc, ◌+◌, ◌-◌, Bool, true, false, ◌&&◌, ◌||◌, List, [], ◌∷◌, ◌++◌, Option, none, some, ◌≡◌,
  refl, sym, ap, ◌∙◌, arith, Bytes, text, equal, find, take, drop, length, starts_with, ends_with,
  is_empty, if◌then◌else◌, append_assoc, append-nil, Bool-cases, Option-cases, inl, inr,
}
use pod_installer.Error.{Result, ok, err, reject_if, ◌>>=◌, ◌>>◌, >>=-eq-ok}
use pod_installer.Quadlet.Parsed.{ParsedQuadlet, add, values, values-add, values-nil}
use pod_installer.Quadlet.Parser.{
  Progress, trimmed_line, header_name, key_of, value_of, is_skipped, is_header, read_trimmed,
  read_line, read_header, read_assignment, start, parse_quadlet,
}
use pod_installer.Quadlet.Parser.Lines.{lines, read_lines, parse_quadlet-read_lines}

-- a line with its blanks trimmed: nothing or a comment, a header, an assignment, or neither
pub data Item : Type 0 where
  skipped malformed : Item
  headed : Bytes → Item
  assigned : Bytes → Bytes → Item

abbrev assignment_at : Bytes → Option ℕ → Item
assignment_at trimmed none = malformed
assignment_at trimmed (some eq) = assigned (key_of trimmed eq) (value_of trimmed eq)

abbrev pub item_of : Bytes → Item
item_of trimmed =
    if is_skipped trimmed
    then skipped
    else if is_header trimmed
    then headed (header_name trimmed)
    else assignment_at trimmed (find b'=' trimmed)

module _ (section key : Bytes) where
  -- what a line adds in front of the values of the lines below it, below the header `current`
  abbrev given_by : Bytes → (Bytes → List Bytes) → Item → List Bytes
  given_by current below skipped = below current
  given_by current below malformed = below current
  given_by current below (headed h) = below h
  given_by current below (assigned k v) =
      if equal current section && equal k key then v ∷ below current else below current

  -- The values that the lines of a file give to `key` below a header `[section]`, in their
  -- order. The first argument is the last header above the lines.
  abbrev pub given : Bytes → List Bytes → List Bytes
  given current [] = []
  given current (l ∷ ls) = given_by current (λ h. given h ls) (item_of (trimmed_line l))

  read_header-given :
      (p q : Progress) (trimmed : Bytes)
      → read_header p trimmed ≡ ok q
      → (q.parsed ≡ p.parsed) × (q.section ≡ header_name trimmed)
  unfolding read_header
  read_header-given p q trimmed h = ground arith

  read_assignment-given :
      (p q : Progress) (trimmed : Bytes) (o : Option ℕ) (below : Bytes → List Bytes)
      → read_assignment p trimmed o ≡ ok q
      → values q.parsed section key ++ below q.section
        ≡ values p.parsed section key ++ given_by p.section below (assignment_at trimmed o)
  unfolding read_assignment
  read_assignment-given p q trimmed none below h = cc
  read_assignment-given p q trimmed (some eq) below h =
      let k = key_of trimmed eq in
      let v = value_of trimmed eq in
      ground (
        arith,
        values-add p.section k v p.parsed section key,
        append_assoc (values p.parsed section key) (v ∷ []) (below p.section),
      )

  read_trimmed-given :
      (p q : Progress) (trimmed : Bytes) (below : Bytes → List Bytes)
      → read_trimmed p trimmed ≡ ok q
      → values q.parsed section key ++ below q.section
        ≡ values p.parsed section key ++ given_by p.section below (item_of trimmed)
  unfolding read_trimmed
  read_trimmed-given p q trimmed below h = elim (Bool-cases (is_skipped trimmed)) [
    | inl skip ↦ ground arith
    | inr more ↦ elim (Bool-cases (is_header trimmed)) [
      | inl head ↦
          let (e, f) = read_header-given p q trimmed (rw (more, head) at h) in
          rw (more, head, e, f) refl
      | inr other ↦
          rw (more, other)
            (read_assignment-given p q trimmed (find b'=' trimmed) below (rw (more, other) at h))
    ]
  ]

  read_lines-given :
      (ls : List Bytes) (p q : Progress)
      → read_lines p ls ≡ ok q
      → values q.parsed section key ≡ values p.parsed section key ++ given p.section ls
  unfolding read_line
  read_lines-given [] p q h = ground (arith, append-nil (values p.parsed section key))
  read_lines-given (l ∷ ls) p q h =
      let (r, one, later) = >>=-eq-ok (read_line p l) (λ r. read_lines r ls) h in
      read_lines-given ls r q later ∙ read_trimmed-given _ r (trimmed_line l) (λ c. given c ls) one

-- The values of a key in a parsed file are those of its lines `key=value` below headers
-- `[section]`, every one of them, in the order of the lines.
pub values-parse_quadlet :
    (contents : Bytes) (parsed : ParsedQuadlet) (section key : Bytes)
    → parse_quadlet contents ≡ ok parsed
    → values parsed section key ≡ given section key [] (lines contents)
values-parse_quadlet contents parsed section key h =
    let (q, read, e) =
      >>=-eq-ok (read_lines start (lines contents)) (λ p. ok p.parsed)
        (sym (parse_quadlet-read_lines contents) ∙ h) in
    cc (read_lines-given section key (lines contents) start q read, values-nil section key)
