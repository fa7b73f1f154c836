-- ===== src/Quadlet/Parser/Meaning/Failure.antt =====
-- The line that `parse_quadlet` names in its error.
use pod_installer.Base.{
  ℕ, ◌+◌, true, List, [], ◌∷◌, ◌++◌, Option, none, some, ◌≡◌, refl, ap, ◌∙◌, arith, Bytes, String,
  find, length, is_empty, Bool-cases, inl, inr,
}
use pod_installer.Error.{Error, ok, err, make_error, invalid_argument, >>=-eq-err}
use pod_installer.Quadlet.Parser.{
  Progress, trimmed_line, key_of, header_name, is_skipped, is_header, read_trimmed, read_line,
  read_header, read_assignment, at_line, start, parse_quadlet,
}
use pod_installer.Quadlet.Parser.Lines.{lines, read_lines, parse_quadlet-read_lines}

-- what is wrong with a trimmed line below the header `section`
pub data Fault (section : Bytes) (trimmed : Bytes) : Type 0 where
  empty_section : is_header trimmed ≡ true → header_name trimmed ≡ [] → Fault section trimmed
  no_equals : find b'=' trimmed ≡ none → Fault section trimmed
  no_section : section ≡ [] → Fault section trimmed
  empty_key :
      (eq : ℕ) → find b'=' trimmed ≡ some eq → key_of trimmed eq ≡ [] → Fault section trimmed

-- The file splits at the line that is refused. The lines before it are read, the line has one
-- of the four faults, and the error names its number, counted from 1.
pub record FailsAt (contents : Bytes) (e : Error) : Type 0 where
  pub before : List Bytes
  pub line : Bytes
  pub after : List Bytes
  pub last : Progress
  pub message : String
  pub splits : lines contents ≡ before ++ line ∷ after
  pub reads : read_lines start before ≡ ok last
  pub fault : Fault last.section (trimmed_line line)
  pub named : e ≡ make_error invalid_argument (at_line message (length before + 1))

is_empty-eq_nil : (s : Bytes) → is_empty s ≡ true → s ≡ []
is_empty-eq_nil [] h = refl
is_empty-eq_nil (c ∷ s) h = cc

-- a refused line has a fault, and the error names the line's number
abbrev Refused : Progress → Bytes → Error → Type 0
Refused p trimmed e =
    (message : String) × Fault p.section trimmed
    × (e ≡ make_error invalid_argument (at_line message p.line_no))

read_header-Refused :
    (p : Progress) (trimmed : Bytes) (e : Error)
    → is_header trimmed ≡ true
    → read_header p trimmed ≡ err e
    → Refused p trimmed e
unfolding read_header
read_header-Refused p trimmed e head h = (
  "empty section name in Quadlet at line ",
  empty_section head (is_empty-eq_nil (header_name trimmed) (ground arith)),
  ground arith,
)

read_assignment-Refused :
    (p : Progress) (trimmed : Bytes) (o : Option ℕ) (e : Error)
    → find b'=' trimmed ≡ o
    → read_assignment p trimmed o ≡ err e
    → Refused p trimmed e
unfolding read_assignment
read_assignment-Refused p trimmed none e found h =
    ("expected key=value in Quadlet at line ", no_equals found, ground arith)
read_assignment-Refused p trimmed (some eq) e found h = elim (Bool-cases (is_empty p.section)) [
  | inl none_yet ↦ (
    "Quadlet key appears before any section at line ",
    no_section (is_empty-eq_nil p.section none_yet),
    ground arith,
  )
  | inr below ↦ (
    "empty key in Quadlet at line ",
    empty_key eq found (is_empty-eq_nil (key_of trimmed eq) (ground arith)),
    ground arith,
  )
]

read_trimmed-Refused :
    (p : Progress) (trimmed : Bytes) (e : Error)
    → read_trimmed p trimmed ≡ err e
    → Refused p trimmed e
unfolding read_trimmed
read_trimmed-Refused p trimmed e h = elim (Bool-cases (is_skipped trimmed)) [
  | inl skip ↦ absurd (ground arith)
  | inr more ↦ elim (Bool-cases (is_header trimmed)) [
    | inl head ↦ read_header-Refused p trimmed e head (rw (more, head) at h)
    | inr other ↦
        read_assignment-Refused p trimmed (find b'=' trimmed) e refl (rw (more, other) at h)
  ]
]

read_trimmed-line_no :
    (p q : Progress) (trimmed : Bytes) → read_trimmed p trimmed ≡ ok q → q.line_no ≡ p.line_no
unfolding read_trimmed read_header read_assignment
read_trimmed-line_no p q trimmed h = ground arith

module _ (p : Progress) (e : Error) where
  -- the place in `ls` at which reading from `p` stops
  record StopsAt (ls : List Bytes) : Type 0 where
    before : List Bytes
    line : Bytes
    after : List Bytes
    last : Progress
    message : String
    splits : ls ≡ before ++ line ∷ after
    reads : read_lines p before ≡ ok last
    fault : Fault last.section (trimmed_line line)
    named : e ≡ make_error invalid_argument (at_line message (p.line_no + length before + 1))

StopsAt-here :
    (p : Progress) (e : Error) (l : Bytes) (ls : List Bytes)
    → read_line p l ≡ err e
    → StopsAt p e (l ∷ ls)
unfolding read_line
StopsAt-here p e l ls h =
    let (message, fault, named) = read_trimmed-Refused _ (trimmed_line l) e h in
    record {
      before = [];
      line = l;
      after = ls;
      last = p;
      message = message;
      splits = refl;
      reads = refl;
      fault = fault;
      named = named ∙ ap (λ n. make_error invalid_argument (at_line message n)) (omega arith);
    }

StopsAt-cons :
    (p q : Progress) (e : Error) (l : Bytes) (ls : List Bytes)
    → read_line p l ≡ ok q
    → StopsAt q e ls
    → StopsAt p e (l ∷ ls)
unfolding read_line
StopsAt-cons p q e l ls h s = record {
  before = l ∷ s.before;
  line = s.line;
  after = s.after;
  last = s.last;
  message = s.message;
  splits = ap (◌∷◌ l) s.splits;
  reads = rw h s.reads;
  fault = s.fault;
  named =
      s.named
      ∙ ap (λ n. make_error invalid_argument (at_line s.message n))
          (omega (arith, read_trimmed-line_no _ q (trimmed_line l) h));
}

read_lines-StopsAt :
    (ls : List Bytes) (p : Progress) (e : Error) → read_lines p ls ≡ err e → StopsAt p e ls
read_lines-StopsAt [] p e h = cc
read_lines-StopsAt (l ∷ ls) p e h = elim (>>=-eq-err (read_line p l) (λ q. read_lines q ls) h) [
  | inl here ↦ StopsAt-here p e l ls here
  | inr (q, one, later) ↦ StopsAt-cons p q e l ls one (read_lines-StopsAt ls q e later)
]

-- A file that is refused fails at one of its lines: those before it are read, it has a fault,
-- and the error is an `invalid_argument` that names its number, counted from 1.
pub parse_quadlet-FailsAt :
    (contents : Bytes) (e : Error) → parse_quadlet contents ≡ err e → FailsAt contents e
parse_quadlet-FailsAt contents e h =
    let s =
      read_lines-StopsAt (lines contents) start e
        (ground (arith, parse_quadlet-read_lines contents)) in
    record {
      before = s.before;
      line = s.line;
      after = s.after;
      last = s.last;
      message = s.message;
      splits = s.splits;
      reads = s.reads;
      fault = s.fault;
      named = s.named ∙ ap (λ n. make_error invalid_argument (at_line s.message n)) (omega arith);
    }
