-- ===== src/Quadlet/Parser/Lines.antt =====
-- The loop of `parse_quadlet` reads the lines of the file in turn.

use pod_installer.Base.{
  ℕ, zero, suc, ◌≤◌, List, [], ◌∷◌, Option, none, some, ◌≡◌, refl, arith, Bytes, find, take, drop,
  length, pieces,
}
use pod_installer.Error.{Result, ok, err, ◌>>=◌}
use pod_installer.Quadlet.Parser.{
  Progress, read_line, line_of, rest_of, parse_loop, start, parse_quadlet,
}

-- the lines of a text; a newline at the very end starts no further line
abbrev pub lines : Bytes → List Bytes
lines = pieces b'\n'

-- the lines are read in turn, up to the first that is refused
abbrev pub read_lines : Progress → List Bytes → Result Progress
read_lines p [] = ok p
read_lines p (l ∷ ls) = do q ← read_line p l; read_lines q ls

lines-none : (c : ℕ) (s : Bytes) → find b'\n' (c ∷ s) ≡ none → lines (c ∷ s) ≡ (c ∷ s) ∷ []
unfolding find
lines-none c [] h = ground arith
lines-none c (d ∷ s) h = ground (arith, lines-none d s)

lines-some :
    (s : Bytes) (n : ℕ) → find b'\n' s ≡ some n → lines s ≡ take n s ∷ lines (drop (suc n) s)
unfolding find
lines-some [] n h = cc
lines-some (c ∷ s) zero h = ground arith
lines-some (c ∷ s) (suc n) h = ground (arith, lines-some s n)

lines-cons :
    (c : ℕ) (s : Bytes) (newline : Option ℕ)
    → find b'\n' (c ∷ s) ≡ newline
    → lines (c ∷ s) ≡ line_of (c ∷ s) newline ∷ lines (rest_of (c ∷ s) newline)
lines-cons c s none h = lines-none c s h
lines-cons c s (some n) h = lines-some (c ∷ s) n h

length-drop-le : (n : ℕ) (s : Bytes) → length (drop n s) ≤ length s
length-drop-le zero s = omega arith
length-drop-le (suc n) [] = omega arith
length-drop-le (suc n) (c ∷ s) = omega (arith, length-drop-le n s)

length-rest_of : (c : ℕ) (s : Bytes) (o : Option ℕ) → length (rest_of (c ∷ s) o) ≤ length s
length-rest_of c s none = omega arith
length-rest_of c s (some n) = length-drop-le n s

-- one round: the line, and then what the remaining rounds do
round-read_lines :
    (fuel : ℕ) (rest : Bytes) (r : Result Progress)
    → ((q : Progress) → parse_loop fuel q rest ≡ some (read_lines q (lines rest)))
    → ◌≡◌ {A = Option (Result Progress)}
        (elim r [ ok q ↦ parse_loop fuel q rest | err e ↦ some (err e) ])
        (some (r >>= λ q. read_lines q (lines rest)))
round-read_lines fuel rest (ok q) later = later q
round-read_lines fuel rest (err e) later = refl

-- fuel for each byte is enough, and the loop is then the reading of the lines
parse_loop-read_lines :
    (fuel : ℕ) (p : Progress) (s : Bytes)
    → length s ≤ fuel
    → parse_loop fuel p s ≡ some (read_lines p (lines s))
unfolding parse_loop
parse_loop-read_lines fuel p [] h = refl
parse_loop-read_lines zero p (c ∷ s) h = absurd (omega arith)
parse_loop-read_lines (suc fuel) p (c ∷ s) h =
    let newline = find b'\n' (c ∷ s) in
    let rest = rest_of (c ∷ s) newline in
    rw (lines-cons c s newline refl) (
      round-read_lines fuel rest (read_line p (line_of (c ∷ s) newline))
        (λ q. parse_loop-read_lines fuel q rest (omega (arith, length-rest_of c s newline))))

-- The loop over `find` and `substr` always ends, and reads the lines of the contents in order
-- up to the first that is refused; its result is the map filled so far, or that line's error.
pub parse_quadlet-read_lines :
    (contents : Bytes)
    → parse_quadlet contents ≡ (read_lines start (lines contents) >>= λ p. ok p.parsed)
unfolding parse_quadlet
parse_quadlet-read_lines contents =
    rw (parse_loop-read_lines (length contents) start contents (omega arith)) refl
