-- ===== src/Base/Texts.antt =====
-- `std::string` and `std::string_view` as lists of bytes.
use Prim.Native.Nat.{ℕ, zero, suc, ◌<◌}
use Prim.Native.Char.{code}
use Prim.Native.String.{String}
use mathlib.Core.Path.{◌≡◌, refl, sym, ap, ◌∙◌}
use mathlib.Core.Logic.{◌↔◌}
use mathlib.Core.Bool.{Bool, true, false, ◌&&◌, ◌||◌}
use mathlib.Core.Option
use mathlib.Core.Option.{Option, none, some}
use mathlib.Core.List.{List, [], ◌∷◌, ◌++◌, reverse, reverse-append, reverse-reverse}
use native.Mathlib.Omega.{arith}
use pod_installer.Base.Tests.{ltb, ◌==◌, if◌then◌else◌}
use pod_installer.Base.Lists.{length, take, drop, All}

abbrev pub Bytes : Type 0
Bytes = List ℕ

-- a literal of the source; all of them are ASCII
unfoldable pub text : String → Bytes
text String.[] = []
text (String.◌∷◌ c s) = code c ∷ text s

-- `operator==` of strings
unfoldable pub equal : Bytes → Bytes → Bool
equal (c ∷ s) (d ∷ t) = c == d && equal s t
equal [] [] = true
equal _ _ = false

pub equal_iff : (s t : Bytes) → (equal s t ≡ true) ↔ (s ≡ t)
unfolding equal
equal_iff (c ∷ s) (d ∷ t) = let tails = equal_iff s t in ground arith
equal_iff _ _ = ground arith

pub equal_refl : (s : Bytes) → equal s s ≡ true
equal_refl s = (equal_iff s s).1 refl

-- `s.starts_with(p)`
unfoldable pub starts_with : Bytes → Bytes → Bool
starts_with s [] = true
starts_with [] (y ∷ ys) = false
starts_with (x ∷ xs) (y ∷ ys) = x == y && starts_with xs ys

-- `s.ends_with(p)`
unfoldable pub ends_with : Bytes → Bytes → Bool
unfolding starts_with
ends_with s p = starts_with (reverse s) (reverse p)

-- `s.find(c)`, `none` for `npos`
unfoldable pub find : ℕ → Bytes → Option ℕ
find c [] = none
find c (x ∷ xs) = if x == c then some 0 else Option.map suc (find c xs)

-- `s.find(t) != npos`
unfoldable pub contains_text : Bytes → Bytes → Bool
unfolding starts_with
contains_text [] t = starts_with [] t
contains_text (c ∷ s) t = starts_with (c ∷ s) t || contains_text s t

abbrev cons_first : ℕ → List Bytes → List Bytes
cons_first c [] = (c ∷ []) ∷ []
cons_first c (l ∷ ls) = (c ∷ l) ∷ ls

-- what the calls of `std::getline(in, part, delim)` read one after another
abbrev pub pieces : ℕ → Bytes → List Bytes
pieces delim [] = []
pieces delim (c ∷ s) =
    let rest = pieces delim s in if c == delim then [] ∷ rest else cons_first c rest

-- `operator<` of strings
unfoldable pub less : Bytes → Bytes → Bool
less [] [] = false
less [] (y ∷ ys) = true
less (x ∷ xs) [] = false
less (x ∷ xs) (y ∷ ys) = if x == y then less xs ys else ltb x y

abbrev pub Lacks : ℕ → Bytes → Type 0
Lacks c = All (λ x. (x == c) ≡ false)

-- the bytes of a C++ string
abbrev pub IsBytes : Bytes → Type 0
IsBytes = All (λ x. x < 256)

-- what `find` returns splits the text at the first occurrence
pub find-eq-some :
    (c : ℕ) (s : Bytes) {n : ℕ}
    → find c s ≡ some n
    → (s ≡ take n s ++ c ∷ drop (suc n) s) × Lacks c (take n s)
unfolding find
find-eq-some c [] h = cc
find-eq-some c (x ∷ xs) {n = zero} h = ground arith
find-eq-some c (x ∷ xs) {n = suc n} h = ground (arith, find-eq-some c xs {n = n})

pub find-eq-none : (c : ℕ) (s : Bytes) → find c s ≡ none → Lacks c s
unfolding find
find-eq-none c [] h = tt
find-eq-none c (x ∷ xs) h = ground (arith, find-eq-none c xs)

pub find-Lacks : (c : ℕ) (s : Bytes) → Lacks c s → find c s ≡ none
unfolding find
find-Lacks c [] h = refl
find-Lacks c (x ∷ xs) h = ground (arith, find-Lacks c xs)

-- a text in front of the first `c` is where `find` stops
pub find-append : (c : ℕ) (s t : Bytes) → Lacks c s → find c (s ++ c ∷ t) ≡ some (length s)
unfolding find
find-append c [] t h = ground arith
find-append c (x ∷ xs) t h = ground (arith, find-append c xs t)

-- a text in front of the first `delim` is the first piece
pub pieces-append :
    (delim : ℕ) (s rest : Bytes)
    → Lacks delim s
    → pieces delim (s ++ delim ∷ rest) ≡ s ∷ pieces delim rest
pieces-append delim [] rest h = let e : (delim == delim) ≡ true = ground arith in rw e
pieces-append delim (c ∷ s) rest (one, h) = rw (pieces-append delim s rest h, one) refl

-- and so is one that is the whole, but for an empty one
pub pieces-Lacks :
    (delim c : ℕ) (s : Bytes) → Lacks delim (c ∷ s) → pieces delim (c ∷ s) ≡ (c ∷ s) ∷ []
pieces-Lacks delim c [] (one, h) = rw one
pieces-Lacks delim c (d ∷ s) (one, h) = rw (pieces-Lacks delim d s h, one)

pub starts_with-append : (p s : Bytes) → starts_with (p ++ s) p ≡ true
unfolding starts_with
starts_with-append [] [] = refl
starts_with-append [] (x ∷ s) = refl
starts_with-append (x ∷ p) s = ground (arith, starts_with-append p s)

pub starts_with-split : (s p : Bytes) → starts_with s p ≡ true → s ≡ p ++ drop (length p) s
unfolding starts_with
starts_with-split [] [] h = refl
starts_with-split (x ∷ s) [] h = refl
starts_with-split [] (y ∷ p) h = cc
starts_with-split (x ∷ s) (y ∷ p) h = ground (arith, starts_with-split s p)

-- a text that ends in `p` is a front part and `p`
pub ends_with-split : (s p : Bytes) → ends_with s p ≡ true → (front : Bytes) × (s ≡ front ++ p)
unfolding ends_with
ends_with-split s p h =
    let rest = drop (length (reverse p)) (reverse s) in
    (
      reverse rest,
      sym (reverse-reverse s)
          ∙ ap reverse (starts_with-split (reverse s) (reverse p) h)
          ∙ reverse-append (reverse p) rest
          ∙ ap (λ q. reverse rest ++ q) (reverse-reverse p),
    )

pub ends_with-append : (s p : Bytes) → ends_with (s ++ p) p ≡ true
unfolding ends_with
ends_with-append s p = rw reverse-append (starts_with-append (reverse p) (reverse s))
