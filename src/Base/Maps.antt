-- ===== src/Base/Maps.antt =====
-- `std::map<std::string, V>`: its pairs in the order of the keys.
use mathlib.Core.Path.{◌≡◌, refl, sym}
use mathlib.Core.Bool.{Bool, true, false}
use mathlib.Core.Logic.{inl, inr}
use mathlib.Core.Option
use mathlib.Core.Option.{Option, none, some, get_or}
use mathlib.Core.List.{List, [], ◌∷◌}
use native.Mathlib.Omega.{arith}
use pod_installer.Base.Tests.{if◌then◌else◌, Bool-cases}
use pod_installer.Base.Texts.{Bytes, equal, equal_iff, less}

abbrev pub Map {ℓ} : Type ℓ → Type ℓ
Map V = List (Bytes × V)

module _ {ℓ} {V : Type ℓ} where
  -- `find(k)`
  unfoldable pub lookup : Bytes → Map V → Option V
  lookup k [] = none
  lookup k ((j, v) ∷ m) = if equal j k then some v else lookup k m

  unfoldable pub contains : Bytes → Map V → Bool
  contains k [] = false
  contains k ((j, v) ∷ m) = if equal j k then true else contains k m

  replace : Bytes → (V → V) → Map V → Map V
  replace k f [] = []
  replace k f ((j, v) ∷ m) = if equal j k then (j, f v) ∷ m else (j, v) ∷ replace k f m

  place : Bytes → V → Map V → Map V
  place k w [] = (k, w) ∷ []
  place k w ((j, v) ∷ m) = if less k j then (k, w) ∷ (j, v) ∷ m else (j, v) ∷ place k w m

  -- `f` applied in place to `map[k]`, which is made from `fresh` where the key is new
  unfoldable pub modify : Bytes → V → (V → V) → Map V → Map V
  unfolding contains replace place
  modify k fresh f m = if contains k m then replace k f m else place k (f fresh) m

  pub lookup-of_not_contains : (k : Bytes) (m : Map V) → contains k m ≡ false → lookup k m ≡ none
  unfolding lookup contains
  lookup-of_not_contains k [] h = refl
  lookup-of_not_contains k ((j, v) ∷ m) h = ground (arith, lookup-of_not_contains k m)

  pub lookup-of_contains :
      (k : Bytes) (m : Map V) → contains k m ≡ true → (v : V) × (lookup k m ≡ some v)
  unfolding lookup contains
  lookup-of_contains k [] h = cc
  lookup-of_contains k ((j, v) ∷ m) h = elim (Bool-cases (equal j k)) [
    | inl same ↦ (v, rw same)
    | inr other ↦ rw other (lookup-of_contains k m (rw other at h))
  ]

  lookup-replace :
      (j k : Bytes) (f : V → V) (m : Map V)
      → lookup j (replace k f m) ≡ (if equal k j then Option.map f (lookup k m) else lookup j m)
  unfolding lookup replace
  lookup-replace j k f [] = ground arith
  lookup-replace j k f ((i, v) ∷ m) =
      ground (arith, equal_iff i k, equal_iff i j, equal_iff k j, lookup-replace j k f m)

  lookup-place :
      (j k : Bytes) (w : V) (m : Map V)
      → contains k m ≡ false
      → lookup j (place k w m) ≡ (if equal k j then some w else lookup j m)
  unfolding lookup contains place
  lookup-place j k w [] h = refl
  lookup-place j k w ((i, v) ∷ m) h =
      ground (arith, equal_iff i k, equal_iff i j, equal_iff k j, lookup-place j k w m)

  -- `map[k]` changes and every other key keeps what it had
  pub lookup-modify :
      (j k : Bytes) (fresh : V) (f : V → V) (m : Map V)
      → lookup j (modify k fresh f m)
        ≡ (if equal k j then some (f (get_or (lookup k m) fresh)) else lookup j m)
  unfolding modify
  lookup-modify j k fresh f m = elim (Bool-cases (contains k m)) [
    | inl old ↦ let (v, found) = lookup-of_contains k m old in rw (old, lookup-replace, found) refl
    | inr new ↦ rw (new, lookup-place j k (f fresh) m new, lookup-of_not_contains k m new) refl
  ]

  contains-replace :
      (j k : Bytes) (f : V → V) (m : Map V) → contains j (replace k f m) ≡ contains j m
  unfolding contains replace
  contains-replace j k f [] = refl
  contains-replace j k f ((i, v) ∷ m) = ground (arith, contains-replace j k f m)

  contains-place :
      (j k : Bytes) (w : V) (m : Map V)
      → contains j (place k w m) ≡ (if equal k j then true else contains j m)
  unfolding contains place
  contains-place j k w [] = refl
  contains-place j k w ((i, v) ∷ m) = ground (arith, contains-place j k w m)

  contains_same :
      (j k : Bytes) (m : Map V) → equal k j ≡ true → contains k m ≡ true → contains j m ≡ true
  contains_same j k m e h = rw e' h
    where
      e' : j ≡ k
      e' = sym ((equal_iff k j).0 e)

  -- the key is there afterwards, and no other comes or goes
  pub contains-modify :
      (j k : Bytes) (fresh : V) (f : V → V) (m : Map V)
      → contains j (modify k fresh f m) ≡ (if equal k j then true else contains j m)
  unfolding modify
  contains-modify j k fresh f m =
      ground (arith, contains-replace j k f m, contains-place j k (f fresh) m, contains_same j k m)
