-- ===== src/System.antt =====
-- System calls, which are parameters: what they return or the errno that they fail with, and the
-- calls on files that the sources make.
use pod_installer.Base.{ℕ, Bytes, ◌≡◌, refl}
use pod_installer.Base.Int.{ℤ}
use pod_installer.Error.{Error, Result, ok, err}
use pod_installer.World.{Action, Effect, Relates}

pub data Outcome (A : Type 0) : Type 0 where
  returned : A → Outcome A
  failed : ℕ → Outcome A

abbrev pub enoent : ℕ
enoent = 2

abbrev pub eintr : ℕ
eintr = 4

abbrev pub eexist : ℕ
eexist = 17

-- the type bits of `st_mode`
pub data FileKind : Type 0 where
  regular_file real_directory symbolic_link socket_file other_file : FileKind

-- `struct stat`; `permissions` are the low bits of `st_mode`
pub record Stat : Type 0 where
  pub kind : FileKind
  pub uid : ℕ
  pub gid : ℕ
  pub permissions : ℕ
  pub size : ℤ

-- The flags of each `open` stand in its name. `interruptions` bounds how many reads and writes
-- are interrupted by a signal from a state on.
pub record Files (S : Type 0) : Type 0 where
  pub create_directories : Bytes → S → Outcome (Unit {0}) × S
  pub lstat : Bytes → S → Outcome Stat × S
  pub fstat : ℕ → S → Outcome Stat × S
  pub chmod : Bytes → ℕ → S → Outcome (Unit {0}) × S
  pub open_directory : Bytes → S → Outcome ℕ × S
  pub open_no_follow : Bytes → S → Outcome ℕ × S
  pub create_exclusive : ℕ → Bytes → ℕ → S → Outcome ℕ × S
  pub write : ℕ → Bytes → S → Outcome ℕ × S
  pub read : ℕ → ℕ → S → Outcome Bytes × S
  pub fsync : ℕ → S → Outcome (Unit {0}) × S
  pub renameat : ℕ → Bytes → Bytes → S → Outcome (Unit {0}) × S
  pub unlinkat : ℕ → Bytes → S → Outcome (Unit {0}) × S
  pub close : ℕ → Effect S
  pub getpid : S → ℕ
  pub strerror : ℕ → Bytes
  pub interruptions : S → ℕ

module _ {S A : Type 0} where
  abbrev pub attempted : (ℕ → Error) → Outcome A × S → Result A × S
  attempted failure (returned a, s) = (ok a, s)
  attempted failure (failed errno, s) = (err (failure errno), s)

  -- `if (call < 0) return std::unexpected(failure(errno));`
  abbrev pub attempt : (ℕ → Error) → (S → Outcome A × S) → Action S A
  attempt failure call s = attempted failure (call s)

  abbrev pub cleaned : Effect S → Result A × S → Result A × S
  cleaned clean (ok a, s) = (ok a, s)
  cleaned clean (err e, s) = (err e, clean s)

  -- what is done behind an error alone
  abbrev pub cleaning : Effect S → Action S A → Action S A
  cleaning clean call s = cleaned clean (call s)

module _ {S A : Type 0} (Q : Result A × S → Type 0) where
  -- what holds of both outcomes of a system call holds behind its `attempt`
  attempted-rule :
      (failure : ℕ → Error) (r o : Outcome A × S)
      → r ≡ o
      → ((a : A) (t : S) → r ≡ (returned a, t) → Q (ok a, t))
      → ((errno : ℕ) (t : S) → r ≡ (failed errno, t) → Q (err (failure errno), t))
      → Q (attempted failure o)
  attempted-rule failure r (returned a, t) e f g = f a t e
  attempted-rule failure r (failed errno, t) e f g = g errno t e

  pub attempt-rule :
      (failure : ℕ → Error) (call : S → Outcome A × S) (s : S)
      → ((a : A) (t : S) → call s ≡ (returned a, t) → Q (ok a, t))
      → ((errno : ℕ) (t : S) → call s ≡ (failed errno, t) → Q (err (failure errno), t))
      → Q (attempt failure call s)
  attempt-rule failure call s f g = attempted-rule failure (call s) (call s) refl f g

module _ {S A : Type 0} (P Q : Result A × S → Type 0) where
  cleaned-ensures :
      (clean : Effect S) (o : Result A × S)
      → P o
      → ((a : A) (t : S) → P (ok a, t) → Q (ok a, t))
      → ((e : Error) (t : S) → P (err e, t) → Q (err e, clean t))
      → Q (cleaned clean o)
  cleaned-ensures clean (ok a, t) p f g = f a t p
  cleaned-ensures clean (err e, t) p f g = g e t p

  pub cleaning-ensures :
      (clean : Effect S) (call : Action S A) (s : S)
      → P (call s)
      → ((a : A) (t : S) → P (ok a, t) → Q (ok a, t))
      → ((e : Error) (t : S) → P (err e, t) → Q (err e, clean t))
      → Q (cleaning clean call s)
  cleaning-ensures clean call s p f g = cleaned-ensures clean (call s) p f g

-- the same where only the state behind the call matters
module _ {S A : Type 0} (P : S → Type 0) (Q : Result A × S → Type 0) where
  attempted-ends :
      (failure : ℕ → Error) (o : Outcome A × S)
      → P o.1
      → ((a : A) (t : S) → P t → Q (ok a, t))
      → ((errno : ℕ) (t : S) → P t → Q (err (failure errno), t))
      → Q (attempted failure o)
  attempted-ends failure (returned a, t) p f g = f a t p
  attempted-ends failure (failed errno, t) p f g = g errno t p

  pub attempt-ends :
      (failure : ℕ → Error) (call : S → Outcome A × S) (s : S)
      → P (call s).1
      → ((a : A) (t : S) → P t → Q (ok a, t))
      → ((errno : ℕ) (t : S) → P t → Q (err (failure errno), t))
      → Q (attempt failure call s)
  attempt-ends failure call s p f g = attempted-ends failure (call s) p f g

module _ {S A : Type 0} (R : S → S → Type 0) where
  attempted-relates :
      (failure : ℕ → Error) (s : S) (o : Outcome A × S) → R s o.1 → R s (attempted failure o).1
  attempted-relates failure s (returned a, t) h = h
  attempted-relates failure s (failed errno, t) h = h

  pub attempt-Relates :
      (failure : ℕ → Error) (call : S → Outcome A × S)
      → ((s : S) → R s (call s).1)
      → Relates R (attempt failure call)
  attempt-Relates failure call h s = attempted-relates failure s (call s) (h s)

module _ {S A : Type 0} where
  attempted-eq-ok :
      (failure : ℕ → Error) (o : Outcome A × S) {a : A} {t : S}
      → attempted failure o ≡ (ok a, t)
      → o ≡ (returned a, t)
  attempted-eq-ok failure (returned a, t) h = cc
  attempted-eq-ok failure (failed errno, t) h = cc

  pub attempt-eq-ok :
      (failure : ℕ → Error) (call : S → Outcome A × S) (s : S) {a : A} {t : S}
      → attempt failure call s ≡ (ok a, t)
      → call s ≡ (returned a, t)
  attempt-eq-ok failure call s h = attempted-eq-ok failure (call s) h
