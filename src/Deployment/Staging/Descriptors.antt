-- ===== src/Deployment/Staging/Descriptors.antt =====
-- The descriptors that are open, and what the calls of the staging do to them.
use pod_installer.Base.{ℕ, Bool, false, not, ◌&&◌, ◌||◌, ◌==◌, ◌≡◌, sym, ◌∙◌, arith, Bytes}
use pod_installer.Error.{Error, Result, ok, err}
use pod_installer.World.{Action, Effect, finally, ◌>>=◌, handled-ensures, finally-ensures}
use pod_installer.System.{Outcome, returned, failed, Files, attempted, attempt}
use pod_installer.Deployment.Staging.{FilesAt}

module _ {S : Type 0} (opened : ℕ → S → Bool) where
  -- the same descriptors are open
  abbrev pub Same : S → S → Type 0
  Same s t = (d : ℕ) → opened d t ≡ opened d s

  -- one more is open
  abbrev pub Adds : ℕ → S → S → Type 0
  Adds fd s t = (opened fd s ≡ false) × ((d : ℕ) → opened d t ≡ (d == fd || opened d s))

  -- a system call that opens a descriptor, or that fails
  abbrev pub Gains : S → Outcome ℕ × S → Type 0
  Gains s (returned fd, t) = Adds fd s t
  Gains s (failed errno, t) = Same s t

  -- a call whose value has one open descriptor; behind an error there is none
  abbrev pub Yields : {A : Type 0} → (A → ℕ) → S → Result A × S → Type 0
  Yields fd_of s (ok a, t) = Adds (fd_of a) s t
  Yields fd_of s (err e, t) = Same s t

  -- what POSIX documents of the calls, where no other thread opens or closes a descriptor
  pub record Descriptors (os : Files S) (at : FilesAt S) : Type 0 where
    pub create_directories : (path : Bytes) (s : S) → Same s (os.create_directories path s).1
    pub open_directory : (path : Bytes) (s : S) → Gains s (os.open_directory path s)
    pub fstat : (fd : ℕ) (s : S) → Same s (os.fstat fd s).1
    pub close : (fd : ℕ) (s : S) (d : ℕ) → opened d (os.close fd s) ≡ (not (d == fd) && opened d s)
    pub stat_at : (fd : ℕ) (name : Bytes) (s : S) → Same s (at.stat_at fd name s).1
    pub open_directory_at :
        (fd : ℕ) (name : Bytes) (s : S) → Gains s (at.open_directory_at fd name s)
    pub open_nonblock_at : (fd : ℕ) (name : Bytes) (s : S) → Gains s (at.open_nonblock_at fd name s)
    pub create_at :
        (fd : ℕ) (name : Bytes) (mode : ℕ) (s : S) → Gains s (at.create_at fd name mode s)
    pub mkdirat : (fd : ℕ) (name : Bytes) (mode : ℕ) (s : S) → Same s (at.mkdirat fd name mode s).1
    pub fchmod : (fd mode : ℕ) (s : S) → Same s (at.fchmod fd mode s).1
    pub flock : (fd : ℕ) (s : S) → Same s (at.flock fd s).1

  pub Same-trans : (s t u : S) → Same s t → Same t u → Same s u
  Same-trans s t u h k d = k d ∙ h d

  pub Adds-Same : (fd : ℕ) (s t u : S) → Adds fd s t → Same t u → Adds fd s u
  Adds-Same fd s t u (fresh, h) k = (fresh, λ d. k d ∙ h d)

  Same-Adds : (fd : ℕ) (s t u : S) → Same s t → Adds fd t u → Adds fd s u
  Same-Adds fd s t u h (fresh, k) =
      (sym (h fd) ∙ fresh, λ d. let a = h d in let b = k d in ground arith)

  attempted-Yields :
      (failure : ℕ → Error) (s : S) (o : Outcome ℕ × S)
      → Gains s o
      → Yields (λ d. d) s (attempted failure o)
  attempted-Yields failure s (returned fd, t) h = h
  attempted-Yields failure s (failed errno, t) h = h

  pub attempt-Yields :
      (failure : ℕ → Error) (call : S → Outcome ℕ × S) (s : S)
      → Gains s (call s)
      → Yields (λ d. d) s (attempt failure call s)
  attempt-Yields failure call s h = attempted-Yields failure s (call s) h

  module _ {A : Type 0} (fd_of : A → ℕ) where
    Same-Yields : (s t : S) (o : Result A × S) → Same s t → Yields fd_of t o → Yields fd_of s o
    Same-Yields s t (ok a, u) h k = Same-Adds (fd_of a) s t u h k
    Same-Yields s t (err e, u) h k = Same-trans s t u h k

    -- behind a call that opens nothing
    pub then-Yields :
        {B : Type 0} (call : Action S B) (next : B → Action S A) (s : S)
        → Same s (call s).1
        → ((b : B) (t : S) → Yields fd_of t (next b t))
        → Yields fd_of s ((call >>= next) s)
    then-Yields call next s h later =
        handled-ensures (λ o. Same s o.1) (λ o. Yields fd_of s o) _ next (call s) h (λ e t k. k)
          (λ b t k. Same-Yields s t (next b t) k (later b t))

  module _ (close : ℕ → Effect S)
      (closes : (fd : ℕ) (s : S) (d : ℕ)
        → opened d (close fd s) ≡ (not (d == fd) && opened d s)) where
    -- a descriptor that is closed again
    pub closed-Same : (fd : ℕ) (s t : S) → Adds fd s t → Same s (close fd t)
    closed-Same fd s t (fresh, h) d = let a = h d in let b = closes fd t d in ground arith

    -- a descriptor in place of another
    pub exchanged : (c d : ℕ) (s t u : S) → Adds c s t → Adds d t u → Adds d s (close c u)
    exchanged c d s t u (fresh, h) (fresh', k) =
        let before = h d in
        let here = h c in
        (ground arith, λ x. let a = h x in let b = k x in let e = closes c u x in ground arith)

    -- a descriptor that is behind another, which is closed then
    pub scoped-Yields :
        {A : Type 0} (fd_of : A → ℕ) (before s : S) (current : ℕ) (body : Action S A)
        → Adds current before s
        → Yields fd_of s (body s)
        → Yields fd_of before (finally (close current) body s)
    scoped-Yields fd_of before s current body h k =
        finally-ensures (Yields fd_of s) (Yields fd_of before) (close current) body s k leave
      where
        leave :
            (r : Result _) (t : S)
            → Yields fd_of s (r, t)
            → Yields fd_of before (r, close current t)
        leave (ok a) t k = exchanged current (fd_of a) before s t h k
        leave (err e) t k = closed-Same current before t (Adds-Same current before s t h k)
