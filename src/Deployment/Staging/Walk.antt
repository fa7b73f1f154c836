-- ===== src/Deployment/Staging/Walk.antt =====
-- How the walk to an archive comes to its descriptor, and what the file behind it is.
use pod_installer.Base.{
  ℕ, ◌≤◌, true, false, List, [], ◌∷◌, ◌≡◌, refl, arith, Bytes, Bool-cases, inl, inr,
}
use pod_installer.Base.Int.{ℤ, pos, negsuc}
use pod_installer.Error.{Result, ok, err}
use pod_installer.World.{Effect, give, finally, ◌>>=◌, ◌>>◌, handled-ensures, finally-ensures}
use pod_installer.System.{returned, Stat, Files, attempt, attempt-rule}
use pod_installer.Quadlet.Files.{is_regular}
use pod_installer.Quadlet.Store.{is_too_large, size_of}
use pod_installer.Deployment.Bundle.{DeploymentOptions}
use pod_installer.Deployment.Services.{OpenArchive}
use pod_installer.Deployment.Staging.{FilesAt, check_archive, open_step, open_final, walk, measure}

module _ {S : Type 0} (os : Files S) (at : FilesAt S) where
  -- From one descriptor to another by a path: each name is opened below the one before, and no call
  -- that opens one follows a link.
  pub data Walked : List Bytes → ℕ → ℕ → Type 0 where
    nowhere : (current : ℕ) → Walked [] current current
    last :
        (name : Bytes) (current fd : ℕ) (s t : S)
        → at.open_nonblock_at current name s ≡ (returned fd, t)
        → Walked (name ∷ []) current fd
    deeper :
        (name next : Bytes) (path : List Bytes) (current d fd : ℕ) (s t : S)
        → at.open_directory_at current name s ≡ (returned d, t)
        → Walked (next ∷ path) d fd
        → Walked (name ∷ next ∷ path) current fd

  -- what was seen of the file that a descriptor is of
  pub record Measured (options : DeploymentOptions) (archive : OpenArchive) : Type 0 where
    pub st : Stat
    pub s : S
    pub t : S
    pub seen : os.fstat archive.fd s ≡ (returned st, t)
    pub regular : is_regular st.kind ≡ true
    pub size : st.size ≡ pos archive.size
    pub bound : archive.size ≤ options.max_image_archive_bytes

  -- what holds of a value
  abbrev pub Gives : {A : Type 0} → (A → Type 0) → Result A × S → Type 0
  Gives P (ok a, t) = P a
  Gives P (err e, t) = Unit

  pub Gives-map :
      {A : Type 0} {P Q : A → Type 0} (o : Result A × S)
      → ((a : A) → P a → Q a)
      → Gives P o
      → Gives Q o
  Gives-map (ok a, t) f h = f a h
  Gives-map (err e, t) f h = tt

  -- what a destructor leaves
  Gives-leave :
      {A : Type 0} (P : A → Type 0) (leave : Effect S) (r : Result A) (t : S)
      → Gives P (r, t)
      → Gives P (r, leave t)
  Gives-leave P leave (ok a) t h = h
  Gives-leave P leave (err e) t h = tt

  open_final-Walked :
      (options : DeploymentOptions) (current : ℕ) (name : Bytes) (s : S)
      → Gives (Walked (name ∷ []) current) (open_final os at options current name s)
  open_final-Walked options current name s =
      handled-ensures (λ _. Unit {0}) (Gives (Walked (name ∷ []) current)) _ _
        ((attempt _ (at.stat_at current name) >>= check_archive os at options) s) tt (λ e t _. tt)
        (λ _ t _.
          attempt-rule (Gives (Walked (name ∷ []) current)) _ (at.open_nonblock_at current name) t
            (λ fd u h. last name current fd t u h) (λ errno u h. tt))

  pub walk-Walked :
      (options : DeploymentOptions) (path : List Bytes) (current : ℕ) (s : S)
      → Gives (Walked path current) (walk os at options path current s)
  walk-Walked options [] current s = nowhere current
  walk-Walked options (name ∷ []) current s =
      finally-ensures (Gives (Walked (name ∷ []) current)) (Gives (Walked (name ∷ []) current))
        (os.close current) (open_final os at options current name) s
        (open_final-Walked options current name s)
        (Gives-leave (Walked (name ∷ []) current) (os.close current))
  walk-Walked options (name ∷ next ∷ path) current s =
      handled-ensures (Gives Below) (Gives (Walked (name ∷ next ∷ path) current)) _ _
        (finally (os.close current) (open_step os at current name) s)
        (finally-ensures (Gives Below) (Gives Below) (os.close current)
          (open_step os at current name) s
          (attempt-rule (Gives Below) _ (at.open_directory_at current name) s (λ d t h. (s, (t, h)))
            (λ errno t h. tt))
          (Gives-leave Below (os.close current)))
        (λ e t _. tt)
        (λ d t (s', (t', h)).
          Gives-map (walk os at options (next ∷ path) d t)
            (λ fd k. deeper name next path current d fd s' t' h k)
            (walk-Walked options (next ∷ path) d t))
    where
      Below : ℕ → Type 0
      Below d = (s : S) × ((t : S) × (at.open_directory_at current name s ≡ (returned d, t)))

  size_lem :
      (size : ℤ) (bound : ℕ)
      → is_too_large os size bound ≡ false
      → (size ≡ pos (size_of os size)) × (size_of os size ≤ bound)
  size_lem (pos n) bound h = (refl, ground arith)
  size_lem (negsuc n) bound h = cc

  pub measure-Measured :
      (options : DeploymentOptions) (fd : ℕ) (s : S)
      → Gives (λ a. (a.fd ≡ fd) × Measured options a) (measure os at options fd s)
  measure-Measured options fd s =
      attempt-rule (λ o. Gives Q (seen o)) _ (os.fstat fd) s
        (λ st t h. elim (Bool-cases (is_regular st.kind)) [
          | inr special ↦ rw special tt
          | inl regular ↦
              elim (Bool-cases (is_too_large os st.size options.max_image_archive_bytes)) [
                | inl large ↦ rw (regular, large) tt
                | inr fits ↦
                    let (size, bound) = size_lem st.size options.max_image_archive_bytes fits in
                    rw (regular, fits)
                      (
                        refl,
                        record {
                          st = st;
                          s = s;
                          t = t;
                          seen = h;
                          regular = regular;
                          size = size;
                          bound = bound;
                        },
                      )
              ]
        ])
        (λ errno t h. tt)
    where
      Q : OpenArchive → Type 0
      Q a = (a.fd ≡ fd) × Measured options a

      seen : Result Stat × S → Result OpenArchive × S
      seen (ok st, t) =
          (check_archive os at options st
              >> give (ok (record { fd = fd; size = size_of os st.size })))
            t
      seen (err e, t) = (err e, t)
