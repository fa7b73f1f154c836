-- ===== src/Deployment/Staging/Opened.antt =====
-- The archive leaves one descriptor open, and none behind an error.
use pod_installer.Base.{
  ℕ, Bool, not, List, [], ◌∷◌, ◌≡◌, refl, ap, arith, Option, none, some, Bytes, is_empty,
}
use pod_installer.Error.{Result, ok, err}
use pod_installer.World.{finally, Relates, ◌>>=◌, handled-ensures, then-Relates, give-rule}
use pod_installer.System.{Stat, Files, attempt, attempt-Relates, cleaning-ensures}
use pod_installer.Deployment.Bundle.{ImageArchive, DeploymentOptions}
use pod_installer.Deployment.Services.{OpenArchive}
use pod_installer.Deployment.StagedPath.{relative_staged_path}
use pod_installer.Deployment.Staging.{
  FilesAt, refuse_policy, check_archive, open_step, open_final, walk, measure, open_below,
  open_configured, open_staged_image_archive,
}
use pod_installer.Deployment.Staging.Descriptors.{
  Same, Adds, Yields, Descriptors, Same-trans, Adds-Same, attempt-Yields, then-Yields, closed-Same,
  scoped-Yields,
}

module _ {S : Type 0} (os : Files S) (at : FilesAt S) (opened : ℕ → S → Bool)
    (descriptors : Descriptors opened os at) where
  check_archive-state :
      (options : DeploymentOptions) (st : Stat) (s : S) → (check_archive os at options st s).1 ≡ s
  check_archive-state options st s = ground arith

  check_archive_lem :
      (options : DeploymentOptions) (st : Stat)
      → Relates (Same opened) (check_archive os at options st)
  check_archive_lem options st s d = ap (opened d) (check_archive-state options st s)

  open_step-Yields :
      (current : ℕ) (name : Bytes) (s : S)
      → Yields opened (λ d. d) s (open_step os at current name s)
  open_step-Yields current name s =
      attempt-Yields opened _ (at.open_directory_at current name) s
        (descriptors.open_directory_at current name s)

  open_final-Yields :
      (options : DeploymentOptions) (current : ℕ) (name : Bytes) (s : S)
      → Yields opened (λ d. d) s (open_final os at options current name s)
  open_final-Yields options current name s =
      then-Yields opened (λ d. d)
        (attempt _ (at.stat_at current name) >>= check_archive os at options) _ s
        (then-Relates (Same opened) (Same-trans opened) (attempt _ (at.stat_at current name))
          (check_archive os at options)
          (attempt-Relates (Same opened) _ (at.stat_at current name)
            (descriptors.stat_at current name))
          (check_archive_lem options) s)
        (λ _ t.
          attempt-Yields opened _ (at.open_nonblock_at current name) t
            (descriptors.open_nonblock_at current name t))

  walk-Yields :
      (options : DeploymentOptions) (path : List Bytes) (current : ℕ) (before s : S)
      → Adds opened current before s
      → Yields opened (λ d. d) before (walk os at options path current s)
  walk-Yields options [] current before s h = h
  walk-Yields options (name ∷ []) current before s h =
      scoped-Yields opened os.close descriptors.close (λ d. d) before s current
        (open_final os at options current name) h (open_final-Yields options current name s)
  walk-Yields options (name ∷ next ∷ path) current before s h =
      handled-ensures (Yields opened (λ d. d) before) (Yields opened (λ d. d) before) _
        (walk os at options (next ∷ path))
        (finally (os.close current) (open_step os at current name) s)
        (scoped-Yields opened os.close descriptors.close (λ d. d) before s current
          (open_step os at current name) h (open_step-Yields current name s))
        (λ e t k. k) (λ d t k. walk-Yields options (next ∷ path) d before t k)

  -- the file that is measured is the one of the archive, or it is left open
  abbrev Measured : ℕ → S → Result OpenArchive × S → Type 0
  Measured fd before (ok archive, t) = Adds opened archive.fd before t
  Measured fd before (err e, t) = Adds opened fd before t

  measure-Measured :
      (options : DeploymentOptions) (fd : ℕ) (before s : S)
      → Adds opened fd before s
      → Measured fd before (measure os at options fd s)
  measure-Measured options fd before s h =
      handled-ensures (λ o. Adds opened fd before o.1) (Measured fd before) _ _
        (attempt _ (os.fstat fd) s)
        (Adds-Same opened fd before s _ h
          (attempt-Relates (Same opened) _ (os.fstat fd) (descriptors.fstat fd) s))
        (λ e t k. k)
        (λ st t k.
          handled-ensures (λ o. Adds opened fd before o.1) (Measured fd before) _ _
            (check_archive os at options st t)
            (Adds-Same opened fd before t _ k (check_archive_lem options st t)) (λ e u l. l)
            (λ _ u l. l))

  open_below-Yields :
      (options : DeploymentOptions) (path : List Bytes) (current : ℕ) (before s : S)
      → Adds opened current before s
      → Yields opened (λ a. a.fd) before (open_below os at options path current s)
  open_below-Yields options path current before s h =
      handled-ensures (Yields opened (λ d. d) before) (Yields opened (λ a. a.fd) before) _ _
        (walk os at options path current s) (walk-Yields options path current before s h)
        (λ e t k. k)
        (λ fd t k.
          cleaning-ensures (Measured fd before) (Yields opened (λ a. a.fd) before) (os.close fd)
            (measure os at options fd) t (measure-Measured options fd before t k) (λ a u l. l)
            (λ e u l. closed-Same opened os.close descriptors.close fd before u l))

  open_configured-Yields :
      (archive : ImageArchive) (options : DeploymentOptions) (root : Option Bytes) (s : S)
      → Yields opened (λ a. a.fd) s (open_configured os at archive options root s)
  open_configured-Yields archive options none s = λ d. refl
  open_configured-Yields archive options (some root) s =
      give-rule (Yields opened (λ a. a.fd) s) _ s (relative_staged_path root archive.path)
        (λ e h d. refl)
        (λ path h.
          handled-ensures (Yields opened (λ d. d) s) (Yields opened (λ a. a.fd) s) _ _
            (attempt _ (os.open_directory root) s)
            (attempt-Yields opened _ (os.open_directory root) s (descriptors.open_directory root s))
            (λ e t k. k) (λ current t k. open_below-Yields options path current s t k))

  pub open_staged_image_archive-Yields :
      (archive : ImageArchive) (options : DeploymentOptions) (s : S)
      → Yields opened (λ a. a.fd) s (open_staged_image_archive os at archive options s)
  unfolding open_staged_image_archive
  open_staged_image_archive-Yields archive options s =
      then-Yields opened (λ a. a.fd)
        (refuse_policy os at (not (is_empty archive.expected_sha256)) _) _ s (λ d. refl)
        (λ _ t. open_configured-Yields archive options options.image_archive_root t)
