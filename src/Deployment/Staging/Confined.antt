-- ===== src/Deployment/Staging/Confined.antt =====
-- How the descriptor of an archive comes about, and what the file behind it is.
use mathlib.Core.Path.{subst}
use pod_installer.Base.{
  ℕ, true, List, [], ◌∷◌, ◌≡◌, refl, Option, none, some, Bytes, is_empty, Bool-cases, inl, inr,
}
use pod_installer.Error.{ok}
use pod_installer.World.{handled-ensures, give-rule}
use pod_installer.System.{returned, Files, attempt, cleaning-ensures, attempt-rule}
use pod_installer.Deployment.Bundle.{ImageArchive, DeploymentOptions}
use pod_installer.Deployment.Services.{OpenArchive}
use pod_installer.Deployment.StagedPath.{relative_staged_path}
use pod_installer.Deployment.Staging.{
  FilesAt, walk, measure, open_below, open_under, open_configured, open_staged_image_archive,
}
use pod_installer.Deployment.Staging.Walk.{
  Walked, Measured, Gives, Gives-map, walk-Walked, measure-Measured,
}

module _ {S : Type 0} (os : Files S) (at : FilesAt S) where
  -- an archive that was opened below the staging root
  pub record Confined (options : DeploymentOptions) (root path : Bytes) (archive : OpenArchive)
      : Type 0 where
    pub names : List Bytes
    pub staged : relative_staged_path root path ≡ ok names
    pub root_fd : ℕ
    pub s : S
    pub t : S
    pub root_opened : os.open_directory root s ≡ (returned root_fd, t)
    pub walked : Walked os at names root_fd archive.fd
    pub measured : Measured os at options archive

  abbrev Landed : DeploymentOptions → List Bytes → ℕ → OpenArchive → Type 0
  Landed options path current a = Walked os at path current a.fd × Measured os at options a

  open_below-Landed :
      (options : DeploymentOptions) (path : List Bytes) (current : ℕ) (s : S)
      → Gives os at (Landed options path current) (open_below os at options path current s)
  open_below-Landed options path current s =
      handled-ensures (Gives os at (Walked os at path current))
        (Gives os at (Landed options path current)) _ _ (walk os at options path current s)
        (walk-Walked os at options path current s) (λ e t _. tt)
        (λ fd t walked.
          cleaning-ensures (Gives os at (λ a. (a.fd ≡ fd) × Measured os at options a))
            (Gives os at (Landed options path current)) (os.close fd) (measure os at options fd) t
            (measure-Measured os at options fd t)
            (λ a u (same, measured). (rw same walked, measured)) (λ e u _. tt))

  open_under-Confined :
      (archive : ImageArchive) (options : DeploymentOptions) (root : Bytes) (s : S)
      → Gives os at (Confined options root archive.path) (open_under os at archive options root s)
  open_under-Confined archive options root s =
      give-rule (Gives os at (Confined options root archive.path)) _ s
        (relative_staged_path root archive.path) (λ e h. tt)
        (λ path staged.
          handled-ensures (Gives os at Started) (Gives os at (Confined options root archive.path)) _
            _ (attempt _ (os.open_directory root) s)
            (attempt-rule (Gives os at Started) _ (os.open_directory root) s (λ fd t h. (s, (t, h)))
              (λ errno t h. tt))
            (λ e t _. tt)
            (λ root_fd t (s', (t', h)).
              Gives-map os at (open_below os at options path root_fd t)
                (λ a (walked, measured). record {
                  names = path;
                  staged = staged;
                  root_fd = root_fd;
                  s = s';
                  t = t';
                  root_opened = h;
                  walked = walked;
                  measured = measured;
                })
                (open_below-Landed options path root_fd t)))
    where
      Started : ℕ → Type 0
      Started fd = (s : S) × ((t : S) × (os.open_directory root s ≡ (returned fd, t)))

  -- what is known of an archive that is open
  abbrev pub Admitted : ImageArchive → DeploymentOptions → Option Bytes → OpenArchive → Type 0
  Admitted archive options none opened = ⊥
  Admitted archive options (some root) opened =
      (archive.expected_sha256 ≡ []) × Confined options root archive.path opened

  configured_lem :
      (archive : ImageArchive) (options : DeploymentOptions) (root : Option Bytes) (s : S)
      → archive.expected_sha256 ≡ []
      → Gives os at (Admitted archive options root) (open_configured os at archive options root s)
  configured_lem archive options none s bare = tt
  configured_lem archive options (some root) s bare =
      Gives-map os at (open_under os at archive options root s) (λ a confined. (bare, confined))
        (open_under-Confined archive options root s)

  open_staged-Admitted :
      (archive : ImageArchive) (options : DeploymentOptions) (s : S)
      → Gives os at
          (Admitted archive options options.image_archive_root)
          (open_staged_image_archive os at archive options s)
  unfolding open_staged_image_archive
  open_staged-Admitted archive options s = elim (Bool-cases (is_empty archive.expected_sha256)) [
    | inl bare ↦ rw bare (
        configured_lem archive options options.image_archive_root s
          (empty archive.expected_sha256 bare))
    | inr digest ↦ rw digest tt
  ]
    where
      empty : (bytes : Bytes) → is_empty bytes ≡ true → bytes ≡ []
      empty [] h = refl
      empty (c ∷ bytes) h = cc

  -- An archive that `open_staged_image_archive` returns has no digest to verify, a staging root is
  -- configured, and the descriptor was reached from the root's by the names that
  -- `relative_staged_path` gives, each opened below the one before without following a link; a
  -- look at this descriptor showed a regular file of the size that is returned, at most the bound.
  pub open_staged_image_archive-Admitted :
      (archive : ImageArchive) (options : DeploymentOptions) (opened : OpenArchive) (s t : S)
      → open_staged_image_archive os at archive options s ≡ (ok opened, t)
      → Admitted archive options options.image_archive_root opened
  open_staged_image_archive-Admitted archive options opened s t h =
      subst (Gives os at (Admitted archive options options.image_archive_root)) h
        (open_staged-Admitted archive options s)
