-- ===== src/Deployment/Staging/Kept.antt =====
-- The archive and the lock leave what each of their system calls leaves.
use pod_installer.Base.{
  ℕ, zero, suc, not, ◌==◌, List, [], ◌∷◌, ◌≡◌, arith, Option, none, some, Bytes, text, is_empty,
  Bool-cases, inl, inr,
}
use pod_installer.Error.{Result, ok, err, reject_if, policy}
use pod_installer.World.{
  Action, Effect, give, finally, Relates, ◌>>=◌, ◌>>◌, then-Relates, finally-Relates,
}
use pod_installer.System.{
  Outcome, returned, failed, eintr, Stat, Files, attempt, cleaned, cleaning, attempt-Relates,
}
use pod_installer.Quadlet.Installer.{QuadletInstallLayout}
use pod_installer.Deployment.Bundle.{ImageArchive, DeploymentOptions}
use pod_installer.Deployment.StagedPath.{relative_staged_path}
use pod_installer.Deployment.Staging.{
  FilesAt, check_archive, open_step, open_final, walk, measure, open_below, open_under,
  open_configured, open_staged_image_archive, check_owner, validate_owner_if_required, lock_round,
  lock_loop, wait_lock, take_lock, lock_in_directory, made_directory, make_lock_directory,
  open_lock_directory, lock_below, lock_name, lock_deployment,
}

module _ {S : Type 0} (R : S → S → Type 0) where
  -- each of these calls leaves what the relation says
  pub record CallsRelate (os : Files S) (at : FilesAt S) : Type 0 where
    pub same : (s : S) → R s s
    pub trans : (s t u : S) → R s t → R t u → R s u
    pub create_directories : (path : Bytes) (s : S) → R s (os.create_directories path s).1
    pub open_directory : (path : Bytes) (s : S) → R s (os.open_directory path s).1
    pub fstat : (fd : ℕ) (s : S) → R s (os.fstat fd s).1
    pub close : (fd : ℕ) (s : S) → R s (os.close fd s)
    pub stat_at : (fd : ℕ) (name : Bytes) (s : S) → R s (at.stat_at fd name s).1
    pub open_directory_at : (fd : ℕ) (name : Bytes) (s : S) → R s (at.open_directory_at fd name s).1
    pub open_nonblock_at : (fd : ℕ) (name : Bytes) (s : S) → R s (at.open_nonblock_at fd name s).1
    pub create_at :
        (fd uid : ℕ) (unit : Bytes) (mode : ℕ) (s : S)
        → R s (at.create_at fd (lock_name os at uid unit) mode s).1
    pub mkdirat : (fd mode : ℕ) (s : S) → R s (at.mkdirat fd (text ".locks") mode s).1
    pub fchmod : (fd mode : ℕ) (s : S) → R s (at.fchmod fd mode s).1
    pub flock : (fd : ℕ) (s : S) → R s (at.flock fd s).1

  module _ (os : Files S) (at : FilesAt S) (calls : CallsRelate os at) where
    cleaned_lem :
        {A : Type 0} (clean : Effect S) (s : S) (o : Result A × S)
        → ((t : S) → R t (clean t))
        → R s o.1
        → R s (cleaned clean o).1
    cleaned_lem clean s (ok a, t) h k = k
    cleaned_lem clean s (err e, t) h k = calls.trans s t (clean t) k (h t)

    given_lem :
        {A B : Type 0} (r : Result A) (next : A → Action S B)
        → ((a : A) → Relates R (next a))
        → Relates R (give r >>= next)
    given_lem (ok a) next h s = h a s
    given_lem (err e) next h s = calls.same s

    check_archive_lem :
        (options : DeploymentOptions) (st : Stat) (s : S) → (check_archive os at options st s).1 ≡ s
    check_archive_lem options st s = ground arith

    check_archive-Relates :
        (options : DeploymentOptions) (st : Stat) → Relates R (check_archive os at options st)
    check_archive-Relates options st s = rw (check_archive_lem options st s) (calls.same s)

    open_final-Relates :
        (options : DeploymentOptions) (current : ℕ) (name : Bytes)
        → Relates R (open_final os at options current name)
    open_final-Relates options current name =
        then-Relates R calls.trans
          (attempt _ (at.stat_at current name) >>= check_archive os at options)
          (λ _. attempt _ (at.open_nonblock_at current name))
          (then-Relates R calls.trans (attempt _ (at.stat_at current name))
            (check_archive os at options)
            (attempt-Relates R _ (at.stat_at current name) (calls.stat_at current name))
            (check_archive-Relates options))
          (λ _.
            attempt-Relates R _ (at.open_nonblock_at current name)
              (calls.open_nonblock_at current name))

    walk-Relates :
        (options : DeploymentOptions) (path : List Bytes) (current : ℕ)
        → Relates R (walk os at options path current)
    walk-Relates options [] current = λ s. calls.same s
    walk-Relates options (name ∷ []) current =
        finally-Relates R calls.trans (os.close current) (open_final os at options current name)
          (calls.close current) (open_final-Relates options current name)
    walk-Relates options (name ∷ next ∷ path) current =
        then-Relates R calls.trans (finally (os.close current) (open_step os at current name))
          (walk os at options (next ∷ path))
          (finally-Relates R calls.trans (os.close current) (open_step os at current name)
            (calls.close current)
            (attempt-Relates R _ (at.open_directory_at current name)
              (calls.open_directory_at current name)))
          (walk-Relates options (next ∷ path))

    measure-Relates : (options : DeploymentOptions) (fd : ℕ) → Relates R (measure os at options fd)
    measure-Relates options fd =
        then-Relates R calls.trans (attempt _ (os.fstat fd)) _
          (attempt-Relates R _ (os.fstat fd) (calls.fstat fd))
          (λ st.
            then-Relates R calls.trans (check_archive os at options st) _
              (check_archive-Relates options st) (λ _ s. calls.same s))

    open_under-Relates :
        (archive : ImageArchive) (options : DeploymentOptions) (root : Bytes)
        → Relates R (open_under os at archive options root)
    open_under-Relates archive options root =
        given_lem (relative_staged_path root archive.path) _ (λ path.
          then-Relates R calls.trans (attempt _ (os.open_directory root))
            (open_below os at options path)
            (attempt-Relates R _ (os.open_directory root) (calls.open_directory root))
            (λ current.
              then-Relates R calls.trans (walk os at options path current)
                (λ fd. cleaning (os.close fd) (measure os at options fd))
                (walk-Relates options path current)
                (λ fd s.
                  cleaned_lem (os.close fd) s (measure os at options fd s) (calls.close fd)
                    (measure-Relates options fd s))))

    open_configured-Relates :
        (archive : ImageArchive) (options : DeploymentOptions) (root : Option Bytes)
        → Relates R (open_configured os at archive options root)
    open_configured-Relates archive options none = λ s. calls.same s
    open_configured-Relates archive options (some root) = open_under-Relates archive options root

    pub open_staged_image_archive-Relates :
        (archive : ImageArchive) (options : DeploymentOptions)
        → Relates R (open_staged_image_archive os at archive options)
    unfolding open_staged_image_archive
    open_staged_image_archive-Relates archive options =
        given_lem (reject_if (not (is_empty archive.expected_sha256)) policy _) _
          (λ _. open_configured-Relates archive options options.image_archive_root)

    check_owner_lem :
        (layout : QuadletInstallLayout) (description : Bytes) (st : Stat) (s : S)
        → (check_owner os at layout description st s).1 ≡ s
    check_owner_lem layout description st s = ground arith

    owner-Relates :
        (fd : ℕ) (layout : QuadletInstallLayout) (description : Bytes)
        → Relates R (validate_owner_if_required os at fd layout description)
    unfolding validate_owner_if_required
    owner-Relates fd layout description =
        then-Relates R calls.trans (attempt _ (os.fstat fd)) (check_owner os at layout description)
          (attempt-Relates R _ (os.fstat fd) (calls.fstat fd))
          (λ st s. rw (check_owner_lem layout description st s) (calls.same s))

    lock_round_lem :
        (again : Action S (Unit {0})) (name : Bytes) (s : S) (o : Outcome (Unit {0}) × S)
        → Relates R again
        → R s o.1
        → R s (lock_round os at again name o).1
    lock_round_lem again name s (returned _, t) h k = k
    lock_round_lem again name s (failed errno, t) h k = elim (Bool-cases (errno == eintr)) [
      | inl here ↦ rw here (calls.trans s t _ k (h t))
      | inr other ↦ rw other k
    ]

    lock_loop-Relates : (fuel fd : ℕ) (name : Bytes) → Relates R (lock_loop os at fuel fd name)
    unfolding lock_loop
    lock_loop-Relates zero fd name s = calls.same s
    lock_loop-Relates (suc fuel) fd name s =
        lock_round_lem (lock_loop os at fuel fd name) name s (at.flock fd s)
          (lock_loop-Relates fuel fd name) (calls.flock fd s)

    take_lock-Relates :
        (uid : ℕ) (unit : Bytes) (dir_fd : ℕ)
        → Relates R (take_lock os at (lock_name os at uid unit) dir_fd)
    unfolding wait_lock
    take_lock-Relates uid unit dir_fd =
        let name = lock_name os at uid unit in
        then-Relates R calls.trans (attempt _ (at.create_at dir_fd name 420)) _
          (attempt-Relates R _ (at.create_at dir_fd name 420) (calls.create_at dir_fd uid unit 420))
          (λ fd s.
            cleaned_lem (os.close fd) s ((wait_lock os at fd name >> give (ok fd)) s)
              (calls.close fd)
              (then-Relates R calls.trans (wait_lock os at fd name) (λ _. give (ok fd))
                (λ t. lock_loop-Relates (suc (os.interruptions t)) fd name t) (λ _ t. calls.same t)
                s))

    lock_in_directory-Relates :
        (layout : QuadletInstallLayout) (uid : ℕ) (unit : Bytes) (dir_fd : ℕ)
        → Relates R (lock_in_directory os at layout (lock_name os at uid unit) dir_fd)
    lock_in_directory-Relates layout uid unit dir_fd =
        let name = lock_name os at uid unit in
        let owned =
          validate_owner_if_required os at dir_fd layout (text "deployment lock directory") in
        then-Relates R calls.trans (owned >> attempt _ (at.fchmod dir_fd 493))
          (λ _. take_lock os at name dir_fd)
          (then-Relates R calls.trans owned (λ _. attempt _ (at.fchmod dir_fd 493))
            (owner-Relates dir_fd layout _)
            (λ _. attempt-Relates R _ (at.fchmod dir_fd 493) (calls.fchmod dir_fd 493)))
          (λ _. take_lock-Relates uid unit dir_fd)

    made_directory_lem :
        (s : S) (o : Outcome (Unit {0}) × S) → R s o.1 → R s (made_directory os at o).1
    made_directory_lem s (returned _, t) h = h
    made_directory_lem s (failed errno, t) h = elim (Bool-cases (errno == 17)) [
      | inl there ↦ rw there h
      | inr other ↦ rw other h
    ]

    lock_below-Relates :
        (layout : QuadletInstallLayout) (uid : ℕ) (unit : Bytes) (root_fd : ℕ)
        → Relates R (lock_below os at layout (lock_name os at uid unit) root_fd)
    lock_below-Relates layout uid unit root_fd =
        let name = lock_name os at uid unit in
        let owned = validate_owner_if_required os at root_fd layout (text "deployment lock root") in
        then-Relates R calls.trans (owned >> make_lock_directory os at root_fd) _
          (then-Relates R calls.trans owned (λ _. make_lock_directory os at root_fd)
            (owner-Relates root_fd layout _)
            (λ _ t.
              made_directory_lem t (at.mkdirat root_fd (text ".locks") 493 t)
                (calls.mkdirat root_fd 493 t)))
          (λ _.
            then-Relates R calls.trans (open_lock_directory os at root_fd)
              (λ dir_fd. finally (os.close dir_fd) (lock_in_directory os at layout name dir_fd))
              (attempt-Relates R _ (at.open_directory_at root_fd (text ".locks"))
                (calls.open_directory_at root_fd (text ".locks")))
              (λ dir_fd.
                finally-Relates R calls.trans (os.close dir_fd)
                  (lock_in_directory os at layout name dir_fd) (calls.close dir_fd)
                  (lock_in_directory-Relates layout uid unit dir_fd)))

    pub lock_deployment-Relates :
        (layout : QuadletInstallLayout) (uid : ℕ) (unit : Bytes)
        → Relates R (lock_deployment os at layout uid unit)
    unfolding lock_deployment
    lock_deployment-Relates layout uid unit =
        then-Relates R calls.trans (attempt _ (os.create_directories layout.admin_user_root)) _
          (attempt-Relates R _ (os.create_directories layout.admin_user_root)
            (calls.create_directories layout.admin_user_root))
          (λ _.
            then-Relates R calls.trans (attempt _ (os.open_directory layout.admin_user_root))
              (λ fd. finally (os.close fd) (lock_below os at layout (lock_name os at uid unit) fd))
              (attempt-Relates R _ (os.open_directory layout.admin_user_root)
                (calls.open_directory layout.admin_user_root))
              (λ fd.
                finally-Relates R calls.trans (os.close fd)
                  (lock_below os at layout (lock_name os at uid unit) fd) (calls.close fd)
                  (lock_below-Relates layout uid unit fd)))
