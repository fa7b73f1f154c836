-- ===== src/Deployment/Staging/Locked.antt =====
-- The lock leaves one descriptor open, and none behind an error.
use pod_installer.Base.{
  ℕ, zero, suc, Bool, ◌==◌, ◌≡◌, refl, ap, arith, Bytes, text, Bool-cases, inl, inr,
}
use pod_installer.Error.{Result, ok, err}
use pod_installer.World.{Action, give, Relates, ◌>>◌, handled-ensures, then-Relates}
use pod_installer.System.{
  Outcome, returned, failed, eintr, Stat, Files, attempt, attempt-Relates, cleaning-ensures,
}
use pod_installer.Quadlet.Installer.{QuadletInstallLayout}
use pod_installer.Deployment.Staging.{
  FilesAt, check_owner, validate_owner_if_required, lock_round, lock_loop, wait_lock, take_lock,
  lock_in_directory, made_directory, make_lock_directory, open_lock_directory, lock_below,
  lock_name, lock_deployment,
}
use pod_installer.Deployment.Staging.Descriptors.{
  Same, Adds, Yields, Descriptors, Same-trans, Adds-Same, attempt-Yields, then-Yields, closed-Same,
  scoped-Yields,
}

module _ {S : Type 0} (os : Files S) (at : FilesAt S) (opened : ℕ → S → Bool)
    (descriptors : Descriptors opened os at) where
  check_owner-state :
      (layout : QuadletInstallLayout) (description : Bytes) (st : Stat) (s : S)
      → (check_owner os at layout description st s).1 ≡ s
  check_owner-state layout description st s = ground arith

  validate_owner_lem :
      (fd : ℕ) (layout : QuadletInstallLayout) (description : Bytes)
      → Relates (Same opened) (validate_owner_if_required os at fd layout description)
  unfolding validate_owner_if_required
  validate_owner_lem fd layout description =
      then-Relates (Same opened) (Same-trans opened) (attempt _ (os.fstat fd))
        (check_owner os at layout description)
        (attempt-Relates (Same opened) _ (os.fstat fd) (descriptors.fstat fd))
        (λ st s d. ap (opened d) (check_owner-state layout description st s))

  lock_round_lem :
      (again : Action S (Unit {0})) (name : Bytes) (s : S) (o : Outcome (Unit {0}) × S)
      → Relates (Same opened) again
      → Same opened s o.1
      → Same opened s (lock_round os at again name o).1
  lock_round_lem again name s (returned _, t) h k = k
  lock_round_lem again name s (failed errno, t) h k = elim (Bool-cases (errno == eintr)) [
    | inl here ↦ rw here (Same-trans opened s t _ k (h t))
    | inr other ↦ rw other k
  ]

  lock_loop_lem :
      (fuel fd : ℕ) (name : Bytes) → Relates (Same opened) (lock_loop os at fuel fd name)
  unfolding lock_loop
  lock_loop_lem zero fd name s = λ d. refl
  lock_loop_lem (suc fuel) fd name s =
      lock_round_lem (lock_loop os at fuel fd name) name s (at.flock fd s)
        (lock_loop_lem fuel fd name) (descriptors.flock fd s)

  wait_lock_lem : (fd : ℕ) (name : Bytes) → Relates (Same opened) (wait_lock os at fd name)
  unfolding wait_lock
  wait_lock_lem fd name s = lock_loop_lem (suc (os.interruptions s)) fd name s

  take_lock-Yields :
      (name : Bytes) (dir_fd : ℕ) (s : S) → Yields opened (λ d. d) s (take_lock os at name dir_fd s)
  take_lock-Yields name dir_fd s =
      handled-ensures (Yields opened (λ d. d) s) (Yields opened (λ d. d) s) _ _
        (attempt _ (at.create_at dir_fd name 420) s)
        (attempt-Yields opened _ (at.create_at dir_fd name 420) s
          (descriptors.create_at dir_fd name 420 s))
        (λ e t k. k)
        (λ fd t k.
          cleaning-ensures (Locked fd) (Yields opened (λ d. d) s) (os.close fd)
            (wait_lock os at fd name >> give (ok fd)) t
            (handled-ensures (λ o. Adds opened fd s o.1) (Locked fd) _ _ (wait_lock os at fd name t)
              (Adds-Same opened fd s t _ k (wait_lock_lem fd name t)) (λ e u l. l)
              (λ _ u l. (l, refl)))
            (λ d u (l, e). rw e l)
            (λ e u l. closed-Same opened os.close descriptors.close fd s u l))
    where
      Locked : ℕ → Result ℕ × S → Type 0
      Locked fd (ok d, u) = Adds opened fd s u × (d ≡ fd)
      Locked fd (err e, u) = Adds opened fd s u

  lock_in_directory-Yields :
      (layout : QuadletInstallLayout) (name : Bytes) (dir_fd : ℕ) (s : S)
      → Yields opened (λ d. d) s (lock_in_directory os at layout name dir_fd s)
  lock_in_directory-Yields layout name dir_fd s =
      let owned =
        validate_owner_if_required os at dir_fd layout (text "deployment lock directory") in
      then-Yields opened (λ d. d) (owned >> attempt _ (at.fchmod dir_fd 493)) _ s
        (then-Relates (Same opened) (Same-trans opened) owned
          (λ _. attempt _ (at.fchmod dir_fd 493)) (validate_owner_lem dir_fd layout _)
          (λ _.
            attempt-Relates (Same opened) _ (at.fchmod dir_fd 493) (descriptors.fchmod dir_fd 493))
          s)
        (λ _ t. take_lock-Yields name dir_fd t)

  made_directory_lem :
      (s : S) (o : Outcome (Unit {0}) × S)
      → Same opened s o.1
      → Same opened s (made_directory os at o).1
  made_directory_lem s (returned _, t) h = h
  made_directory_lem s (failed errno, t) h = ground arith

  lock_below-Yields :
      (layout : QuadletInstallLayout) (name : Bytes) (root_fd : ℕ) (s : S)
      → Yields opened (λ d. d) s (lock_below os at layout name root_fd s)
  lock_below-Yields layout name root_fd s =
      let owned = validate_owner_if_required os at root_fd layout (text "deployment lock root") in
      then-Yields opened (λ d. d) (owned >> make_lock_directory os at root_fd) _ s
        (then-Relates (Same opened) (Same-trans opened) owned
          (λ _. make_lock_directory os at root_fd) (validate_owner_lem root_fd layout _)
          (λ _ t.
            made_directory_lem t (at.mkdirat root_fd (text ".locks") 493 t)
              (descriptors.mkdirat root_fd (text ".locks") 493 t))
          s)
        (λ _ t.
          handled-ensures (Yields opened (λ d. d) t) (Yields opened (λ d. d) t) _ _
            (open_lock_directory os at root_fd t)
            (attempt-Yields opened _ (at.open_directory_at root_fd (text ".locks")) t
              (descriptors.open_directory_at root_fd (text ".locks") t))
            (λ e u k. k)
            (λ dir_fd u k.
              scoped-Yields opened os.close descriptors.close (λ d. d) t u dir_fd
                (lock_in_directory os at layout name dir_fd) k
                (lock_in_directory-Yields layout name dir_fd u)))

  pub lock_deployment-Yields :
      (layout : QuadletInstallLayout) (uid : ℕ) (unit : Bytes) (s : S)
      → Yields opened (λ d. d) s (lock_deployment os at layout uid unit s)
  unfolding lock_deployment
  lock_deployment-Yields layout uid unit s =
      then-Yields opened (λ d. d) (attempt _ (os.create_directories layout.admin_user_root)) _ s
        (attempt-Relates (Same opened) _ (os.create_directories layout.admin_user_root)
          (descriptors.create_directories layout.admin_user_root) s)
        (λ _ t.
          handled-ensures (Yields opened (λ d. d) t) (Yields opened (λ d. d) t) _ _
            (attempt _ (os.open_directory layout.admin_user_root) t)
            (attempt-Yields opened _ (os.open_directory layout.admin_user_root) t
              (descriptors.open_directory layout.admin_user_root t))
            (λ e u k. k)
            (λ root_fd u k.
              scoped-Yields opened os.close descriptors.close (λ d. d) t u root_fd
                (lock_below os at layout (lock_name os at uid unit) root_fd) k
                (lock_below-Yields layout (lock_name os at uid unit) root_fd u)))
