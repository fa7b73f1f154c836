-- ===== src/Quadlet/Store/Keeping.antt =====
-- The operations of the installer that leave every file of the directory: its checks, and what
-- `snapshot_for_user` reads.
use pod_installer.Base.{
  ◌+◌, ℕ, zero, suc, ◌==◌, [], ◌∷◌, ◌≡◌, refl, ap, arith, ◌∙◌, Bytes, Bool-cases, inl, inr,
}
use pod_installer.Error.{Error, Result, ok, err}
use pod_installer.World.{Action, handle_with}
use pod_installer.System.{
  Outcome, returned, failed, eintr, enoent, Stat, Files, attempt, attempt-Relates,
}
use pod_installer.Quadlet.Installer.{QuadletInstallLayout, user_directory, quadlet_path}
use pod_installer.Quadlet.QuadletPolicy.{QuadletPolicy}
use pod_installer.Quadlet.FileName.{validate_quadlet_file_name}
use pod_installer.Quadlet.Files.{
  is_regular, check_directory, check_writers, ensure_directory_safe, ensure_admin_tree,
}
use pod_installer.Quadlet.Disk.{View, Kept, Disk}
use pod_installer.Quadlet.Store.{
  is_too_large, size_of, read_round, read_loop, read_checked, read_opened,
  read_regular_file_no_symlink, snapshot_at, snapshot_for_user,
}

module _ {S : Type 0} (os : Files S) (view : View S) (dir : Bytes) (disk : Disk view os dir) where
  open view use {file}

  abbrev pub Keeps : {A : Type 0} → Action S A → Type 0
  Keeps call = (s : S) → Kept view s (call s).1

  -- a call that keeps the files, with one behind it that keeps them too
  step :
      {A B : Type 0} (s : S) (next : A → Action S B) (o : Result A × S)
      → Kept view s o.1
      → ((a : A) (t : S) → Kept view s t → Kept view s (next a t).1)
      → Kept view s (handle_with (λ e t. (err e, t)) next o).1
  step s next (ok a, t) kept later = later a t kept
  step s next (err e, t) kept later = kept

  -- a system call, behind others that keep the files
  called :
      {A : Type 0} (failure : ℕ → Error) (call : S → Outcome A × S) (s t : S)
      → Kept view s t
      → ((u : S) → Kept view u (call u).1)
      → Kept view s (attempt failure call t).1
  called failure call s t kept keeps name =
      attempt-Relates (Kept view) failure call keeps t name ∙ kept name

  check_directory_state :
      (path : Bytes) (layout : QuadletInstallLayout) (st : Stat) (t : S)
      → (check_directory os path layout st t).1 ≡ t
  check_directory_state path layout st t = ground arith

  check_writers_state : (path : Bytes) (now : Stat) (t : S) → (check_writers os path now t).1 ≡ t
  check_writers_state path now t = ground arith

  -- the state is not changed at all
  same_state : (s t u : S) → u ≡ t → Kept view s t → Kept view s u
  same_state s t u e kept name = ap (file name) e ∙ kept name

  ensure_directory_safe-Keeps :
      (path : Bytes) (layout : QuadletInstallLayout) → Keeps (ensure_directory_safe os path layout)
  unfolding ensure_directory_safe
  ensure_directory_safe-Keeps path layout s =
      let looks = disk.looks in
      step s _ (attempt _ (os.create_directories path) s)
        (called _ (os.create_directories path) s s (λ name. refl) (looks.create_directories path))
        (λ _ t kept.
          step s _ (attempt _ (os.lstat path) t)
            (called _ (os.lstat path) s t kept (looks.lstat path))
            (λ st t kept.
              step s _ (check_directory os path layout st t)
                (same_state s t _ (check_directory_state path layout st t) kept)
                (λ _ t kept.
                  step s _ (attempt _ (os.chmod path 493) t)
                    (called _ (os.chmod path 493) s t kept (looks.chmod path 493))
                    (λ _ t kept.
                      step s _ (attempt _ (os.lstat path) t)
                        (called _ (os.lstat path) s t kept (looks.lstat path))
                        (λ now t kept. same_state s t _ (check_writers_state path now t) kept)))))

  pub ensure_admin_tree-Keeps :
      (uid : ℕ) (layout : QuadletInstallLayout) → Keeps (ensure_admin_tree os uid layout)
  unfolding ensure_admin_tree
  ensure_admin_tree-Keeps uid layout s =
      step s _ (ensure_directory_safe os layout.admin_user_root layout s)
        (ensure_directory_safe-Keeps layout.admin_user_root layout s)
        (λ _ t kept name.
          ensure_directory_safe-Keeps (user_directory layout uid) layout t name ∙ kept name)

  read_round-Keeps :
      (path out : Bytes) (n : ℕ) (again : ℕ → Bytes → Action S Bytes) (s : S)
      (o : Outcome Bytes × S)
      → Kept view s o.1
      → ((m : ℕ) (out' : Bytes) → Keeps (again m out'))
      → Kept view s (read_round os again path n out o).1
  read_round-Keeps path out n again s (returned [], t) kept later = kept
  read_round-Keeps path out n again s (returned (c ∷ bytes), t) kept later =
      λ name. later _ _ t name ∙ kept name
  read_round-Keeps path out n again s (failed errno, t) kept later =
      elim (Bool-cases (errno == eintr)) [
        | inl same ↦ rw same (λ name. later n out t name ∙ kept name)
        | inr other ↦ rw other kept
      ]

  read_loop-Keeps :
      (fuel fd : ℕ) (path : Bytes) (n : ℕ) (out : Bytes) → Keeps (read_loop os fuel fd path n out)
  unfolding read_loop
  read_loop-Keeps fuel fd path zero out s = λ name. refl
  read_loop-Keeps zero fd path (suc n) out s = λ name. refl
  read_loop-Keeps (suc fuel) fd path (suc n) out s =
      read_round-Keeps path out (suc n) (read_loop os fuel fd path) s (os.read fd (suc n) s)
        (disk.looks.read fd (suc n) s) (λ m out'. read_loop-Keeps fuel fd path m out')

  read_checked-Keeps :
      (fd : ℕ) (path : Bytes) (max_size : ℕ) (st : Stat)
      → Keeps (read_checked os fd path max_size st)
  read_checked-Keeps fd path max_size st s = elim (Bool-cases (is_regular st.kind)) [
    | inr special ↦ rw special (λ name. refl)
    | inl regular ↦ rw regular (elim (Bool-cases (is_too_large os st.size max_size)) [
      | inl large ↦ rw large (λ name. refl)
      | inr fits ↦ rw fits (
          read_loop-Keeps (size_of os st.size + os.interruptions s) fd path (size_of os st.size) []
            s)
    ])
  ]

  read_regular_file_no_symlink-Keeps :
      (path : Bytes) (max_size : ℕ) → Keeps (read_regular_file_no_symlink os path max_size)
  unfolding read_regular_file_no_symlink
  read_regular_file_no_symlink-Keeps path max_size s =
      step s _ (attempt _ (os.open_no_follow path) s)
        (called _ (os.open_no_follow path) s s (λ name. refl) (disk.looks.open_no_follow path))
        (λ fd t kept name.
          disk.looks.close fd (read_opened os fd path max_size t).1 name
          ∙ read_opened-Keeps fd t name
          ∙ kept name)
    where
      read_opened-Keeps : (fd : ℕ) → Keeps (read_opened os fd path max_size)
      read_opened-Keeps fd t =
          step t _ (attempt _ (os.fstat fd) t)
            (called _ (os.fstat fd) t t (λ name. refl) (disk.looks.fstat fd))
            (λ st u kept name. read_checked-Keeps fd path max_size st u name ∙ kept name)

  snapshot_at-Keeps :
      (layout : QuadletInstallLayout) (rules : QuadletPolicy) (path file_name : Bytes) (s : S)
      (o : Outcome Stat × S)
      → Kept view s o.1
      → Kept view s (snapshot_at os layout rules path file_name o).1
  snapshot_at-Keeps layout rules path file_name s (failed errno, t) kept =
      elim (Bool-cases (errno == enoent)) [
        | inl absent ↦ rw absent kept
        | inr other ↦ rw other kept
      ]
  snapshot_at-Keeps layout rules path file_name s (returned st, t) kept =
      step s _ (read_regular_file_no_symlink os path layout.max_quadlet_bytes t)
        (λ name.
          read_regular_file_no_symlink-Keeps path layout.max_quadlet_bytes t name ∙ kept name)
        (λ contents u kept'. kept')

  pub snapshot_for_user-Keeps :
      (layout : QuadletInstallLayout) (rules : QuadletPolicy) (uid : ℕ) (file_name : Bytes)
      → Keeps (snapshot_for_user os layout rules uid file_name)
  unfolding snapshot_for_user
  snapshot_for_user-Keeps layout rules uid file_name s =
      let path = quadlet_path layout uid file_name in
      step s _ (validate_quadlet_file_name file_name, s) (λ name. refl)
        (λ _ t kept.
          step s _ (ensure_admin_tree os uid layout t)
            (λ name. ensure_admin_tree-Keeps uid layout t name ∙ kept name)
            (λ _ u kept'.
              snapshot_at-Keeps layout rules path file_name s (os.lstat path u)
                (λ name. disk.looks.lstat path u name ∙ kept' name)))
