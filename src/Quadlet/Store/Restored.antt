-- ===== src/Quadlet/Store/Restored.antt =====
-- How a Quadlet is removed, and how a snapshot of it is taken and restored.
use mathlib.Core.Path.{subst}
use pod_installer.Base.{
  ℕ, ◌==◌, ==_iff, Option, none, ◌≡◌, inl, inr, refl, sym, ap, ◌∙◌, Bytes, Bool-cases,
  if◌then◌else◌,
}
use pod_installer.Error.{Result, ok, err}
use pod_installer.World.{Action, ◌>>◌, handle_with, give-rule, handled-ensures, finally-ensures}
use pod_installer.System.{Outcome, returned, failed, enoent, Stat, Files, attempt, attempt-ends}
use pod_installer.Target.{same_path, filename}
use pod_installer.Quadlet.QuadletPolicy.{QuadletPolicy}
use pod_installer.Quadlet.FileName.{validate_quadlet_file_name}
use pod_installer.Quadlet.Installer.{
  QuadletSnapshot, saved, QuadletInstallLayout, user_directory, quadlet_path,
}
use pod_installer.Quadlet.Files.{ensure_admin_tree}
use pod_installer.Quadlet.Disk.{View, Kept, KeptBut, Disk}
use pod_installer.Quadlet.Store.{
  atomic_write_file, fsync_directory, unlinked, remove_in_directory, unlink_quadlet_file,
  snapshot_at, snapshot_for_user, restore_checked, restore_for_user, remove_for_user,
  read_regular_file_no_symlink,
}
use pod_installer.Quadlet.Store.Atomic.{OpenedAt, attempt-OpenedAt, Becomes, Becomes-between}
use pod_installer.Quadlet.Store.ReadBack.{ReadBack, read_regular_file_no_symlink-ReadBack}
use pod_installer.Quadlet.Store.Installed.{quadlet_path-splits, written, untouched, checks-Kept}

module _ {S : Type 0} (os : Files S) (view : View S) (layout : QuadletInstallLayout)
    (rules : QuadletPolicy) (uid : ℕ) (disk : Disk view os (user_directory layout uid)) where
  open view use {file, Opened}

  abbrev dir : Bytes
  dir = user_directory layout uid

  -- behind the `unlinkat`
  abbrev Unlinked : Bytes → S → Result (Unit {0}) × S → Type 0
  Unlinked name s (ok _, t) = (file name t ≡ none) × KeptBut view name s t
  Unlinked name s (err e, t) = Kept view s t

  unlinked_lem :
      (d : ℕ) (path name : Bytes) (s : S) (o : Outcome (Unit {0}) × S)
      → Opened d s
      → os.unlinkat d name s ≡ o
      → Unlinked name s (unlinked os path o)
  unlinked_lem d path name s (returned _, t) opened e =
      let (gone, but, _) = disk.links.unlinked d name s t opened e in (gone, but)
  unlinked_lem d path name s (failed errno, t) opened e =
      let (kept, _, absent) = disk.links.not_unlinked d errno name s t opened e in
      elim (Bool-cases (errno == enoent)) [
        | inl missing ↦
            rw missing (kept name ∙ absent ((==_iff errno enoent).0 missing), λ other h. kept other)
        | inr other ↦ rw other kept
      ]

  removed_in_directory :
      (d : ℕ) (path : Bytes) (s : S)
      → Opened d s
      → Becomes os view dir disk (filename path) none s (remove_in_directory os d path s)
  unfolding fsync_directory
  removed_in_directory d path s opened =
      let name = filename path in
      handled-ensures (Unlinked name s) (Becomes os view dir disk name none s) _ _
        (unlinked os path (os.unlinkat d name s))
        (unlinked_lem d path name s (os.unlinkat d name s) opened refl)
        (λ e t kept. untouched os view layout rules uid disk name none s t e kept)
        (λ _ t (gone, but).
          attempt-ends (Kept view t) (Becomes os view dir disk name none s) _ (os.fsync d) t
            (disk.looks.fsync d t)
            (λ u v kept. (kept name ∙ gone, λ other h. kept other ∙ but other h))
            (λ errno v kept. (inr (kept name ∙ gone), λ other h shown. kept other ∙ but other h)))

  unlink_quadlet_file-Becomes :
      (name : Bytes) (s : S)
      → validate_quadlet_file_name name ≡ ok tt
      → Becomes os view dir disk name none s
          (unlink_quadlet_file os (quadlet_path layout uid name) s)
  unfolding unlink_quadlet_file
  unlink_quadlet_file-Becomes name s accepted =
      let path = quadlet_path layout uid name in
      let (parent, last) = quadlet_path-splits layout uid name accepted in
      rw parent (
        handled-ensures (OpenedAt os view dir disk s) (Becomes os view dir disk name none s) _ _
          (attempt _ (os.open_directory dir) s) (attempt-OpenedAt os view dir disk s _)
          (λ e t kept. untouched os view layout rules uid disk name none s t e kept)
          (λ d t (kept, opened).
            finally-ensures (Becomes os view dir disk name none t)
              (Becomes os view dir disk name none s) (os.close d) (remove_in_directory os d path) t
              (subst (λ n. Becomes os view dir disk n none t (remove_in_directory os d path t)) last
                (removed_in_directory d path t opened))
              (λ r v.
                Becomes-between os view dir disk name none s t v (os.close d v) r kept
                  (disk.looks.close d v))))

  -- behind the checks of the name and of the directories
  checked-Becomes :
      (name : Bytes) (after : Option Bytes) (work : Action S (Unit {0})) (s : S)
      → (validate_quadlet_file_name name ≡ ok tt
          → (t : S) → Becomes os view dir disk name after t (work t))
      → Becomes os view dir disk name after s (
          handle_with
            (λ e t. (err e, t))
            (λ _. ensure_admin_tree os uid layout >> work)
            (validate_quadlet_file_name name, s))
  checked-Becomes name after work s works =
      give-rule (Becomes os view dir disk name after s) _ s (validate_quadlet_file_name name)
        (λ e h. untouched os view layout rules uid disk name after s s e (λ other. refl))
        (λ _ accepted.
          handled-ensures (λ o. Kept view s o.1) (Becomes os view dir disk name after s) _ _
            (ensure_admin_tree os uid layout s) (checks-Kept os view layout rules uid disk s)
            (λ e t kept. untouched os view layout rules uid disk name after s t e kept)
            (λ _ t kept.
              Becomes-between os view dir disk name after s t _ (work t).1 (work t).0 kept
                (λ other. refl) (works accepted t)))

  -- Without an error the Quadlet is gone, and with one it is what it was or gone.
  pub remove_for_user-Becomes :
      (name : Bytes) (s : S)
      → Becomes os view dir disk name none s (remove_for_user os layout rules uid name s)
  unfolding remove_for_user
  remove_for_user-Becomes name s =
      checked-Becomes name none (unlink_quadlet_file os (quadlet_path layout uid name)) s
        (λ accepted t. unlink_quadlet_file-Becomes name t accepted)

  restored_work :
      (snapshot : QuadletSnapshot) (path : Bytes) (s : S)
      → path ≡ quadlet_path layout uid snapshot.file_name
      → validate_quadlet_file_name snapshot.file_name ≡ ok tt
      → Becomes os view dir disk snapshot.file_name (saved snapshot) s (
          (if snapshot.existed
              then atomic_write_file os path snapshot.contents 420
              else unlink_quadlet_file os path)
            s)
  restored_work snapshot path s here accepted = rw here (elim (Bool-cases snapshot.existed) [
    | inl there ↦
        rw there
          (written os view layout rules uid disk snapshot.file_name snapshot.contents s accepted)
    | inr absent ↦ rw absent (unlink_quadlet_file-Becomes snapshot.file_name s accepted)
  ])

  -- A restore is atomic: without an error the Quadlet of that name is what the snapshot holds, and
  -- with one it is what it was or what the snapshot holds.
  pub restore_for_user-Becomes :
      (snapshot : QuadletSnapshot) (s : S)
      → Becomes os view dir disk snapshot.file_name
          (saved snapshot)
          s
          (restore_for_user os layout rules uid snapshot s)
  unfolding restore_for_user
  restore_for_user-Becomes snapshot s =
      let name = snapshot.file_name in
      let path = quadlet_path layout uid name in
      checked-Becomes name (saved snapshot) (restore_checked os path snapshot) s (λ accepted t.
        elim (Bool-cases (same_path path snapshot.path)) [
          | inl same ↦ rw same (restored_work snapshot path t refl accepted)
          | inr other ↦ rw other (inl refl, λ n h shown. refl)
        ])

  -- a snapshot of this name that holds what was there
  abbrev pub Saved : Bytes → S → Result QuadletSnapshot × S → Type 0
  Saved name s (ok snapshot, t) = (saved snapshot ≡ file name s) × (snapshot.file_name ≡ name)
  Saved name s (err e, t) = Unit {0}

  snapshot_at-Saved :
      (name : Bytes) (s t : S) (o : Outcome Stat × S)
      → validate_quadlet_file_name name ≡ ok tt
      → Kept view s t
      → os.lstat (quadlet_path layout uid name) t ≡ o
      → Saved name s (snapshot_at os layout rules (quadlet_path layout uid name) name o)
  snapshot_at-Saved name s t (failed errno, u) accepted kept e =
      let path = quadlet_path layout uid name in
      let (parent, last) = quadlet_path-splits layout uid name accepted in
      elim (Bool-cases (errno == enoent)) [
        | inl missing ↦
            let absent : file (filename path) t ≡ none =
              disk.reading.absent path t u parent
                (e ∙ ap (λ n. (failed n, u)) ((==_iff errno enoent).0 missing)) in
            rw missing (sym (sym (kept name) ∙ ap (λ n. file n t) (sym last) ∙ absent), refl)
        | inr other ↦ rw other tt
      ]
  snapshot_at-Saved name s t (returned st, u) accepted kept e =
      let path = quadlet_path layout uid name in
      let (parent, last) = quadlet_path-splits layout uid name accepted in
      let kept_by_stat : file name u ≡ file name t =
        ap (λ o. file name o.1) (sym e) ∙ disk.looks.lstat path t name in
      handled-ensures (ReadBack os view dir disk (filename path) u) (Saved name s) _ _
        (read_regular_file_no_symlink os path layout.max_quadlet_bytes u)
        (read_regular_file_no_symlink-ReadBack os view dir disk path layout.max_quadlet_bytes u
          parent)
        (λ e v _. tt)
        (λ contents v there. (sym there ∙ ap (λ n. file n u) last ∙ kept_by_stat ∙ kept name, refl))

  -- A snapshot holds what the Quadlet of that name was, or that there was none.
  pub snapshot_for_user-Saved :
      (name : Bytes) (s : S) → Saved name s (snapshot_for_user os layout rules uid name s)
  unfolding snapshot_for_user
  snapshot_for_user-Saved name s =
      give-rule (Saved name s) _ s (validate_quadlet_file_name name) (λ e h. tt)
        (λ _ accepted.
          handled-ensures (λ o. Kept view s o.1) (Saved name s) _ _
            (ensure_admin_tree os uid layout s) (checks-Kept os view layout rules uid disk s)
            (λ e t kept. tt) (λ _ t kept. snapshot_at-Saved name s t _ accepted kept refl))

  -- A snapshot that is restored, whatever became of the files since, brings its Quadlet back to
  -- what it was, none where there was none, and no other file is touched.
  pub restore_for_user-snapshot_for_user :
      (name : Bytes) (snapshot : QuadletSnapshot) (s t u v : S)
      → snapshot_for_user os layout rules uid name s ≡ (ok snapshot, t)
      → restore_for_user os layout rules uid snapshot u ≡ (ok tt, v)
      → (file name v ≡ file name s) × KeptBut view name u v
  restore_for_user-snapshot_for_user name snapshot s t u v taken restored =
      let (holds, same_name) = subst (Saved name s) taken (snapshot_for_user-Saved name s) in
      let (back, others) =
        subst (Becomes os view dir disk snapshot.file_name (saved snapshot) u) restored
          (restore_for_user-Becomes snapshot u) in
      (
        ap (λ n. file n v) (sym same_name) ∙ back ∙ holds,
        λ other ne. others other (λ e. ne (e ∙ same_name)),
      )
