-- ===== src/Quadlet/Store/Installed.antt =====
-- What the operations of `QuadletInstaller` do to the directory of one user.
use mathlib.Core.Path.{subst}
use pod_installer.Base.{
  ℕ, Option, some, ◌≡◌, inl, refl, arith, Bytes, Lacks, All-map, All-of_any_not,
}
use pod_installer.Error.{Error, Result, ok, err}
use pod_installer.World.{give-rule, handled-ensures}
use pod_installer.System.{Files}
use pod_installer.Target.{filename, parent_path}
use pod_installer.Target.Paths.{join-splits, join-to_string-IsBare}
use pod_installer.Quadlet.Strings.{contains_control_or_slash}
use pod_installer.Quadlet.QuadletPolicy.{QuadletFile, QuadletPolicy}
use pod_installer.Quadlet.FileName.{validate_quadlet_file_name, service_unit_name_from_quadlet}
use pod_installer.Quadlet.FileName.Accepted.{validate_quadlet_file_name-tests}
use pod_installer.Quadlet.Installer.{
  InstalledQuadlet, QuadletInstallLayout, user_directory, quadlet_path, expected_install,
}
use pod_installer.Quadlet.Files.{ensure_admin_tree}
use pod_installer.Quadlet.Disk.{View, Kept, Disk}
use pod_installer.Quadlet.Store.{atomic_write_file, install_for_user}
use pod_installer.Quadlet.Store.Atomic.{
  Becomes, Replaced, Becomes-between, atomic_write_file-Replaced,
}
use pod_installer.Quadlet.Store.Keeping.{ensure_admin_tree-Keeps}

-- an accepted name is one component of a path
accepted-Lacks : (name : Bytes) → validate_quadlet_file_name name ≡ ok tt → Lacks b'/' name
unfolding contains_control_or_slash
accepted-Lacks name h =
    let (_, _, _, plain, _, _) = (validate_quadlet_file_name-tests name).0 h in
    All-map _ _ name (λ c e. ground arith) (All-of_any_not _ name plain)

-- so its path is taken apart into the directory of the user and the name
pub quadlet_path-splits :
    (layout : QuadletInstallLayout) (uid : ℕ) (name : Bytes)
    → validate_quadlet_file_name name ≡ ok tt
    → (parent_path (quadlet_path layout uid name) ≡ user_directory layout uid)
      × (filename (quadlet_path layout uid name) ≡ name)
unfolding quadlet_path user_directory
quadlet_path-splits layout uid name h =
    join-splits (user_directory layout uid) name (join-to_string-IsBare layout.admin_user_root uid)
      (accepted-Lacks name h)

module _ {S : Type 0} (os : Files S) (view : View S) (layout : QuadletInstallLayout)
    (rules : QuadletPolicy) (uid : ℕ) (disk : Disk view os (user_directory layout uid)) where
  open view use {file, Opened}

  abbrev dir : Bytes
  dir = user_directory layout uid

  -- the file is written at its path below the directory
  pub written :
      (name contents : Bytes) (s : S)
      → validate_quadlet_file_name name ≡ ok tt
      → Replaced os view dir disk name contents s
          (atomic_write_file os (quadlet_path layout uid name) contents 420 s)
  written name contents s accepted =
      let (parent, last) = quadlet_path-splits layout uid name accepted in
      subst
        (λ n.
          Replaced os view dir disk n contents s
            (atomic_write_file os (quadlet_path layout uid name) contents 420 s))
        last
        (atomic_write_file-Replaced os view dir disk 420 (quadlet_path layout uid name) contents s
          parent)

  expected-accepted :
      (quadlet : QuadletFile) (expected : InstalledQuadlet)
      → expected_install layout rules uid quadlet ≡ ok expected
      → (validate_quadlet_file_name quadlet.file_name ≡ ok tt)
        × (expected.path ≡ quadlet_path layout uid quadlet.file_name)
  unfolding expected_install service_unit_name_from_quadlet
  expected-accepted quadlet expected h = ground arith

  -- the same for an operation that returns something
  abbrev pub Replaces : {A : Type 0} → Bytes → Bytes → S → Result A × S → Type 0
  Replaces name contents s (ok a, t) = Replaced os view dir disk name contents s (ok tt, t)
  Replaces name contents s (err e, t) = Replaced os view dir disk name contents s (err e, t)

  pub untouched :
      (name : Bytes) (after : Option Bytes) (s t : S) (e : Error)
      → Kept view s t
      → Becomes os view dir disk name after s (err e, t)
  untouched name after s t e kept = (inl (kept name), λ other h shown. kept other)

  pub checks-Kept : (s : S) → Kept view s (ensure_admin_tree os uid layout s).1
  checks-Kept s = ensure_admin_tree-Keeps os view dir disk uid layout s

  -- An installation is atomic: without an error the Quadlet has the contents, and with one it is
  -- what it was or has them.
  pub install_for_user-Replaces :
      (quadlet : QuadletFile) (s : S)
      → Replaces quadlet.file_name quadlet.contents s
          (install_for_user os layout rules uid quadlet s)
  unfolding install_for_user
  install_for_user-Replaces quadlet s =
      let name = quadlet.file_name in
      give-rule (Replaces name quadlet.contents s) _ s (expected_install layout rules uid quadlet)
        (λ e h. untouched name (some quadlet.contents) s s e (λ other. refl))
        (λ expected h.
          let (accepted, path) = expected-accepted quadlet expected h in
          handled-ensures (λ o. Kept view s o.1) (Replaces name quadlet.contents s) _ _
            (ensure_admin_tree os uid layout s) (checks-Kept s)
            (λ e t kept. untouched name (some quadlet.contents) s t e kept)
            (λ _ t kept.
              handled-ensures (Replaced os view dir disk name quadlet.contents t)
                (Replaces name quadlet.contents s) _ _
                (atomic_write_file os expected.path quadlet.contents 420 t)
                (rw path (written name quadlet.contents t accepted))
                (λ e u.
                  Becomes-between os view dir disk name (some quadlet.contents) s t u u (err e) kept
                    (λ other. refl))
                (λ _ u.
                  Becomes-between os view dir disk name (some quadlet.contents) s t u u (ok tt) kept
                    (λ other. refl))))
