-- ===== src/Deployment/Bundle/Accepted.antt =====
-- Which bundles `validate_deployment_bundle` accepts.
use mathlib.Core.List.{append_cancel_right}
use pod_installer.Base.{
  ℕ, false, not, [], ◌∷◌, ◌++◌, Option, none, some, ◌≡◌, ◌≢◌, ◌↔◌, refl, sym, ap, ◌∙◌, arith, Bytes,
  text, equal, equal_iff, equal_refl, is_empty, is_empty_not_iff, ◌==◌,
}
use pod_installer.Error.{ok, reject_if, reject_if-eq-ok, >>-eq-ok, >>=-eq-ok}
use pod_installer.Quadlet.FileName.{service_unit_name_from_quadlet}
use pod_installer.Quadlet.FileName.Accepted.{IsFileName}
use pod_installer.Quadlet.FileName.Unit.{service_unit_name_from_quadlet-IsFileName}
use pod_installer.Deployment.Bundle.{
  ImageArchive, DeploymentBundle, has_empty_path, validate_deployment_bundle,
}

-- an archive that is given has a path
abbrev pub HasPath : Option ImageArchive → Type 0
HasPath none = Unit
HasPath (some archive) = archive.path ≢ []

-- Its user is not root, its Quadlet's name is proper and that of the service with ".container"
-- behind it, and an image archive has a path.
pub record IsBundle (bundle : DeploymentBundle) : Type 0 where
  pub not_root : bundle.target_uid ≢ 0
  pub name : IsFileName bundle.quadlet.file_name
  pub matches : bundle.quadlet.file_name ≡ bundle.service_name ++ text ".container"
  pub archive : HasPath bundle.image_archive

has_empty_path-HasPath :
    (archive : Option ImageArchive) → (has_empty_path archive ≡ false) ↔ HasPath archive
has_empty_path-HasPath none = ((λ _. tt), (λ _. refl))
has_empty_path-HasPath (some archive) = is_empty_not_iff archive.path

zero_iff : (n : ℕ) → ((n == 0) ≡ false) ↔ (n ≢ 0)
zero_iff n = ((λ h e. ground arith), (λ ne. ground arith))

is_empty-of_cons : (cs s : Bytes) {c : ℕ} → c ∷ cs ≡ s → is_empty s ≡ false
is_empty-of_cons cs [] e = cc
is_empty-of_cons cs (d ∷ s) e = refl

-- A bundle is accepted exactly when its user is not root, its Quadlet's name is proper and that
-- of the service with ".container" behind it, and an image archive, if given, has a path.
pub validate_deployment_bundle-IsBundle :
    (bundle : DeploymentBundle) → (validate_deployment_bundle bundle ≡ ok tt) ↔ IsBundle bundle
unfolding validate_deployment_bundle
validate_deployment_bundle-IsBundle bundle = (
  (λ h.
      let (root, h1) = >>-eq-ok (reject_if (bundle.target_uid == 0) _ _) _ h in
      let (named, h2) = >>-eq-ok (reject_if (is_empty bundle.service_name) _ _) _ h1 in
      let (unit, given, h3) =
        >>=-eq-ok (service_unit_name_from_quadlet bundle.quadlet.file_name) _ h2 in
      let (same, path) =
        >>-eq-ok (reject_if (not (equal unit (bundle.service_name ++ text ".service"))) _ _) _ h3 in
      let (f, e) =
        (service_unit_name_from_quadlet-IsFileName bundle.quadlet.file_name unit).0 given in
      let d : unit ≡ bundle.service_name ++ text ".service" =
        (equal_iff unit (bundle.service_name ++ text ".service")).0 (
          ground (
            arith,
            reject_if-eq-ok (not (equal unit (bundle.service_name ++ text ".service"))) _ _ same,
          )) in
      let stem : f.first ∷ f.stem ≡ bundle.service_name =
        append_cancel_right (f.first ∷ f.stem) bundle.service_name (text ".service") (sym e ∙ d) in
      record {
        not_root =
            (zero_iff bundle.target_uid).0 (reject_if-eq-ok (bundle.target_uid == 0) _ _ root);
        name = f;
        matches = f.splits ∙ ap (λ s. s ++ text ".container") stem;
        archive = (has_empty_path-HasPath bundle.image_archive).0 (reject_if-eq-ok _ _ _ path);
      }),
  (λ b.
      let stem : b.name.first ∷ b.name.stem ≡ bundle.service_name =
        append_cancel_right (b.name.first ∷ b.name.stem) bundle.service_name (text ".container")
          (sym b.name.splits ∙ b.matches) in
      rw
        (
          (zero_iff bundle.target_uid).1 b.not_root,
          is_empty-of_cons _ _ stem,
          (service_unit_name_from_quadlet-IsFileName bundle.quadlet.file_name
                (bundle.service_name ++ text ".service")).1
              (b.name, ap (λ s. s ++ text ".service") (sym stem)),
          equal_refl (bundle.service_name ++ text ".service"),
          (has_empty_path-HasPath bundle.image_archive).1 b.archive,
        )
        refl),
)
