-- ===== src/Quadlet/FileName/Unit.antt =====
-- The unit that a Quadlet file stands for.
use mathlib.Core.List.{append_cancel_right}
use pod_installer.Base.{
  ◌-◌, ◌∷◌, ◌++◌, ◌≡◌, ◌↔◌, sym, ap, ◌∙◌, arith, Bytes, text, length, length-append, take,
  take-append_length,
}
use pod_installer.Error.{ok, >>-eq-ok}
use pod_installer.Quadlet.FileName.{validate_quadlet_file_name, service_unit_name_from_quadlet}
use pod_installer.Quadlet.FileName.Accepted.{IsFileName, validate_quadlet_file_name-IsFileName}

take_front :
    (front back : Bytes) → take (length (front ++ back) - length back) (front ++ back) ≡ front
take_front front back =
    let e : length (front ++ back) - length back ≡ length front =
      omega (arith, length-append {0} front back) in
    rw e (take-append_length front back)

take_stem :
    (file_name : Bytes) (f : IsFileName file_name)
    → take (length file_name - length (text ".container")) file_name ≡ f.first ∷ f.stem
take_stem file_name f =
    ap (λ s. take (length s - length (text ".container")) s) f.splits
    ∙ take_front (f.first ∷ f.stem) (text ".container")

-- The unit name is the file name with ".service" in place of ".container", and there is one
-- exactly for the file names that are accepted.
pub service_unit_name_from_quadlet-IsFileName :
    (file_name unit : Bytes)
    → (service_unit_name_from_quadlet file_name ≡ ok unit)
      ↔ ((f : IsFileName file_name) × (unit ≡ f.first ∷ f.stem ++ text ".service"))
unfolding service_unit_name_from_quadlet
service_unit_name_from_quadlet-IsFileName file_name unit = (
  (λ h.
      let (accepted, e) = >>-eq-ok (validate_quadlet_file_name file_name) _ h in
      let f = (validate_quadlet_file_name-IsFileName file_name).0 accepted in
      (f, ground (arith, ap (λ s. s ++ text ".service") (take_stem file_name f)))),
  λ (f, e).
      rw ((validate_quadlet_file_name-IsFileName file_name).1 f)
        (ap ok (ap (λ s. s ++ text ".service") (take_stem file_name f) ∙ sym e)),
)

-- Two Quadlet files with one unit are one file.
pub service_unit_name_from_quadlet_inj :
    (file_name file_name' unit : Bytes)
    → service_unit_name_from_quadlet file_name ≡ ok unit
    → service_unit_name_from_quadlet file_name' ≡ ok unit
    → file_name ≡ file_name'
service_unit_name_from_quadlet_inj a b unit h k =
    let (f, e) = (service_unit_name_from_quadlet-IsFileName a unit).0 h in
    let (g, d) = (service_unit_name_from_quadlet-IsFileName b unit).0 k in
    let same : f.first ∷ f.stem ≡ g.first ∷ g.stem =
      append_cancel_right (f.first ∷ f.stem) (g.first ∷ g.stem) (text ".service") (sym e ∙ d) in
    f.splits ∙ ap (λ s. s ++ text ".container") same ∙ sym g.splits
