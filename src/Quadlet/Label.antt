-- ===== src/Quadlet/Label.antt =====
-- `validate_managed_label` of src/quadlet.cpp.
pub mod Managed
use pod_installer.Base.{
  ℕ, ◌+◌, Bool, true, false, not, ◌&&◌, ◌||◌, List, [], ◌∷◌, ◌++◌, Bytes, text, equal, find, ◌==◌,
  if◌then◌else◌,
}
use pod_installer.Error.{Checked, policy, reject_if}
use pod_installer.Quadlet.Strings.{trim}
use pod_installer.Quadlet.HostPath.{before_mark, behind_mark}
use pod_installer.Quadlet.Parsed.{ParsedQuadlet, values}
use pod_installer.Quadlet.QuadletPolicy.{QuadletPolicy}

-- the two sides of the first '=' of a label
unfoldable pub label_key : Bytes → Bytes
label_key label = trim (before_mark label (find b'=' label))

unfoldable pub label_value : Bytes → Bytes
label_value label = trim (behind_mark label (find b'=' label))

-- the counters of the loop
pub record LabelCount : Type 0 where
  pub managed_labels : ℕ
  pub matches : ℕ

abbrev pub no_labels : LabelCount
no_labels = record { managed_labels = 0; matches = 0 }

-- the body of the loop
unfoldable pub count_label : QuadletPolicy → LabelCount → Bytes → LabelCount
unfolding label_key label_value
count_label rules n label =
    let managed = equal (label_key label) rules.managed_label_key in
    let right = managed && equal (label_value label) rules.managed_label_value in
    record {
      managed_labels = if managed then n.managed_labels + 1 else n.managed_labels;
      matches = if right then n.matches + 1 else n.matches;
    }

-- the loop over the labels
pub count_labels : QuadletPolicy → LabelCount → List Bytes → LabelCount
count_labels rules n [] = n
count_labels rules n (label ∷ labels) = count_labels rules (count_label rules n label) labels

-- the test behind the loop
abbrev pub is_wrong_count : LabelCount → Bool
is_wrong_count n = not (n.managed_labels == 1) || not (n.matches == 1)

unfoldable pub validate_managed_label : ParsedQuadlet → QuadletPolicy → Checked
unfolding count_labels count_label
validate_managed_label parsed rules =
    let counted = count_labels rules no_labels (values parsed (text "Container") (text "Label")) in
    reject_if (is_wrong_count counted) policy (
      text "Quadlet must carry exactly one managed Label="
      ++ rules.managed_label_key
      ++ text "="
      ++ rules.managed_label_value)
