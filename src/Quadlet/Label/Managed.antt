-- ===== src/Quadlet/Label/Managed.antt =====
-- Which labels `validate_managed_label` accepts.
use pod_installer.Base.{
  ◌+◌, ◌≤◌, true, false, List, [], ◌∷◌, ◌++◌, ◌≡◌, ◌≢◌, ◌↔◌, refl, sym, ap, ◌∙◌, arith, Bytes, text,
  equal, equal_iff, if◌then◌else◌, All, Bool-cases, inl, inr,
}
use pod_installer.Error.{ok, reject_if-eq-ok}
use pod_installer.Quadlet.Parsed.{ParsedQuadlet, values}
use pod_installer.Quadlet.QuadletPolicy.{QuadletPolicy}
use pod_installer.Quadlet.Label.{
  label_key, label_value, LabelCount, no_labels, count_label, count_labels, is_wrong_count,
  validate_managed_label,
}

-- One label has the managed key, its value is the managed value, and all others have other keys.
pub record HasManagedLabel (rules : QuadletPolicy) (labels : List Bytes) : Type 0 where
  pub before : List Bytes
  pub label : Bytes
  pub after : List Bytes
  pub splits : labels ≡ before ++ label ∷ after
  pub right_key : label_key label ≡ rules.managed_label_key
  pub right_value : label_value label ≡ rules.managed_label_value
  pub none_before : All (λ l. label_key l ≢ rules.managed_label_key) before
  pub none_after : All (λ l. label_key l ≢ rules.managed_label_key) after

module _ (rules : QuadletPolicy) where
  abbrev counted : LabelCount → List Bytes → LabelCount
  counted = count_labels rules

  abbrev Others : List Bytes → Type 0
  Others = All (λ l. label_key l ≢ rules.managed_label_key)

  count_label-other :
      (n : LabelCount) (l : Bytes)
      → equal (label_key l) rules.managed_label_key ≡ false
      → count_label rules n l ≡ n
  count_label-other n l h = unfold count_label in ground arith

  count_label-managed :
      (n : LabelCount) (l : Bytes)
      → equal (label_key l) rules.managed_label_key ≡ true
      → count_label rules n l ≡ record {
        managed_labels = n.managed_labels + 1;
        matches =
            if equal (label_value l) rules.managed_label_value then n.matches + 1 else n.matches;
      }
  count_label-managed n l h = unfold count_label in ground arith

  counted-other :
      (n : LabelCount) (l : Bytes) (labels : List Bytes)
      → equal (label_key l) rules.managed_label_key ≡ false
      → counted n (l ∷ labels) ≡ counted n labels
  unfolding count_labels
  counted-other n l labels h = ap (λ m. counted m labels) (count_label-other n l h)

  le-counted :
      (labels : List Bytes) (n : LabelCount) → n.managed_labels ≤ (counted n labels).managed_labels
  unfolding count_labels
  le-counted [] n = omega arith
  le-counted (l ∷ labels) n = elim (Bool-cases (equal (label_key l) rules.managed_label_key)) [
    | inl managed ↦ omega (
      arith,
      le-counted labels (count_label rules n l),
      ap (λ c. c.managed_labels) (count_label-managed n l managed),
    )
    | inr other ↦
        omega
          (arith, le-counted labels n, ap (λ c. c.managed_labels) (counted-other n l labels other))
  ]

  counted-Others : (labels : List Bytes) (n : LabelCount) → Others labels → counted n labels ≡ n
  unfolding count_labels
  counted-Others [] n h = refl
  counted-Others (l ∷ labels) n (ne, h) =
      let other : equal (label_key l) rules.managed_label_key ≡ false =
        ground (arith, equal_iff (label_key l) rules.managed_label_key) in
      rw (count_label-other n l other) (counted-Others labels n h)

  Others-of_counted :
      (labels : List Bytes) (n : LabelCount)
      → (counted n labels).managed_labels ≡ n.managed_labels
      → Others labels
  unfolding count_labels
  Others-of_counted [] n e = tt
  Others-of_counted (l ∷ labels) n e =
      elim (Bool-cases (equal (label_key l) rules.managed_label_key)) [
        | inl managed ↦ absurd (
            omega (
              arith,
              le-counted labels (count_label rules n l),
              ap (λ c. c.managed_labels) (count_label-managed n l managed),
            ))
        | inr other ↦ (
          ground (arith, equal_iff (label_key l) rules.managed_label_key),
          Others-of_counted labels n
              (ap (λ c. c.managed_labels) (sym (counted-other n l labels other)) ∙ e),
        )
      ]

  HasManagedLabel-cons :
      (l : Bytes) (labels : List Bytes)
      → label_key l ≢ rules.managed_label_key
      → HasManagedLabel rules labels
      → HasManagedLabel rules (l ∷ labels)
  HasManagedLabel-cons l labels ne m = record {
    before = l ∷ m.before;
    label = m.label;
    after = m.after;
    splits = ap (◌∷◌ l) m.splits;
    right_key = m.right_key;
    right_value = m.right_value;
    none_before = (ne, m.none_before);
    none_after = m.none_after;
  }

  HasManagedLabel-of_count :
      (labels : List Bytes)
      → is_wrong_count (counted no_labels labels) ≡ false
      → HasManagedLabel rules labels
  unfolding count_labels
  HasManagedLabel-of_count [] h = absurd (ground arith)
  HasManagedLabel-of_count (l ∷ labels) h =
      elim (Bool-cases (equal (label_key l) rules.managed_label_key)) [
        | inl managed ↦
            let next = count_label rules no_labels l in
            let once = count_label-managed no_labels l managed in
            let others = Others-of_counted labels next (ground (arith, once)) in
            record {
              before = [];
              label = l;
              after = labels;
              splits = refl;
              right_key = (equal_iff _ _).0 managed;
              right_value = ground (
                arith,
                once,
                counted-Others labels next others,
                equal_iff (label_value l) rules.managed_label_value,
              );
              none_before = tt;
              none_after = others;
            }
        | inr other ↦
            HasManagedLabel-cons l labels
              (ground (arith, equal_iff (label_key l) rules.managed_label_key))
              (HasManagedLabel-of_count labels
                (ap is_wrong_count (sym (counted-other no_labels l labels other)) ∙ h))
      ]

  counted-HasManagedLabel :
      (before : List Bytes) (l : Bytes) (after : List Bytes)
      → label_key l ≡ rules.managed_label_key
      → label_value l ≡ rules.managed_label_value
      → Others before
      → Others after
      → is_wrong_count (counted no_labels (before ++ l ∷ after)) ≡ false
  unfolding count_labels
  counted-HasManagedLabel [] l after right_key right_value _ later = ground (
    arith,
    count_label-managed no_labels l ((equal_iff _ _).1 right_key),
    counted-Others after (count_label rules no_labels l) later,
    equal_iff (label_value l) rules.managed_label_value,
  )
  counted-HasManagedLabel (b ∷ before) l after right_key right_value (ne, h) later =
      let other : equal (label_key b) rules.managed_label_key ≡ false =
        ground (arith, equal_iff (label_key b) rules.managed_label_key) in
      ap is_wrong_count (counted-other no_labels b (before ++ l ∷ after) other)
      ∙ counted-HasManagedLabel before l after right_key right_value h later

-- The check passes exactly when just one `Label=` of the container has the managed key, and
-- its value is the managed value.
pub validate_managed_label-HasManagedLabel :
    (parsed : ParsedQuadlet) (rules : QuadletPolicy)
    → (validate_managed_label parsed rules ≡ ok tt)
      ↔ HasManagedLabel rules (values parsed (text "Container") (text "Label"))
unfolding validate_managed_label
validate_managed_label-HasManagedLabel parsed rules = (
  (λ h. HasManagedLabel-of_count rules _ (reject_if-eq-ok _ _ _ h)),
  λ m.
      rw
        (
          m.splits,
          counted-HasManagedLabel rules m.before m.label m.after m.right_key m.right_value
              m.none_before m.none_after,
        )
        refl,
)
