-- ===== src/Http/Header.antt =====
-- What `HttpResponse::header` finds.
use pod_installer.Base.{
  List, [], ◌∷◌, ◌++◌, some, ◌≡◌, ◌≢◌, ◌↔◌, refl, ap, arith, Bytes, equal, equal_iff, All,
  Bool-cases, inl, inr,
}
use pod_installer.Http.{HttpResponse, lower_ascii, find_header, header}

-- `value` belongs to the first header of that name, whatever the case of its letters
pub record IsFirst (name : Bytes) (headers : List (Bytes × Bytes)) (value : Bytes) : Type 0 where
  pub before : List (Bytes × Bytes)
  pub key : Bytes
  pub after : List (Bytes × Bytes)
  pub splits : headers ≡ before ++ (key, value) ∷ after
  pub same_name : lower_ascii key ≡ lower_ascii name
  pub others : All (λ field. lower_ascii field.0 ≢ lower_ascii name) before

module _ (name : Bytes) where
  IsFirst-here :
      (key value : Bytes) (rest : List (Bytes × Bytes))
      → lower_ascii key ≡ lower_ascii name
      → IsFirst name ((key, value) ∷ rest) value
  IsFirst-here key value rest e = record {
    before = [];
    key = key;
    after = rest;
    splits = refl;
    same_name = e;
    others = tt;
  }

  IsFirst-cons :
      (key skipped value : Bytes) (rest : List (Bytes × Bytes))
      → lower_ascii key ≢ lower_ascii name
      → IsFirst name rest value
      → IsFirst name ((key, skipped) ∷ rest) value
  IsFirst-cons key skipped value rest ne f = record {
    before = (key, skipped) ∷ f.before;
    key = f.key;
    after = f.after;
    splits = ap (◌∷◌ (key, skipped)) f.splits;
    same_name = f.same_name;
    others = (ne, f.others);
  }

  find_header_sound :
      (headers : List (Bytes × Bytes)) (value : Bytes)
      → find_header (lower_ascii name) headers ≡ some value
      → IsFirst name headers value
  unfolding find_header
  find_header_sound [] value h = cc
  find_header_sound ((key, v) ∷ rest) value h =
      elim (Bool-cases (equal (lower_ascii key) (lower_ascii name))) [
        | inl same ↦
            let e : v ≡ value = ground arith in
            rw e (IsFirst-here key value rest ((equal_iff _ _).0 same))
        | inr other ↦
            IsFirst-cons key v value rest (λ e. ground (arith, (equal_iff _ _).1 e))
              (find_header_sound rest value (ground arith))
      ]

  find_header_complete :
      (before : List (Bytes × Bytes)) (key value : Bytes) (after : List (Bytes × Bytes))
      → lower_ascii key ≡ lower_ascii name
      → All (λ field. lower_ascii field.0 ≢ lower_ascii name) before
      → find_header (lower_ascii name) (before ++ (key, value) ∷ after) ≡ some value
  unfolding find_header
  find_header_complete [] key value after e _ = rw ((equal_iff _ _).1 e)
  find_header_complete ((k, v) ∷ before) key value after e (ne, others) = ground (
    arith,
    equal_iff (lower_ascii k) (lower_ascii name),
    find_header_complete before key value after e others,
  )

-- `header` returns a value exactly when that value belongs to the first header whose name
-- equals the wanted one up to the case of ASCII letters.
pub header-IsFirst :
    (response : HttpResponse) (name value : Bytes)
    → (header response name ≡ some value) ↔ IsFirst name response.headers value
unfolding header
header-IsFirst response name value = (
  find_header_sound name response.headers value,
  λ f. rw f.splits (find_header_complete name f.before f.key value f.after f.same_name f.others),
)
