-- ===== src/Systemd/Slice/Accepted.antt =====
-- Which slice policies `validate_user_slice_policy` accepts.
use pod_installer.Base.{
  ℕ, ◌≤◌, Bool, true, false, not, ◌||◌, Option, none, some, ◌≡◌, ◌≢◌, ◌↔◌, refl, arith, ltb, ◌==◌,
}
use pod_installer.Error.{ok, reject_if_iff, ↔-trans, >>-iff}
use pod_installer.Systemd.Unit.Accepted.{IsValue, safe_systemd_value-IsValue}
use pod_installer.Systemd.Slice.{UserSlicePolicy, has_and, has_property, validate_user_slice_policy}

-- the property, of a value that is given
abbrev pub Given {ℓ κ} : {A : Type ℓ} → (A → Type κ) → Option A → Type κ
Given P none = Unit
Given P (some a) = P a

-- A property is set, texts are values, the weight is from 1 to 10000, and a limit of tasks is
-- not zero.
pub record IsSlicePolicy (slice : UserSlicePolicy) : Type 0 where
  pub some_property : has_property slice ≡ true
  pub cpu_quota : Given IsValue slice.cpu_quota
  pub cpu_weight : Given (λ weight. (1 ≤ weight) × (weight ≤ 10000)) slice.cpu_weight
  pub memory_max : Given IsValue slice.memory_max
  pub tasks_max : Given (λ tasks. tasks ≢ 0) slice.tasks_max
  pub allowed_cpus : Given IsValue slice.allowed_cpus

has_and-Given {ℓ κ} :
    {A : Type ℓ} (P : A → Type κ) (test : A → Bool) (o : Option A)
    → ((a : A) → (test a ≡ false) ↔ P a)
    → (has_and o test ≡ false) ↔ Given P o
has_and-Given P test none one = ((λ _. tt), (λ _. refl))
has_and-Given P test (some a) one = one a

not_iff : (b : Bool) → (not b ≡ false) ↔ (b ≡ true)
not_iff true = ((λ _. refl), (λ _. refl))
not_iff false = ((λ h. cc), (λ h. cc))

weight_iff : (n : ℕ) → ((ltb n 1 || ltb 10000 n) ≡ false) ↔ ((1 ≤ n) × (n ≤ 10000))
weight_iff n = ((λ h. (ground arith, ground arith)), (λ (lo, hi). ground arith))

zero_iff : (n : ℕ) → ((n == 0) ≡ false) ↔ (n ≢ 0)
zero_iff n = ((λ h e. ground arith), (λ ne. ground arith))

-- A policy is accepted exactly when it sets some property, its texts are not empty and free of
-- control characters, its weight is from 1 to 10000, and its limit of tasks is not 0.
pub validate_user_slice_policy-IsSlicePolicy :
    (slice : UserSlicePolicy) → (validate_user_slice_policy slice ≡ ok tt) ↔ IsSlicePolicy slice
unfolding validate_user_slice_policy
validate_user_slice_policy-IsSlicePolicy slice =
    let chain = >>-iff _ _ (↔-trans (reject_if_iff _ _ _) (not_iff (has_property slice))) (
      >>-iff _ _
        (↔-trans (reject_if_iff _ _ _)
          (has_and-Given _ _ slice.cpu_quota safe_systemd_value-IsValue))
        (>>-iff _ _ (↔-trans (reject_if_iff _ _ _) (has_and-Given _ _ slice.cpu_weight weight_iff))
          (>>-iff _ _
            (↔-trans (reject_if_iff _ _ _)
              (has_and-Given _ _ slice.memory_max safe_systemd_value-IsValue))
            (>>-iff _ _ (↔-trans (reject_if_iff _ _ _) (has_and-Given _ _ slice.tasks_max zero_iff))
              (↔-trans (reject_if_iff _ _ _)
                (has_and-Given _ _ slice.allowed_cpus safe_systemd_value-IsValue)))))) in
    (
      (λ h.
          let t = chain.0 h in
          record {
            some_property = t.0;
            cpu_quota = t.1.0;
            cpu_weight = t.1.1.0;
            memory_max = t.1.1.1.0;
            tasks_max = t.1.1.1.1.0;
            allowed_cpus = t.1.1.1.1.1;
          }),
      (λ p. chain.1 (
        p.some_property,
        (p.cpu_quota, (p.cpu_weight, (p.memory_max, (p.tasks_max, p.allowed_cpus)))),
      )),
    )
