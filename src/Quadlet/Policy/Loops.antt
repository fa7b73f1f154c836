-- ===== src/Quadlet/Policy/Loops.antt =====
-- The loops over values as statements about every value.
use pod_installer.Base.{
  Bool, true, false, not, ◌&&◌, List, [], ◌∷◌, String, ◌≡◌, ◌↔◌, ◌⊎◌, refl, arith, Bytes, All, inl,
  inr,
}
use pod_installer.Error.{ok}
use pod_installer.Quadlet.QuadletPolicy.{QuadletPolicy}
use pod_installer.Quadlet.PodmanArgs.{denied_podman_arg}
use pod_installer.Quadlet.Policy.{reject_values, check_podman_args}

-- the policy allows it, or it does not occur
abbrev pub Allows : Bool → Type 0 → Type 0
Allows allowed P = (allowed ≡ true) ⊎ P

pub reject_values_iff :
    (test : Bytes → Bool) (message : String) (vs : List Bytes)
    → (reject_values test message vs ≡ ok tt) ↔ All (λ value. test value ≡ false) vs
unfolding reject_values
reject_values_iff test message [] = (λ _. tt, λ _. refl)
reject_values_iff test message (value ∷ vs) =
    let (forth, back) = reject_values_iff test message vs in
    ((λ h. (ground arith, forth (ground arith))), (λ (one, rest). rw (one, back rest) refl))

All-of_allowed :
    (test : Bytes → Bool) (vs : List Bytes) → All (λ value. (not true && test value) ≡ false) vs
All-of_allowed test [] = tt
All-of_allowed test (value ∷ vs) = (refl, All-of_allowed test vs)

-- the loop with the test `!policy.allow_x && test(value)`
pub reject_values-Allows :
    (allowed : Bool) (test : Bytes → Bool) (message : String) (vs : List Bytes)
    → (reject_values (λ value. not allowed && test value) message vs ≡ ok tt)
      ↔ Allows allowed (All (λ value. test value ≡ false) vs)
reject_values-Allows true test message vs =
    ((λ _. inl refl), (λ _. (reject_values_iff _ message vs).1 (All-of_allowed test vs)))
reject_values-Allows false test message vs = (
  (λ h. inr ((reject_values_iff test message vs).0 h)),
  elim [ inl e ↦ absurd (ground arith) | inr h ↦ (reject_values_iff test message vs).1 h ],
)

pub check_podman_args_iff :
    (rules : QuadletPolicy) (vs : List Bytes)
    → (check_podman_args rules vs ≡ ok tt)
      ↔ All (λ value. (rules.allow_podman_args ≡ true) × (denied_podman_arg value rules ≡ false)) vs
unfolding check_podman_args
check_podman_args_iff rules [] = (λ _. tt, λ _. refl)
check_podman_args_iff rules (value ∷ vs) =
    let (forth, back) = check_podman_args_iff rules vs in
    (
      (λ h. ((ground arith, ground arith), forth (ground arith))),
      (λ ((allowed, free), rest). ground (arith, back rest)),
    )
