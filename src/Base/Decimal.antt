-- ===== src/Base/Decimal.antt =====
-- `std::to_string` of unsigned integers, and that different numbers print differently.
use Prim.Native.Nat.{ℕ, zero, suc, ◌+◌, ◌-◌, ◌*◌, ◌/◌, ◌%◌, ◌<◌}
use mathlib.Core.Path.{◌≡◌, sym, ap, ◌∙◌}
use mathlib.Core.Logic.{◌≢◌, inl, inr}
use mathlib.Core.Bool.{true}
use mathlib.Core.List.{[], ◌∷◌}
use native.Mathlib.Omega.{arith}
use pod_installer.Base.Tests.{ltb, if◌then◌else◌, Bool-cases, ltb→lt}
use pod_installer.Base.Lists.{All}
use pod_installer.Base.Texts.{Bytes}
use pod_installer.Base.Chars.{is_digit}

-- the digits of `n` in front of `out`; a round divides by ten, so `suc n` rounds are enough
digits : ℕ → ℕ → Bytes → Bytes
digits zero n out = out
digits (suc fuel) n out =
    let more = digits fuel (n / 10) ((b'0' + n % 10) ∷ out) in
    if ltb n 10 then (b'0' + n) ∷ out else more

unfoldable pub to_string : ℕ → Bytes
unfolding digits
to_string n = digits (suc n) n []

-- the number that digits spell behind `n`
abbrev pub value : ℕ → Bytes → ℕ
value n [] = n
value n (c ∷ s) = value (n * 10 + (c - b'0')) s

value-digits : (fuel n : ℕ) (out : Bytes) → n < fuel → value 0 (digits fuel n out) ≡ value n out
unfolding digits
value-digits zero n out h = absurd (omega arith)
value-digits (suc fuel) n out h = ground (arith, value-digits fuel (n / 10) ((b'0' + n % 10) ∷ out))

value-to_string : (n : ℕ) → value 0 (to_string n) ≡ n
unfolding to_string
value-to_string n = value-digits (suc n) n [] (omega arith)

pub to_string_inj : (m n : ℕ) → to_string m ≡ to_string n → m ≡ n
to_string_inj m n h = sym (value-to_string m) ∙ ap (value 0) h ∙ value-to_string n

digit-is_digit : (n : ℕ) → n < 10 → is_digit (b'0' + n) ≡ true
unfolding is_digit
digit-is_digit n h = ground arith

digits-is_digit :
    (fuel n : ℕ) (out : Bytes)
    → n < fuel
    → All (λ c. is_digit c ≡ true) out
    → All (λ c. is_digit c ≡ true) (digits fuel n out)
unfolding digits
digits-is_digit zero n out h a = a
digits-is_digit (suc fuel) n out h a = elim (Bool-cases (ltb n 10)) [
  | inl last ↦ rw last (digit-is_digit n (ltb→lt n 10 last), a)
  | inr more ↦
      rw more
        (digits-is_digit fuel (n / 10) _ (ground arith) (digit-is_digit (n % 10) (omega arith), a))
]

pub to_string-is_digit : (n : ℕ) → All (λ c. is_digit c ≡ true) (to_string n)
unfolding to_string
to_string-is_digit n = digits-is_digit (suc n) n [] (omega arith) tt

digits-ne : (fuel n : ℕ) (out : Bytes) → n < fuel → digits fuel n out ≢ []
unfolding digits
digits-ne zero n out h = absurd (omega arith)
digits-ne (suc fuel) n out h = elim (Bool-cases (ltb n 10)) [
  | inl last ↦ rw last (λ e. cc)
  | inr more ↦ rw more (digits-ne fuel (n / 10) ((b'0' + n % 10) ∷ out) (ground arith))
]

pub to_string-ne : (n : ℕ) → to_string n ≢ []
unfolding to_string
to_string-ne n = digits-ne (suc n) n [] (omega arith)
