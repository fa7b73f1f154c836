-- ===== src/Error.antt =====
-- include/pod_installer/error.hpp and src/error.cpp: the error value, and `Result<T>`, which
-- is `std::expected<T, Error>`. The three codes are never negative where the sources set them.
use pod_installer.Base.{ℕ, Bool, true, false, Bytes, text, ◌≡◌, refl, ◌⊎◌, ◌↔◌, inl, inr}

pub data ErrorKind : Type 0 where
  invalid_argument filesystem socket_validation transport http policy systemd : ErrorKind

pub record Error : Type 0 where
  pub kind : ErrorKind
  pub message : Bytes
  pub http_status : ℕ
  pub os_errno : ℕ
  pub transport_code : ℕ

pub data Result {ℓ} (A : Type ℓ) : Type ℓ where
  ok : A → Result A
  err : Error → Result A

-- `Result<void>`
abbrev pub Checked : Type 0
Checked = Result (Unit {0})

-- `to_string(ErrorKind)`
pub kind_name : ErrorKind → Bytes
kind_name invalid_argument = text "invalid_argument"
kind_name filesystem = text "filesystem"
kind_name socket_validation = text "socket_validation"
kind_name transport = text "transport"
kind_name http = text "http"
kind_name policy = text "policy"
kind_name systemd = text "systemd"

-- `make_error` with its default arguments
abbrev pub make_error : ErrorKind → Bytes → Error
make_error kind message = record {
  kind = kind;
  message = message;
  http_status = 0;
  os_errno = 0;
  transport_code = 0;
}

-- `make_error(kind, message, 0, errno)`
abbrev pub os_error : ErrorKind → Bytes → ℕ → Error
os_error kind message errno = record (make_error kind message) { os_errno = errno }

-- `return std::unexpected(make_error(kind, message))`
abbrev pub fail {ℓ} : {A : Type ℓ} → ErrorKind → Bytes → Result A
fail kind message = err (make_error kind message)

-- `if (!r) return std::unexpected(r.error());`, and the rest of the function on its value
infixl 5 ◌>>=◌
abbrev pub ◌>>=◌ {ℓ κ} : {T : Type ℓ} {U : Type κ} → Result T → (T → Result U) → Result U
err e >>= rest = err e
ok t >>= rest = rest t

-- the same for a check, which has no value
infixl 5 ◌>>◌
abbrev pub ◌>>◌ {ℓ} : {U : Type ℓ} → Checked → Result U → Result U
check >> rest = check >>= λ _. rest

-- `if (test) return std::unexpected(make_error(kind, message));`
abbrev pub reject_if : Bool → ErrorKind → Bytes → Checked
reject_if true kind message = fail kind message
reject_if false kind message = ok tt

pub reject_if-eq-ok :
    (b : Bool) (kind : ErrorKind) (message : Bytes) → reject_if b kind message ≡ ok tt → b ≡ false
reject_if-eq-ok true kind message h = cc
reject_if-eq-ok false kind message h = refl

pub reject_if_iff :
    (b : Bool) (kind : ErrorKind) (message : Bytes)
    → (reject_if b kind message ≡ ok tt) ↔ (b ≡ false)
reject_if_iff true kind message = ((λ h. cc), (λ h. cc))
reject_if_iff false kind message = ((λ _. refl), (λ _. refl))

pub ↔-trans : {P Q R : Type 0} → P ↔ Q → Q ↔ R → P ↔ R
↔-trans (f, g) (f', g') = ((λ p. f' (f p)), (λ r. g (g' r)))

module _ {ℓ κ} {A : Type ℓ} {B : Type κ} where
  -- a chain succeeds only by its first step and the rest
  pub >>=-eq-ok :
      (m : Result A) (rest : A → Result B) {b : B}
      → (m >>= rest) ≡ ok b
      → (a : A) × (m ≡ ok a) × (rest a ≡ ok b)
  >>=-eq-ok (err e) rest same = cc
  >>=-eq-ok (ok a) rest same = (a, refl, same)

  -- a chain fails by its first step or by the rest
  pub >>=-eq-err :
      (m : Result A) (f : A → Result B) {e : Error}
      → (m >>= f) ≡ err e
      → (m ≡ err e) ⊎ ((a : A) × (m ≡ ok a) × (f a ≡ err e))
  >>=-eq-err (ok a) f h = inr (a, refl, h)
  >>=-eq-err (err e) f h = inl (cc)

module _ {ℓ} {B : Type ℓ} where
  pub >>-eq-ok : (m : Checked) (k : Result B) {b : B} → (m >> k) ≡ ok b → (m ≡ ok tt) × (k ≡ ok b)
  >>-eq-ok (ok tt) k h = (refl, h)
  >>-eq-ok (err e) k h = cc

module _ {ℓ} {P : Type ℓ} where
  -- two checks in turn succeed exactly when both do
  pub >>-iff :
      {Q : Type ℓ} (m k : Checked)
      → (m ≡ ok tt) ↔ P
      → (k ≡ ok tt) ↔ Q
      → ((m >> k) ≡ ok tt) ↔ (P × Q)
  >>-iff m k (forth, back) (forth', back') =
      ((λ h. let (e, f) = >>-eq-ok m k h in (forth e, forth' f)), (λ (p, q). rw (back p) (back' q)))
