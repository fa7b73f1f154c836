-- ===== src/World.antt =====
-- Calls that read and change the world: a function of the state of the system to its result and
-- the state behind it. What the state is, and what the system calls do, are parameters.
use pod_installer.Base.{◌≡◌, refl, ap}
use pod_installer.Error.{Error, Result, ok, err}

abbrev pub Action : Type 0 → Type 0 → Type 0
Action S A = S → Result A × S

abbrev pub Effect : Type 0 → Type 0
Effect S = S → S

module _ {S : Type 0} {A B : Type 0} where
  -- a call with both ways on: behind an error, and behind a value
  abbrev pub handle_with : (Error → Action S B) → (A → Action S B) → Result A × S → Result B × S
  handle_with failed next (ok a, s) = next a s
  handle_with failed next (err e, s) = failed e s

  abbrev pub handle : Action S A → (Error → Action S B) → (A → Action S B) → Action S B
  handle call failed next s = handle_with failed next (call s)

module _ {S : Type 0} {A : Type 0} where
  abbrev pub give : Result A → Action S A
  give r s = (r, s)

  -- a destructor that runs when the scope is left, whatever the result
  abbrev pub finally : Effect S → Action S A → Action S A
  finally leave body s = let (r, t) = body s in (r, leave t)

infixl 5 ◌>>=◌ ◌>>◌
abbrev pub ◌>>=◌ : {S A B : Type 0} → Action S A → (A → Action S B) → Action S B
call >>= next = handle call (λ e s. (err e, s)) next

abbrev pub ◌>>◌ : {S B : Type 0} → Action S (Unit {0}) → Action S B → Action S B
call >> next = call >>= λ _. next

module _ {S A B : Type 0} (Q : Result B × S → Type 0) where
  handled :
      (failed : Error → Action S B) (next : A → Action S B) (o r : Result A × S)
      → r ≡ o
      → ((e : Error) (t : S) → r ≡ (err e, t) → Q (failed e t))
      → ((a : A) (t : S) → r ≡ (ok a, t) → Q (next a t))
      → Q (handle_with failed next o)
  handled failed next (ok a, t) r e f g = g a t e
  handled failed next (err x, t) r e f g = f x t e

  -- what holds of both ways on holds of the call
  pub handle-rule :
      (call : Action S A) (failed : Error → Action S B) (next : A → Action S B) (s : S)
      → ((e : Error) (t : S) → call s ≡ (err e, t) → Q (failed e t))
      → ((a : A) (t : S) → call s ≡ (ok a, t) → Q (next a t))
      → Q (handle call failed next s)
  handle-rule call failed next s f g = handled failed next (call s) (call s) refl f g

-- The same with a postcondition: `P` holds behind the call, and `Q` behind the whole.
module _ {S A B : Type 0} (P : Result A × S → Type 0) (Q : Result B × S → Type 0) where
  pub handled-ensures :
      (failed : Error → Action S B) (next : A → Action S B) (o : Result A × S)
      → P o
      → ((e : Error) (t : S) → P (err e, t) → Q (failed e t))
      → ((a : A) (t : S) → P (ok a, t) → Q (next a t))
      → Q (handle_with failed next o)
  handled-ensures failed next (ok a, t) p f g = g a t p
  handled-ensures failed next (err e, t) p f g = f e t p

module _ {S A : Type 0} (P Q : Result A × S → Type 0) where
  pub finally-ensures :
      (leave : Effect S) (body : Action S A) (s : S)
      → P (body s)
      → ((r : Result A) (t : S) → P (r, t) → Q (r, leave t))
      → Q (finally leave body s)
  finally-ensures leave body s p f = f (body s).0 (body s).1 p

-- Calls that relate the state behind them to the one before, whatever they return.
module _ {S : Type 0} (R : S → S → Type 0) where
  abbrev pub Relates : {A : Type 0} → Action S A → Type 0
  Relates call = (s : S) → R s (call s).1

  module _ {A B : Type 0} (trans : (s t u : S) → R s t → R t u → R s u) where
    behind :
        (failed : Error → Action S B) (next : A → Action S B) (s : S) (o : Result A × S)
        → R s o.1
        → ((e : Error) (t : S) → R s t → R s (failed e t).1)
        → ((a : A) → Relates (next a))
        → R s (handle_with failed next o).1
    behind failed next s (ok a, t) h given_up later = trans s t _ h (later a t)
    behind failed next s (err e, t) h given_up later = given_up e t h

    pub handle-Relates :
        (call : Action S A) (failed : Error → Action S B) (next : A → Action S B)
        → Relates call
        → ((e : Error) → Relates (failed e))
        → ((a : A) → Relates (next a))
        → Relates (handle call failed next)
    handle-Relates call failed next h given_up later s =
        behind failed next s (call s) (h s) (λ e t k. trans s t _ k (given_up e t)) later

    pub then-Relates :
        (call : Action S A) (next : A → Action S B)
        → Relates call
        → ((a : A) → Relates (next a))
        → Relates (call >>= next)
    then-Relates call next h later s =
        behind (λ e t. (err e, t)) next s (call s) (h s) (λ e t k. k) later

  module _ {A : Type 0} (trans : (s t u : S) → R s t → R t u → R s u) where
    pub finally-Relates :
        (leave : Effect S) (body : Action S A)
        → ((s : S) → R s (leave s))
        → Relates body
        → Relates (finally leave body)
    finally-Relates leave body ends h s =
        trans s (body s).1 (leave (body s).1) (h s) (ends (body s).1)

-- A result that is at hand, with what is behind it.
module _ {S A B : Type 0} (Q : Result B × S → Type 0) where
  given :
      (next : A → Action S B) (s : S) (r o : Result A)
      → r ≡ o
      → ((e : Error) → r ≡ err e → Q (err e, s))
      → ((a : A) → r ≡ ok a → Q (next a s))
      → Q (handle_with (λ e t. (err e, t)) next (o, s))
  given next s r (ok a) h f g = g a h
  given next s r (err e) h f g = f e h

  pub give-rule :
      (next : A → Action S B) (s : S) (r : Result A)
      → ((e : Error) → r ≡ err e → Q (err e, s))
      → ((a : A) → r ≡ ok a → Q (next a s))
      → Q (handle_with (λ e t. (err e, t)) next (r, s))
  give-rule next s r f g = given next s r r refl f g

module _ {S A B : Type 0} where
  handled-eq-ok :
      (next : A → Action S B) (o : Result A × S) {b : B} {t : S}
      → handle_with (λ e u. (err e, u)) next o ≡ (ok b, t)
      → (a : A) × (u : S) × (o ≡ (ok a, u)) × (next a u ≡ (ok b, t))
  handled-eq-ok next (ok a, u) h = (a, u, refl, h)
  handled-eq-ok next (err e, u) h = cc

  -- a chain succeeds only by its first call and the rest
  pub >>=-eq-ok :
      (call : Action S A) (next : A → Action S B) (s : S) {b : B} {t : S}
      → (call >>= next) s ≡ (ok b, t)
      → (a : A) × (u : S) × (call s ≡ (ok a, u)) × (next a u ≡ (ok b, t))
  >>=-eq-ok call next s h = handled-eq-ok next (call s) h

module _ {S A : Type 0} where
  pub finally-eq-ok :
      (leave : Effect S) (body : Action S A) (s : S) {a : A} {t : S}
      → finally leave body s ≡ (ok a, t)
      → (u : S) × (body s ≡ (ok a, u))
  finally-eq-ok leave body s h = ((body s).1, ap (λ o. (o.0, (body s).1)) h)
