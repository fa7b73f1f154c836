-- ===== src/Deployment/Staging/Waiting.antt =====
-- The lock of a deployment: its name, and the wait for it.
use mathlib.Core.List.{append_cancel_right}
use pod_installer.Base.{
  ℕ, zero, suc, ◌<◌, true, ◌==◌, [], ◌∷◌, ◌++◌, ◌≡◌, ◌≢◌, refl, sym, ap, ◌∙◌, arith, Bytes, text,
  is_digit, All-map, Lacks, append_assoc, Bool-cases, inl, inr,
}
use pod_installer.Base.Decimal.{to_string, to_string_inj, to_string-is_digit}
use pod_installer.Error.{Result, ok, err}
use pod_installer.System.{Outcome, returned, failed, eintr, Files}
use pod_installer.Deployment.Staging.{
  FilesAt, lock_failure, lock_round, lock_loop, wait_lock, lock_name,
}

-- two texts that are cut at the same byte
cut_inj :
    (c : ℕ) (a b p q : Bytes) → Lacks c a → Lacks c b → a ++ c ∷ p ≡ b ++ c ∷ q → (a ≡ b) × (p ≡ q)
cut_inj c [] [] p q h k e = (refl, cc)
cut_inj c [] (y ∷ b) p q h (ky, k) e = let same : c ≡ y = cc in absurd (ground arith)
cut_inj c (x ∷ a) [] p q (hx, h) k e = let same : x ≡ c = cc in absurd (ground arith)
cut_inj c (x ∷ a) (y ∷ b) p q (hx, h) (ky, k) e =
    let (front, rest) = cut_inj c a b p q h k (cc) in (cc, rest)

module _ {S : Type 0} (os : Files S) (at : FilesAt S) where
  -- Deployments of different users or units take different locks.
  pub lock_name_inj :
      (uid other : ℕ) (unit next : Bytes)
      → lock_name os at uid unit ≡ lock_name os at other next
      → (uid ≡ other) × (unit ≡ next)
  unfolding lock_name text is_digit
  lock_name_inj uid other unit next e =
      let bare =
        append_cancel_right (to_string uid ++ text "-" ++ unit)
          (to_string other ++ text "-" ++ next) (text ".lock") e in
      let cut =
        sym (append_assoc (to_string uid) (text "-") unit)
        ∙ bare
        ∙ append_assoc (to_string other) (text "-") next in
      let (front, rest) =
        cut_inj b'-' (to_string uid) (to_string other) unit next (no_dash uid) (no_dash other)
          cut in
      (to_string_inj uid other front, rest)
    where
      no_dash : (n : ℕ) → Lacks b'-' (to_string n)
      no_dash n =
          All-map (λ c. is_digit c ≡ true) _ (to_string n) (λ c h. ground arith)
            (to_string-is_digit n)

  -- how a wait ends: with the lock, or with an error that is no interruption
  abbrev pub Ended : ℕ → Bytes → Result (Unit {0}) × S → Type 0
  Ended fd name (ok _, t) = (s : S) × (at.flock fd s ≡ (returned tt, t))
  Ended fd name (err e, t) =
      (errno : ℕ) × (errno ≢ eintr)
      × ((s : S) × (at.flock fd s ≡ (failed errno, t)))
      × (e ≡ lock_failure os at name errno)

  module _ (fd : ℕ) (name : Bytes)
      (interrupted : (s t : S)
        → at.flock fd s ≡ (failed eintr, t)
        → os.interruptions t < os.interruptions s) where
    lock_round-Ended :
        (fuel : ℕ) (s : S) (o : Outcome (Unit {0}) × S)
        → at.flock fd s ≡ o
        → os.interruptions s < suc fuel
        → ((t : S) → os.interruptions t < fuel → Ended fd name (lock_loop os at fuel fd name t))
        → Ended fd name (lock_round os at (lock_loop os at fuel fd name) name o)
    lock_round-Ended fuel s (returned tt, t) h less again = (s, h)
    lock_round-Ended fuel s (failed errno, t) h less again = elim (Bool-cases (errno == eintr)) [
      | inl here ↦
          let same : errno ≡ eintr = ground arith in
          let fewer = interrupted s t (h ∙ ap (λ n. (failed n, t)) same) in
          rw here (again t (omega arith))
      | inr other ↦ rw other (errno, (λ e. ground arith), (s, h), refl)
    ]

    lock_loop-Ended :
        (fuel : ℕ) (s : S)
        → os.interruptions s < fuel
        → Ended fd name (lock_loop os at fuel fd name s)
    unfolding lock_loop
    lock_loop-Ended zero s less = absurd (omega arith)
    lock_loop-Ended (suc fuel) s less =
        lock_round-Ended fuel s (at.flock fd s) refl less (lock_loop-Ended fuel)

    -- The wait for the lock ends, and no interruption is reported.
    pub wait_lock-Ended : (s : S) → Ended fd name (wait_lock os at fd name s)
    unfolding wait_lock
    wait_lock-Ended s = lock_loop-Ended (suc (os.interruptions s)) s (omega arith)
