-- ===== src/Service/Reading.antt =====
-- The loop over `read` ends with the file, with its change, or with an error of `read`.
use pod_installer.Base.{
  ℕ, zero, suc, ◌+◌, ◌≤◌, ◌<◌, ◌==◌, List, [], ◌∷◌, ◌≡◌, ◌≢◌, refl, ap, ◌∙◌, ◌⊎◌, inl, inr, arith,
  Bytes, text, Bool-cases,
}
use pod_installer.Error.{Result, ok, err, make_error, filesystem}
use pod_installer.System.{Outcome, returned, failed, eintr, Files}
use pod_installer.Service.Staged.{StagedFiles, read_failure, staged_round, staged_loop, read_all}

module _ {S : Type 0} (os : Files S) (at : StagedFiles S) (fd : ℕ)
    (steady : (n : ℕ) (s : S) → os.interruptions (os.read fd n s).1 ≤ os.interruptions s)
    (interrupted : (n : ℕ) (s t : S)
      → os.read fd n s ≡ (failed eintr, t)
      → os.interruptions t < os.interruptions s) where
  abbrev pub Ended : Result Bytes × S → Type 0
  Ended (ok bytes, t) = Unit
  Ended (err e, t) =
      (e ≡ make_error filesystem (text "staged file changed while reading"))
      ⊎ ((errno : ℕ) × (errno ≢ eintr) × (e ≡ read_failure os at errno))

  staged_round-Ended :
      (fuel left : ℕ) (out : Bytes) (s : S) (o : Outcome Bytes × S)
      → os.read fd (suc left) s ≡ o
      → os.interruptions o.1 ≤ os.interruptions s
      → suc left + os.interruptions s ≤ suc fuel
      → ((m : ℕ) (more : Bytes) (t : S)
          → m + os.interruptions t ≤ fuel
          → Ended (staged_loop os at fuel fd m more t))
      → Ended (staged_round os at (staged_loop os at fuel fd) (suc left) out o)
  staged_round-Ended fuel left out s (returned [], t) h less enough again = inl refl
  staged_round-Ended fuel left out s (returned (c ∷ bytes), t) h less enough again =
      again _ _ t (omega arith)
  staged_round-Ended fuel left out s (failed errno, t) h less enough again =
      elim (Bool-cases (errno == eintr)) [
        | inl here ↦
            let same : errno ≡ eintr = ground arith in
            let fewer = interrupted (suc left) s t (h ∙ ap (λ e. (failed e, t)) same) in
            rw here (again (suc left) out t (omega arith))
        | inr other ↦ rw other (inr (errno, (λ e. ground arith), refl))
      ]

  staged_loop-Ended :
      (fuel left : ℕ) (out : Bytes) (s : S)
      → left + os.interruptions s ≤ fuel
      → Ended (staged_loop os at fuel fd left out s)
  unfolding staged_loop
  staged_loop-Ended zero zero out s enough = tt
  staged_loop-Ended (suc fuel) zero out s enough = tt
  staged_loop-Ended zero (suc left) out s enough = absurd (omega arith)
  staged_loop-Ended (suc fuel) (suc left) out s enough =
      staged_round-Ended fuel left out s (os.read fd (suc left) s) refl (steady (suc left) s) enough
        (λ m more t. staged_loop-Ended fuel m more t)

  -- Where a read brings no interruptions about, and each one is one fewer to come, what is read of
  -- a staged file is never given up for an interruption.
  pub read_all-Ended :
      (size : ℕ) (relative : List Bytes) (s : S)
      → Ended (read_all os at (record { fd = fd; size = size; relative_path = relative }) s)
  read_all-Ended size relative s =
      staged_loop-Ended (size + os.interruptions s) size [] s (omega arith)
