-- ===== src/Systemd/Process/Interrupted.antt =====
-- What a process run has waited for.
use pod_installer.Base.{
  ℕ, zero, suc, ◌<◌, true, List, [], ◌∷◌, ◌≡◌, ◌≢◌, refl, ap, arith, Bytes, ◌==◌, ==_iff,
  Bool-cases, inl, inr,
}
use pod_installer.Error.{Error, Result, ok, err}
use pod_installer.World.{Action, handle-rule}
use pod_installer.System.{Outcome, returned, failed, eintr}
use pod_installer.Systemd.Process.{
  Processes, exited_with_zero, waited, wait_loop, wait_for_child, spawned, check_exit, run_process,
}

module _ {S : Type 0} (os : Processes S) where
  -- every interrupted wait uses up one of the interruptions to come
  abbrev pub CountsInterruptions : Type 0
  CountsInterruptions =
      (pid : ℕ) (s t : S)
      → os.waitpid pid s ≡ (failed eintr, t)
      → os.interruptions t < os.interruptions s

  -- the error is not that of an interrupted call
  abbrev NotInterrupted : Result ℕ × S → Type 0
  NotInterrupted (ok status, t) = Unit
  NotInterrupted (err e, t) = e.os_errno ≢ eintr

  waited_lem :
      (again : Action S ℕ) (o : Outcome ℕ × S)
      → ((t : S) → o ≡ (failed eintr, t) → NotInterrupted (again t))
      → NotInterrupted (waited os again o)
  waited_lem again (returned status, t) h = tt
  waited_lem again (failed errno, t) h = elim (Bool-cases (errno == eintr)) [
    | inl interrupted ↦
        rw interrupted (h t (ap (λ n. (failed n, t)) ((==_iff errno eintr).0 interrupted)))
    | inr other ↦ rw other (ground arith)
  ]

  wait_loop_lem :
      (fuel pid : ℕ) (s : S)
      → CountsInterruptions
      → os.interruptions s < fuel
      → NotInterrupted (wait_loop os fuel pid s)
  unfolding wait_loop
  wait_loop_lem zero pid s counts h = absurd (omega arith)
  wait_loop_lem (suc fuel) pid s counts h =
      waited_lem (wait_loop os fuel pid) (os.waitpid pid s)
        (λ t e. wait_loop_lem fuel pid t counts (omega (arith, counts pid s t e, h)))

  -- A wait that signals interrupt is taken up again until it ends: where every interruption is
  -- one of those to come, an error of `wait_for_child` is never that of an interrupted call.
  pub wait_for_child-eintr :
      (pid : ℕ) (s t : S) (e : Error)
      → CountsInterruptions
      → wait_for_child os pid s ≡ (err e, t)
      → e.os_errno ≢ eintr
  unfolding wait_for_child
  wait_for_child-eintr pid s t e counts h =
      let o = wait_loop_lem (suc (os.interruptions s)) pid s counts (omega arith) in rw h at o

  -- the child was started by these arguments, and the last wait for it returned a good status
  pub record RanToZero (args : List Bytes) (s t : S) : Type 0 where
    pub pid : ℕ
    pub status : ℕ
    pub behind_spawn : S
    pub before_end : S
    pub starts : os.posix_spawnp args s ≡ (returned pid, behind_spawn)
    pub ends : os.waitpid pid before_end ≡ (returned status, t)
    pub good : exited_with_zero status ≡ true

  -- a wait that returns has a last call
  abbrev Ended : ℕ → S → ℕ → Type 0
  Ended pid t status = (last : S) × (os.waitpid pid last ≡ (returned status, t))

  waited-ok :
      (again : Action S ℕ) (pid : ℕ) (s t : S) (status : ℕ) (o : Outcome ℕ × S)
      → os.waitpid pid s ≡ o
      → ((u : S) → again u ≡ (ok status, t) → Ended pid t status)
      → waited os again o ≡ (ok status, t)
      → Ended pid t status
  waited-ok again pid s t status (returned n, u) e later h =
      let same : n ≡ status = cc in let there : u ≡ t = cc in (s, cc)
  waited-ok again pid s t status (failed errno, u) e later h = elim (Bool-cases (errno == eintr)) [
    | inl interrupted ↦ later u (rw interrupted at h)
    | inr other ↦ cc (rw other at h)
  ]

  wait_loop-ok :
      (fuel pid : ℕ) (s t : S) (status : ℕ)
      → wait_loop os fuel pid s ≡ (ok status, t)
      → Ended pid t status
  unfolding wait_loop
  wait_loop-ok zero pid s t status h = cc
  wait_loop-ok (suc fuel) pid s t status h =
      waited-ok (wait_loop os fuel pid) pid s t status (os.waitpid pid s) refl
        (λ u. wait_loop-ok fuel pid u t status) h

  -- a call of which nothing is said where it fails
  abbrev WhenOk : List Bytes → S → Result (Unit {0}) × S → Type 0
  WhenOk args s (ok _, t) = RanToZero args s t
  WhenOk args s (err e, t) = Unit

  check_exit-WhenOk :
      (args : List Bytes) (pid status : ℕ) (s u last t : S)
      → os.posix_spawnp args s ≡ (returned pid, u)
      → os.waitpid pid last ≡ (returned status, t)
      → WhenOk args s (check_exit os status t)
  check_exit-WhenOk args pid status s u last t starts ends =
      elim (Bool-cases (exited_with_zero status)) [
        | inl good ↦ rw good (record {
          pid = pid;
          status = status;
          behind_spawn = u;
          before_end = last;
          starts = starts;
          ends = ends;
          good = good;
        })
        | inr bad ↦ rw bad tt
      ]

  spawned-ok :
      (program : Bytes) (o : Outcome ℕ × S) (pid : ℕ) (t : S)
      → spawned os program o ≡ (ok pid, t)
      → o ≡ (returned pid, t)
  spawned-ok program (returned n, u) pid t h =
      let same : n ≡ pid = cc in let there : u ≡ t = cc in cc
  spawned-ok program (failed errno, u) pid t h = cc

  run_process-WhenOk : (args : List Bytes) (s : S) → WhenOk args s (run_process os args s)
  unfolding run_process wait_for_child
  run_process-WhenOk [] s = tt
  run_process-WhenOk (program ∷ args) s =
      handle-rule (WhenOk (program ∷ args) s)
        (λ u. spawned os program (os.posix_spawnp (program ∷ args) u)) _ _ s (λ e t h. tt)
        (λ pid u h.
          handle-rule (WhenOk (program ∷ args) s) (wait_for_child os pid) _ _ u (λ e t r. tt)
            (λ status t r.
              let (last, ends) = wait_loop-ok (suc (os.interruptions u)) pid u t status r in
              check_exit-WhenOk (program ∷ args) pid status s u last t
                (spawned-ok program (os.posix_spawnp (program ∷ args) s) pid u h) ends))

  -- A process that is run without an error was started with just these arguments, and the last
  -- wait for it, behind which nothing more is done, returned that it exited with status 0.
  pub run_process-RanToZero :
      (args : List Bytes) (s t : S) → run_process os args s ≡ (ok tt, t) → RanToZero args s t
  run_process-RanToZero args s t h = let o = run_process-WhenOk args s in rw h at o
