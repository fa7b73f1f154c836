-- ===== src/Systemd/Process.antt =====
-- `wait_for_child`, `run_process` and `run_process_capture` of src/systemd.cpp. The system calls
-- are parameters; of a call that fails, the errno is returned.
pub mod Interrupted
use mathlib.Core.Option.{get_or}
use pod_installer.Base.{
  ℕ, zero, suc, Bool, true, false, not, ◌&&◌, ◌||◌, ◌/◌, ◌%◌, ◌==◌, List, [], ◌∷◌, ◌++◌, Option,
  none, some, Bytes, text, is_empty, if◌then◌else◌,
}
use pod_installer.Base.Decimal.{to_string}
use pod_installer.Error.{Error, Result, ok, err, systemd, make_error, os_error, fail}
use pod_installer.System.{Outcome, returned, failed, eintr}
use pod_installer.World.{Action, Effect, give, handle, ◌>>=◌, ◌>>◌}

-- The last two members bound, from a state on, how many waits are interrupted by a signal, and
-- how many reads of a pipe are interrupted or return bytes.
pub record Processes (S : Type 0) : Type 0 where
  pub posix_spawnp : List Bytes → S → Outcome ℕ × S
  pub spawn_to_pipe : List Bytes → ℕ → S → Outcome ℕ × S
  pub waitpid : ℕ → S → Outcome ℕ × S
  pub pipe2 : S → Outcome (ℕ × ℕ) × S
  pub read : ℕ → S → Outcome Bytes × S
  pub close : ℕ → Effect S
  pub strerror : ℕ → Bytes
  pub interruptions : S → ℕ
  pub reads_left : S → ℕ

-- `WIFEXITED(status) && WEXITSTATUS(status) == 0`
abbrev pub exited_with_zero : ℕ → Bool
exited_with_zero status = status % 128 == 0 && status / 256 % 256 == 0

module _ {S : Type 0} (os : Processes S) where
  abbrev pub failure : Bytes → ℕ → Error
  failure message errno = os_error systemd (message ++ os.strerror errno) errno

  -- behind a round of the loop of `wait_for_child`: `again` is the next round
  abbrev pub waited : Action S ℕ → Outcome ℕ × S → Result ℕ × S
  waited again (returned status, s) = (ok status, s)
  waited again (failed errno, s) =
      if errno == eintr
      then again s
      else (err (failure (text "waitpid failed for systemctl: ") errno), s)

  -- The loop of `wait_for_child`. The fuel is used up by interrupted calls alone; without any
  -- left, the interruption is reported.
  pub wait_loop : ℕ → ℕ → Action S ℕ
  wait_loop zero pid s = (err (failure (text "waitpid failed for systemctl: ") eintr), s)
  wait_loop (suc fuel) pid s = waited (wait_loop fuel pid) (os.waitpid pid s)

  -- with one more round than there are interruptions
  unfoldable pub wait_for_child : ℕ → Action S ℕ
  unfolding wait_loop
  wait_for_child pid s = wait_loop (suc (os.interruptions s)) pid s

  abbrev pub spawn_failure : Bytes → ℕ → Error
  spawn_failure program errno =
      os_error systemd
        (text "posix_spawnp failed for '" ++ program ++ text "': " ++ os.strerror errno) errno

  -- the tests of the exit status
  abbrev pub check_exit : ℕ → Action S (Unit {0})
  check_exit status =
      if exited_with_zero status
      then give (ok tt)
      else give (fail systemd (text "systemctl exited with status " ++ to_string status))

  abbrev pub spawned : Bytes → Outcome ℕ × S → Result ℕ × S
  spawned program (returned pid, s) = (ok pid, s)
  spawned program (failed errno, s) = (err (spawn_failure program errno), s)

  unfoldable pub run_process : List Bytes → Action S (Unit {0})
  unfolding wait_for_child
  run_process [] = give (fail systemd (text "no process arguments supplied"))
  run_process (program ∷ args) = do
    pid ← λ s. spawned program (os.posix_spawnp (program ∷ args) s)
    status ← wait_for_child pid
    check_exit status

  abbrev pub read_failure : ℕ → Error
  read_failure errno = failure (text "read failed for systemctl output: ") errno

  -- behind a round of the loop over `read`: `again` is the next round, with the output so far
  abbrev pub read_round : (Bytes → Action S Bytes) → Bytes → Outcome Bytes × S → Result Bytes × S
  read_round again output (returned [], s) = (ok output, s)
  read_round again output (returned (c ∷ bytes), s) = again (output ++ c ∷ bytes) s
  read_round again output (failed errno, s) =
      if errno == eintr then again output s else (err (read_failure errno), s)

  pub read_loop : ℕ → ℕ → Bytes → Action S Bytes
  read_loop zero fd output s = (err (read_failure eintr), s)
  read_loop (suc fuel) fd output s = read_round (read_loop fuel fd) output (os.read fd s)

  unfoldable pub read_to_end : ℕ → Action S Bytes
  unfolding read_loop
  read_to_end fd s = read_loop (suc (os.reads_left s)) fd [] s

  abbrev pub piped : Outcome (ℕ × ℕ) × S → Result (ℕ × ℕ) × S
  piped (returned fds, s) = (ok fds, s)
  piped (failed errno, s) = (err (failure (text "pipe2 failed: ") errno), s)

  -- a call behind which a descriptor is closed, whatever its result
  abbrev pub then_close : {A : Type 0} → ℕ → Action S A → Action S A
  then_close fd call s = let (r, t) = call s in (r, os.close fd t)

  -- behind the read of the output
  abbrev pub check_captured : ℕ → Bytes → Action S Bytes
  check_captured status output =
      if exited_with_zero status
      then give (ok output)
      else give (
          fail systemd (
            text "systemctl exited with status " ++ to_string status ++ text " output: " ++ output))

  unfoldable pub run_process_capture : List Bytes → Action S Bytes
  unfolding wait_for_child read_to_end
  run_process_capture [] = give (fail systemd (text "no process arguments supplied"))
  run_process_capture (program ∷ args) = do
    fds ← λ s. piped (os.pipe2 s)
    let spawn = then_close fds.1 (λ s. spawned program (os.spawn_to_pipe (program ∷ args) fds.1 s))
    pid ← handle spawn (λ e s. (err e, os.close fds.0 s)) (λ pid. give (ok pid))
    output ← then_close fds.0 (read_to_end fds.0)
    status ← wait_for_child pid
    check_captured status output
