-- ===== src/Tests/ControllerTests.antt =====
-- systemctl on a machine that interrupts a wait some times.
use pod_installer.Base.{
  ℕ, zero, suc, true, false, [], ◌∷◌, ◌++◌, Bool-cases, inl, inr, none, some, ◌≡◌, ◌≢◌, refl, arith,
  text, ◌==◌, if◌then◌else◌, starts_with,
}
use pod_installer.Error.{Error, ok, err, systemd, os_error}
use pod_installer.Target.{PodmanTarget, default_layout, make_target}
use pod_installer.Systemd.Unit.Accepted.{IsUnitName}
use pod_installer.Systemd.Slice.{UserSlicePolicy}
use pod_installer.System.{Outcome, returned, failed, eintr}
use pod_installer.Systemd.Process.{Processes, wait_for_child, run_process}
use pod_installer.Systemd.Process.Interrupted.{
  CountsInterruptions, RanToZero, wait_for_child-eintr, run_process-RanToZero,
}
use pod_installer.Systemd.Controller.{apply, systemctl_controller}
use pod_installer.Systemd.Controller.Started.{
  Idle, Refused, systemctl_controller-Idle, systemctl_controller-Refused,
}

-- The state counts the interruptions to come. The child 7 exits well, every other wait fails.
abbrev waits : ℕ → ℕ → Outcome ℕ × ℕ
waits pid (suc n) = (failed eintr, n)
waits pid zero = if pid == 7 then (returned 0, zero) else (failed 10, zero)

abbrev machine : Processes ℕ
machine = record {
  posix_spawnp = λ args s. (returned 7, s);
  spawn_to_pipe = λ args fd s. (returned 7, s);
  waitpid = waits;
  pipe2 = λ s. (returned (3, 4), s);
  read = λ fd s. (returned [], s);
  close = λ fd s. s;
  strerror = λ errno. [];
  interruptions = λ s. s;
  reads_left = λ s. 0;
}

not_interrupted : (t : ℕ) → ◌≢◌ {A = Outcome ℕ × ℕ} (failed 10, 0) (failed eintr, t)
not_interrupted t h = let e : ◌≡◌ {A = ℕ} 10 4 = cc in omega (arith, e)

machine-CountsInterruptions : CountsInterruptions machine
machine-CountsInterruptions pid (suc n) t h = let e : n ≡ t = cc in omega (arith, e)
machine-CountsInterruptions pid zero t h = elim (Bool-cases (pid == 7)) [
  | inl seven ↦ absurd (cc (rw seven at h))
  | inr other ↦ absurd (not_interrupted t (rw other at h))
]

abbrev no_child : Error
no_child = os_error systemd (text "waitpid failed for systemctl: " ++ []) 10

waiting_fails : wait_for_child machine 8 2 ≡ (err no_child, 0)
unfolding wait_for_child
waiting_fails = refl

running : run_process machine (text "true" ∷ []) 3 ≡ (ok tt, 0)
unfolding run_process wait_for_child
running = refl

wait_for_child-eintr_example : no_child.os_errno ≢ eintr
wait_for_child-eintr_example =
    wait_for_child-eintr machine 8 2 0 no_child machine-CountsInterruptions waiting_fails

run_process-RanToZero_example : RanToZero machine (text "true" ∷ []) 3 0
run_process-RanToZero_example = run_process-RanToZero machine (text "true" ∷ []) 3 0 running

abbrev web_target : PodmanTarget
web_target = make_target 1000 (text "web") default_layout (text "5.0.0")

abbrev web_slice : UserSlicePolicy
web_slice = record {
  uid = 1000;
  cpu_quota = none;
  cpu_weight = some 100;
  memory_max = none;
  tasks_max = none;
  allowed_cpus = none;
}

systemctl_controller-Idle_example :
    Idle machine (apply machine true web_slice)
    × Idle machine ((systemctl_controller machine true).daemon_reload web_target)
    × Idle machine ((systemctl_controller machine true).start_unit web_target (text "web.service"))
    × Idle machine
        ((systemctl_controller machine true).restart_unit web_target (text "web.service"))
    × Idle machine ((systemctl_controller machine true).stop_unit web_target (text "web.service"))
    × Idle machine ((systemctl_controller machine true).status web_target (text "web.service"))
systemctl_controller-Idle_example =
    systemctl_controller-Idle machine web_target (text "web.service") web_slice

option_like : IsUnitName (text "--force.service") → ⊥
unfolding text starts_with
option_like u = let e : true ≡ false = u.no_option in cc

systemctl_controller-Refused_example :
    Refused machine
      ((systemctl_controller machine false).start_unit web_target (text "--force.service"))
    × Refused machine
        ((systemctl_controller machine false).restart_unit web_target (text "--force.service"))
    × Refused machine
        ((systemctl_controller machine false).stop_unit web_target (text "--force.service"))
    × Refused machine
        ((systemctl_controller machine false).status web_target (text "--force.service"))
systemctl_controller-Refused_example =
    systemctl_controller-Refused machine false web_target (text "--force.service") option_like
