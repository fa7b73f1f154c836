-- ===== src/Systemd/Controller/Started.antt =====
-- When systemctl is started, and for which units.
use pod_installer.Base.{Bool, true, List, none, some, ◌≡◌, ◌≢◌, refl, sym, ap, ◌∙◌, Bytes, text}
use pod_installer.Error.{Error, Result, ok, err}
use pod_installer.World.{Action, give, handle-rule, ◌>>=◌}
use pod_installer.Target.{PodmanTarget}
use pod_installer.Systemd.Unit.{validate_systemd_unit_name, build_systemctl_user_args}
use pod_installer.Systemd.Unit.Accepted.{
  IsUnitName, validate_systemd_unit_name-IsUnitName, build_systemctl_user_args_lem,
}
use pod_installer.Systemd.Slice.{UserSlicePolicy, build_systemctl_set_property_args}
use pod_installer.Systemd.Process.{Processes}
use pod_installer.Systemd.Controller.{
  apply, systemctl_daemon_reload, systemctl_status, completed_operation, operate,
  systemctl_controller,
}

module _ {S : Type 0} (os : Processes S) where
  -- the call leaves the system as it was
  abbrev pub Idle : {A : Type 0} → Action S A → Type 0
  Idle call = (s : S) → (call s).1 ≡ s

  given-Idle :
      {A B : Type 0} (r : Result A) (next : A → Action S B)
      → ((a : A) → Idle (next a))
      → Idle (give r >>= next)
  given-Idle (ok a) next idle s = idle a s
  given-Idle (err e) next idle s = refl

  status-Idle : (target : PodmanTarget) (unit : Bytes) → Idle (systemctl_status os true target unit)
  unfolding systemctl_status
  status-Idle target unit = given-Idle (validate_systemd_unit_name unit) _ (λ _ s. refl)

  then-Idle :
      {A B : Type 0} (call : Action S A) (next : A → Action S B)
      → Idle call
      → ((a : A) → Idle (next a))
      → Idle (call >>= next)
  then-Idle call next idle later s =
      handle-rule (λ o. o.1 ≡ s) call _ next s (λ e t r. ap (λ o. o.1) (sym r) ∙ idle s)
        (λ a t r. later a t ∙ ap (λ o. o.1) (sym r) ∙ idle s)

  completed-Idle :
      (target : PodmanTarget) (unit : Bytes) → Idle (completed_operation os true target unit)
  unfolding completed_operation
  completed-Idle target unit =
      then-Idle (systemctl_status os true target unit) _ (status-Idle target unit)
        (λ status s. refl)

  operate-Idle :
      (command : Bytes) (target : PodmanTarget) (unit : Bytes)
      → Idle (operate os true command target unit)
  unfolding operate
  operate-Idle command target unit =
      given-Idle (build_systemctl_user_args target command (some unit)) _
        (λ args. completed-Idle target unit)

  -- A controller for a dry run leaves the system as it was, whatever it is asked for: neither a
  -- process nor a pipe is made by any operation on a unit, a reload, or a change of a slice.
  pub systemctl_controller-Idle :
      (target : PodmanTarget) (unit : Bytes) (slice : UserSlicePolicy)
      → Idle (apply os true slice)
        × Idle ((systemctl_controller os true).daemon_reload target)
        × Idle ((systemctl_controller os true).start_unit target unit)
        × Idle ((systemctl_controller os true).restart_unit target unit)
        × Idle ((systemctl_controller os true).stop_unit target unit)
        × Idle ((systemctl_controller os true).status target unit)
  unfolding apply systemctl_daemon_reload
  systemctl_controller-Idle target unit slice = (
    given-Idle (build_systemctl_set_property_args slice) _ (λ args s. refl),
    given-Idle (build_systemctl_user_args target (text "daemon-reload") none) _ (λ args s. refl),
    operate-Idle (text "start") target unit,
    operate-Idle (text "restart") target unit,
    operate-Idle (text "stop") target unit,
    status-Idle target unit,
  )

  -- the call is refused, and the system is left as it was
  abbrev pub Refused : {A : Type 0} → Action S A → Type 0
  Refused call = (s : S) → (e : Error) × (call s ≡ (err e, s))

  given-Refused :
      {A B : Type 0} (r : Result A) (next : A → Action S B)
      → ((a : A) → r ≢ ok a)
      → Refused (give r >>= next)
  given-Refused (ok a) next never s = absurd (never a refl)
  given-Refused (err e) next never s = (e, refl)

  -- A unit whose name is not proper never reaches systemctl: to start, restart or stop it or ask
  -- for its status is refused, whether or not it is a dry run, and no process is made.
  pub systemctl_controller-Refused :
      (dry_run : Bool) (target : PodmanTarget) (unit : Bytes)
      → (IsUnitName unit → ⊥)
      → Refused ((systemctl_controller os dry_run).start_unit target unit)
        × Refused ((systemctl_controller os dry_run).restart_unit target unit)
        × Refused ((systemctl_controller os dry_run).stop_unit target unit)
        × Refused ((systemctl_controller os dry_run).status target unit)
  unfolding operate systemctl_status
  systemctl_controller-Refused dry_run target unit improper =
      let refused =
        λ (command : Bytes) (args : List Bytes)
            (h : build_systemctl_user_args target command (some unit) ≡ ok args).
          improper (((build_systemctl_user_args_lem target command (some unit) args).0 h).0.1.1) in
      (
        given-Refused (build_systemctl_user_args target (text "start") (some unit)) _
            (refused (text "start")),
        given-Refused (build_systemctl_user_args target (text "restart") (some unit)) _
            (refused (text "restart")),
        given-Refused (build_systemctl_user_args target (text "stop") (some unit)) _
            (refused (text "stop")),
        given-Refused (validate_systemd_unit_name unit) _
            (λ _ h. improper ((validate_systemd_unit_name-IsUnitName unit).0 h)),
      )
