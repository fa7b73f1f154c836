-- ===== src/Systemd/Bus/Job.antt =====
-- What is behind an operation of the sd-bus controller that succeeded.
use pod_installer.Base.{
  ℕ, false, List, [], ◌∷◌, ◌++◌, Option, none, some, ◌≡◌, refl, ap, Bytes, text, equal, equal_iff,
  All, Bool-cases, inl, inr, arith,
}
use pod_installer.Error.{Error, ok}
use pod_installer.World.{Action, give, finally, ◌>>=◌, >>=-eq-ok, finally-eq-ok}
use pod_installer.Target.{PodmanTarget}
use pod_installer.Systemd.Unit.{validate_systemd_unit_name}
use pod_installer.Systemd.Unit.Accepted.{IsUnitName, validate_systemd_unit_name-IsUnitName}
use pod_installer.Systemd.Status.{UnitOperationResult}
use pod_installer.Systemd.Bus.{
  Reply, replied, threw, Signal, Bus, user_bus_address, job_result, caught, catching, sdbus_status,
  job_failure, judge_job, job_by, unit_job_and_wait,
}

-- the first signal for this job has this result
abbrev pub FirstFor : Bytes → Bytes → List Signal → Type 0
FirstFor job result signals =
    (before : List Signal) × (after : List Signal) × (signals ≡ before ++ (job, result) ∷ after)
    × All (λ signal. equal signal.0 job ≡ false) before

job_result-some :
    (job result : Bytes) (signals : List Signal)
    → job_result job (some result) signals ≡ some result
unfolding job_result
job_result-some job result [] = refl
job_result-some job result (signal ∷ signals) = job_result-some job result signals

job_result-FirstFor :
    (job result : Bytes) (signals : List Signal)
    → job_result job none signals ≡ some result
    → FirstFor job result signals
unfolding job_result
job_result-FirstFor job result [] h = cc
job_result-FirstFor job result ((other, r) ∷ signals) h = elim (Bool-cases (equal other job)) [
  | inl same ↦
      let held : job_result job (some r) signals ≡ some result = ground arith in
      let e : r ≡ result = cc (job_result-some job r signals) in
      let f : other ≡ job = (equal_iff other job).0 same in ([], signals, cc, tt)
  | inr different ↦
      let rest : job_result job none signals ≡ some result = ground arith in
      let (before, after, split, none_of) = job_result-FirstFor job result signals rest in
      ((other, r) ∷ before, after, ap (◌∷◌ (other, r)) split, (different, none_of))
]

module _ {S A : Type 0} where
  caught-eq-ok :
      (failure : Bytes → Bytes → Error) (o : Reply A × S) {a : A} {t : S}
      → caught failure o ≡ (ok a, t)
      → o ≡ (replied a, t)
  caught-eq-ok failure (replied a, t) h = cc
  caught-eq-ok failure (threw name message, t) h = cc

module _ {S : Type 0} (bus : Bus S) (target : PodmanTarget) (method unit : Bytes)
    (timeout : ℕ) where
  -- a job that was started is the one that the first signal for it calls done, and the status is
  -- read behind this
  pub record Completed (operation : UnitOperationResult) : Type 0 where
    pub proper : IsUnitName unit
    pub manager : ℕ
    pub job : Bytes
    pub signals : List Signal
    pub s : S
    pub t : S
    pub u : S
    pub v : S
    pub started : bus.start_job manager method unit s ≡ (replied job, t)
    pub arrived : bus.job_signals manager timeout t ≡ (replied signals, u)
    pub first : FirstFor job (text "done") signals
    pub job_path : operation.job_path ≡ some job
    pub reported : sdbus_status bus target unit u ≡ (ok operation.final_status, v)

  judge_lem :
      (job : Bytes) (held : Option Bytes) (s : S) {operation : UnitOperationResult} {t : S}
      → judge_job bus target method unit job held s ≡ (ok operation, t)
      → (held ≡ some (text "done"))
        × (operation.job_path ≡ some job)
        × (sdbus_status bus target unit s ≡ (ok operation.final_status, t))
  judge_lem job none s h = cc
  judge_lem job (some result) s h = elim (Bool-cases (equal result (text "done"))) [
    | inr other ↦ cc (rw other at h)
    | inl done ↦
        let e : result ≡ text "done" = (equal_iff result (text "done")).0 done in
        let (status, u, read, given) =
          >>=-eq-ok (sdbus_status bus target unit)
            (λ status. give (ok (record { job_path = some job; final_status = status }))) s
            (rw done at h) in
        (ap some e, cc, cc)
  ]

  -- An operation on a unit that succeeds is for a proper name, the job that it started is in its
  -- result, the first JobRemoved signal for this job that came before the timeout says "done",
  -- those for other jobs not counted, and the status is the one that was read behind it.
  pub unit_job_and_wait-Completed :
      (operation : UnitOperationResult) (s t : S)
      → unit_job_and_wait bus target method unit timeout s ≡ (ok operation, t)
      → Completed operation
  unfolding unit_job_and_wait
  unit_job_and_wait-Completed operation s t h =
      let connect : Action S ℕ =
        catching (job_failure bus method) (bus.manager (user_bus_address target)) in
      let by_manager : ℕ → Action S UnitOperationResult =
        λ manager. finally (bus.release manager) (job_by bus target method unit timeout manager) in
      let connected : Unit {0} → Action S UnitOperationResult = λ _. connect >>= by_manager in
      let (_, s1, checked, h1) = >>=-eq-ok (give (validate_systemd_unit_name unit)) connected s h in
      let (manager, s2, _, h2) = >>=-eq-ok connect by_manager s1 h1 in
      let (s3, h3) =
        finally-eq-ok (bus.release manager) (job_by bus target method unit timeout manager) s2 h2 in
      let start : Action S Bytes =
        catching (job_failure bus method) (bus.start_job manager method unit) in
      let wait : Action S (List Signal) =
        catching (job_failure bus method) (bus.job_signals manager timeout) in
      let judged : Bytes → List Signal → Action S UnitOperationResult =
        λ job signals. judge_job bus target method unit job (job_result job none signals) in
      let waited : Bytes → Action S UnitOperationResult = λ job. wait >>= judged job in
      let started : Unit {0} → Action S UnitOperationResult = λ _. start >>= waited in
      let (_, s4, _, h4) =
        >>=-eq-ok (catching (job_failure bus method) (bus.subscribe manager)) started s2 h3 in
      let (job, s5, e5, h5) = >>=-eq-ok start waited s4 h4 in
      let (signals, s6, e6, h6) = >>=-eq-ok wait (judged job) s5 h5 in
      let (first, path, reported) = judge_lem job (job_result job none signals) s6 h6 in
      record {
        proper = (validate_systemd_unit_name-IsUnitName unit).0 (ap (λ o. o.0) checked);
        manager = manager;
        job = job;
        signals = signals;
        s = s4;
        t = s5;
        u = s6;
        v = s3;
        started = caught-eq-ok (job_failure bus method) (bus.start_job manager method unit s4) e5;
        arrived = caught-eq-ok (job_failure bus method) (bus.job_signals manager timeout s5) e6;
        first = job_result-FirstFor job (text "done") signals first;
        job_path = path;
        reported = reported;
      }
