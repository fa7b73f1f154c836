-- ===== src/Quadlet/Files/WriteAll.antt =====
-- `write_all` writes what it is given.
use pod_installer.Base.{
  ℕ, zero, suc, ◌+◌, ◌≤◌, ◌<◌, [], ◌∷◌, ◌++◌, ◌≡◌, ◌≢◌, refl, sym, ap, ◌∙◌, arith, Bytes, length,
  length-drop, take, drop, take-append-drop, append_assoc, append-nil, ◌==◌, ==_iff, Bool-cases,
  inl, inr,
}
use pod_installer.Error.{Result, ok, err}
use pod_installer.World.{Action}
use pod_installer.System.{Outcome, returned, failed, eintr, Files}
use pod_installer.Quadlet.Files.{write_round, write_loop, write_all}

-- `data_of` is what the file behind `fd` holds, and `Ready` what is known of the state while the
-- descriptor writes at the end of that file and nobody else does.
module _ {S : Type 0} (os : Files S) (fd : ℕ) (data_of : S → Bytes) (Ready : S → Type 0) where
  -- What write(2) promises of such a descriptor: a call that returns has appended the first bytes
  -- of what it was given, one at least and no more than there are; one that is interrupted has
  -- written nothing, and uses up one of the interruptions to come.
  pub record WritesAtEnd : Type 0 where
    pub progress :
        (c : ℕ) (contents : Bytes) (s t : S) (n : ℕ)
        → Ready s
        → os.write fd (c ∷ contents) s ≡ (returned n, t)
        → Ready t
          × (1 ≤ n)
          × (n ≤ length (c ∷ contents))
          × (data_of t ≡ data_of s ++ take n (c ∷ contents))
          × (os.interruptions t ≤ os.interruptions s)
    pub interrupted :
        (contents : Bytes) (s t : S)
        → Ready s
        → os.write fd contents s ≡ (failed eintr, t)
        → (data_of t ≡ data_of s) × (os.interruptions t < os.interruptions s)
    pub stopped :
        (contents : Bytes) (s t : S) (errno : ℕ)
        → Ready s
        → os.write fd contents s ≡ (failed errno, t)
        → Ready t

  -- all is written, or the error is not that of an interrupted call
  abbrev pub Written : Bytes → S → Result (Unit {0}) × S → Type 0
  Written contents s (ok _, t) = Ready t × (data_of t ≡ data_of s ++ contents)
  Written contents s (err e, t) = Ready t × (e.os_errno ≢ eintr)

  Written-from :
      (contents rest : Bytes) (s t : S) (o : Result (Unit {0}) × S)
      → data_of s ++ contents ≡ data_of t ++ rest
      → Written rest t o
      → Written contents s o
  Written-from contents rest s t (ok _, u) e (ready, h) = (ready, h ∙ sym e)
  Written-from contents rest s t (err _, u) e h = h

  write_round_lem :
      (laws : WritesAtEnd) (again : Bytes → Action S (Unit {0})) (c : ℕ) (contents : Bytes) (s : S)
      (o : Outcome ℕ × S)
      → Ready s
      → os.write fd (c ∷ contents) s ≡ o
      → ((rest : Bytes) (t : S)
          → Ready t
          → length rest + os.interruptions t < length (c ∷ contents) + os.interruptions s
          → Written rest t (again rest t))
      → Written (c ∷ contents) s (write_round os again (c ∷ contents) o)
  write_round_lem laws again c contents s (returned n, t) ready e later =
      let (ready', some_byte, fits, appended, kept) = laws.progress c contents s t n ready e in
      let rest = drop n (c ∷ contents) in
      Written-from (c ∷ contents) rest s t (again rest t)
        (ap (λ bytes. data_of s ++ bytes) (sym (take-append-drop n (c ∷ contents)))
          ∙ sym (append_assoc (data_of s) (take n (c ∷ contents)) rest)
          ∙ ap (λ bytes. bytes ++ rest) (sym appended))
        (later rest t ready'
          (omega (arith, length-drop {0} n (c ∷ contents), some_byte, fits, kept)))
  write_round_lem laws again c contents s (failed errno, t) ready e later =
      let ready' = laws.stopped (c ∷ contents) s t errno ready e in
      elim (Bool-cases (errno == eintr)) [
        | inl same ↦
            let (kept, fewer) =
              laws.interrupted (c ∷ contents) s t ready
                (e ∙ ap (λ n. (failed n, t)) ((==_iff errno eintr).0 same)) in
            rw same (
              Written-from (c ∷ contents) (c ∷ contents) s t (again (c ∷ contents) t)
                (ap (λ bytes. bytes ++ (c ∷ contents)) (sym kept))
                (later (c ∷ contents) t ready' (omega (arith, fewer))))
        | inr other ↦ rw other (ready', ground arith)
      ]

  write_loop_lem :
      (laws : WritesAtEnd) (fuel : ℕ) (contents : Bytes) (s : S)
      → Ready s
      → length contents + os.interruptions s ≤ fuel
      → Written contents s (write_loop os fuel fd contents s)
  unfolding write_loop
  write_loop_lem laws fuel [] s ready h = (ready, sym (append-nil (data_of s)))
  write_loop_lem laws zero (c ∷ contents) s ready h = absurd (omega arith)
  write_loop_lem laws (suc fuel) (c ∷ contents) s ready h =
      write_round_lem laws (write_loop os fuel fd) c contents s (os.write fd (c ∷ contents) s) ready
        refl
        (λ rest t ready' fewer. write_loop_lem laws fuel rest t ready' (omega (arith, fewer, h)))

  -- Where the calls keep what write(2) promises, however the system splits the bytes among them,
  -- and whichever of them a signal interrupts, `write_all` ends; without an error the file has
  -- just the contents appended, and an error is never that of an interrupted call.
  pub write_all-Written :
      (contents : Bytes) (s : S)
      → WritesAtEnd
      → Ready s
      → Written contents s (write_all os fd contents s)
  unfolding write_all
  write_all-Written contents s laws ready =
      write_loop_lem laws (length contents + os.interruptions s) contents s ready (omega arith)
