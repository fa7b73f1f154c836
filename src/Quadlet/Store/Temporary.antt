-- ===== src/Quadlet/Store/Temporary.antt =====
-- The temporary file of `atomic_write_file`: it is made under a name that is free, and filled.
use pod_installer.Base.{
  ℕ, zero, suc, ◌<◌, ◌==◌, Bool, true, [], ◌++◌, none, some, ◌≡◌, ◌≢◌, inl, inr, refl, sym, ap, ◌∙◌,
  arith, Bytes, text, length, length-append, starts_with, Bool-cases,
}
use pod_installer.Base.Decimal.{to_string}
use pod_installer.Error.{Result, ok, err}
use pod_installer.World.{Action, handled-ensures, finally-ensures}
use pod_installer.System.{
  Outcome, returned, failed, eintr, eexist, Files, attempt-ends, cleaning, cleaning-ensures,
}
use pod_installer.Quadlet.Files.{write_all}
use pod_installer.Quadlet.Files.WriteAll.{WritesAtEnd, Written, write_all-Written}
use pod_installer.Quadlet.Disk.{View, bytes_of, held, Kept, KeptBut, Disk}
use pod_installer.Quadlet.Store.{
  candidate_name, created, create_temporary, discard, flush_temporary, fill_temporary,
}

-- the names that begin with a dot, which no Quadlet has
abbrev pub is_hidden : Bytes → Bool
is_hidden name = starts_with name (text ".")

module _ {S : Type 0} (os : Files S) where
  candidate_name-is_hidden :
      (final_name : Bytes) (pid attempt_no : ℕ)
      → is_hidden (candidate_name os final_name pid attempt_no) ≡ true
  unfolding starts_with text
  candidate_name-is_hidden final_name pid attempt_no = ground arith

  length-lt-candidate_name :
      (final_name : Bytes) (pid attempt_no : ℕ)
      → length final_name < length (candidate_name os final_name pid attempt_no)
  unfolding text
  length-lt-candidate_name final_name pid attempt_no =
      let named = final_name ++ text ".tmp." in
      let counted = named ++ to_string pid in
      omega (
        arith,
        length-append {0} final_name (text ".tmp."),
        length-append {0} named (to_string pid),
        length-append {0} counted (text "."),
        length-append {0} (counted ++ text ".") (to_string attempt_no),
      )

  candidate_name-ne :
      (final_name : Bytes) (pid attempt_no : ℕ)
      → candidate_name os final_name pid attempt_no ≢ final_name
  candidate_name-ne final_name pid attempt_no e =
      absurd (omega (arith, length-lt-candidate_name final_name pid attempt_no, ap length e))

module _ {S : Type 0} (os : Files S) (view : View S) (dir : Bytes) (disk : Disk view os dir) where
  open view use {file, Opened, Appends}

  -- behind `create_temporary`: an empty file with a name that was free
  abbrev pub Created : ℕ → Bytes → S → Result (ℕ × Bytes) × S → Type 0
  Created d final_name s (ok (fd, tmp), t) =
      (is_hidden tmp ≡ true)
      × (tmp ≢ final_name)
      × (file tmp s ≡ none)
      × (file tmp t ≡ some [])
      × KeptBut view tmp s t
      × Opened d t
      × Appends fd tmp t
  Created d final_name s (err e, t) = Kept view s t

  Created-from :
      (d : ℕ) (final_name : Bytes) (s u : S) (o : Result (ℕ × Bytes) × S)
      → Kept view s u
      → Created d final_name u o
      → Created d final_name s o
  Created-from d final_name s u (ok (fd, tmp), t) kept (hidden, ne, free, empty, but, opened, app) =
      (hidden, ne, sym (kept tmp) ∙ free, empty, λ other h. but other h ∙ kept other, opened, app)
  Created-from d final_name s u (err e, t) kept h = λ name. h name ∙ kept name

  created_lem :
      (d mode : ℕ) (path final_name candidate : Bytes) (next : Action S (ℕ × Bytes)) (s : S)
      (o : Outcome ℕ × S)
      → Opened d s
      → is_hidden candidate ≡ true
      → candidate ≢ final_name
      → os.create_exclusive d candidate mode s ≡ o
      → ((t : S) → Opened d t → Created d final_name t (next t))
      → Created d final_name s (created os next path candidate o)
  created_lem d mode path final_name candidate next s (returned fd, t) opened hidden ne e later =
      let (free, empty, but, opened', appends) =
        disk.writes.created d fd mode candidate s t opened e in
      (hidden, ne, free, empty, but, opened', appends)
  created_lem d mode path final_name candidate next s (failed errno, t) opened hidden ne e later =
      let (kept, opened') = disk.writes.not_created d mode errno candidate s t opened e in
      elim (Bool-cases (errno == eexist)) [
        | inl taken ↦ rw taken (Created-from d final_name s t (next t) kept (later t opened'))
        | inr other ↦ rw other kept
      ]

  pub create_temporary-Created :
      (left attempt_no d mode : ℕ) (path final_name : Bytes) (s : S)
      → Opened d s
      → Created d final_name s (create_temporary os left attempt_no d path final_name mode s)
  unfolding create_temporary
  create_temporary-Created zero attempt_no d mode path final_name s opened = λ name. refl
  create_temporary-Created (suc left) attempt_no d mode path final_name s opened =
      created_lem d mode path final_name _ _ s _ opened
        (candidate_name-is_hidden os final_name (os.getpid s) attempt_no)
        (candidate_name-ne os final_name (os.getpid s) attempt_no) refl
        (λ t opened'.
          create_temporary-Created left (suc attempt_no) d mode path final_name t opened')

  -- what is known while the temporary file is written
  record Ready (d fd : ℕ) (tmp : Bytes) (s t : S) : Type 0 where
    opened : Opened d t
    appends : Appends fd tmp t
    others : KeptBut view tmp s t
    there : file tmp t ≡ some (held view tmp t)

  Ready-WritesAtEnd :
      (d fd : ℕ) (tmp : Bytes) (s : S) → WritesAtEnd os fd (held view tmp) (Ready d fd tmp s)
  Ready-WritesAtEnd d fd tmp s = record {
    progress = λ c contents u t n ready e.
        let (some_byte, fits, appended, fewer, but, opened, appends) =
          disk.writes.wrote d fd c n tmp contents u t ready.opened ready.appends e in
        (
          record {
            opened = opened;
            appends = appends;
            others = λ other h. but other h ∙ ready.others other h;
            there = appended ∙ ap (λ o. some (bytes_of o)) (sym appended);
          },
          some_byte,
          fits,
          ap bytes_of appended,
          fewer,
        );
    interrupted = λ contents u t ready e.
        let (kept, _, _) =
          disk.writes.not_wrote d fd eintr tmp contents u t ready.opened ready.appends e in
        (ap bytes_of (kept tmp), disk.writes.interrupted fd contents u t e);
    stopped = λ contents u t errno ready e.
        let (kept, opened, appends) =
          disk.writes.not_wrote d fd errno tmp contents u t ready.opened ready.appends e in
        record {
          opened = opened;
          appends = appends;
          others = λ other h. kept other ∙ ready.others other h;
          there = kept tmp ∙ ready.there ∙ ap (λ o. some (bytes_of o)) (sym (kept tmp));
        };
  }

  -- behind `fill_temporary`, which began with the file empty
  abbrev pub Filled : ℕ → Bytes → Bytes → S → Result (Unit {0}) × S → Type 0
  Filled d tmp contents s (ok _, t) =
      Opened d t × KeptBut view tmp s t × (file tmp t ≡ some contents)
  Filled d tmp contents s (err e, t) = KeptBut view tmp s t

  -- the same before the descriptor is closed
  abbrev Flushed : ℕ → ℕ → Bytes → Bytes → S → Result (Unit {0}) × S → Type 0
  Flushed d fd tmp contents s (ok _, t) =
      Opened d t × Appends fd tmp t × KeptBut view tmp s t × (file tmp t ≡ some contents)
  Flushed d fd tmp contents s (err e, t) = Opened d t × KeptBut view tmp s t

  -- the same behind the removal of a file that was not filled
  abbrev Discarded : ℕ → ℕ → Bytes → Bytes → S → Result (Unit {0}) × S → Type 0
  Discarded d fd tmp contents s (ok u, t) = Flushed d fd tmp contents s (ok u, t)
  Discarded d fd tmp contents s (err e, t) = KeptBut view tmp s t

  flush_temporary-Flushed :
      (d fd : ℕ) (tmp contents : Bytes) (s : S)
      → file tmp s ≡ some []
      → Opened d s
      → Appends fd tmp s
      → Flushed d fd tmp contents s (flush_temporary os fd contents s)
  flush_temporary-Flushed d fd tmp contents s empty opened appends =
      handled-ensures (Written os fd (held view tmp) (Ready d fd tmp s) contents s)
        (Flushed d fd tmp contents s) _ _ (write_all os fd contents s)
        (write_all-Written os fd (held view tmp) (Ready d fd tmp s) contents s
          (Ready-WritesAtEnd d fd tmp s)
          (record {
            opened = opened;
            appends = appends;
            others = λ other h. refl;
            there = empty ∙ ap (λ o. some (bytes_of o)) (sym empty);
          }))
        (λ e t (ready, _). (ready.opened, ready.others))
        (λ a t (ready, all_of).
          let full : file tmp t ≡ some contents =
            ready.there ∙ ap some (all_of ∙ ap (λ o. bytes_of o ++ contents) empty) in
          attempt-ends (λ v. Kept view t v × Opened d v × Appends fd tmp v)
            (Flushed d fd tmp contents s) _ (os.fsync fd) t
            (
              disk.looks.fsync fd t,
              disk.opens.after_fsync d fd t ready.opened,
              disk.opens.appends_after_fsync fd tmp t ready.appends,
            )
            (λ u v (kept, opened', appends').
              (opened', appends', λ other h. kept other ∙ ready.others other h, kept tmp ∙ full))
            (λ errno v (kept, opened', _). (opened', λ other h. kept other ∙ ready.others other h)))

  -- behind `unlinkat` of the temporary name, whatever it returned
  pub discarded :
      (d : ℕ) (tmp : Bytes) (s u : S)
      → Opened d u
      → KeptBut view tmp s u
      → KeptBut view tmp s (discard os d tmp u)
  discarded d tmp s u opened but = ended (os.unlinkat d tmp u) refl
    where
      ended : (o : Outcome (Unit {0}) × S) → os.unlinkat d tmp u ≡ o → KeptBut view tmp s o.1
      ended (returned _, t) e other h =
          (disk.links.unlinked d tmp u t opened e).1 other h ∙ but other h
      ended (failed errno, t) e other h =
          (disk.links.not_unlinked d errno tmp u t opened e).0 other ∙ but other h

  pub fill_temporary-Filled :
      (d fd : ℕ) (tmp contents : Bytes) (s : S)
      → file tmp s ≡ some []
      → Opened d s
      → Appends fd tmp s
      → Filled d tmp contents s (fill_temporary os d (fd, tmp) contents s)
  fill_temporary-Filled d fd tmp contents s empty opened appends =
      finally-ensures (Discarded d fd tmp contents s) (Filled d tmp contents s) (os.close fd)
        (cleaning (discard os d tmp) (flush_temporary os fd contents)) s
        (cleaning-ensures (Flushed d fd tmp contents s) (Discarded d fd tmp contents s)
          (discard os d tmp) (flush_temporary os fd contents) s
          (flush_temporary-Flushed d fd tmp contents s empty opened appends) (λ a t h. h)
          (λ e t (opened', but). discarded d tmp s t opened' but))
        closed
    where
      closed :
          (r : Result (Unit {0})) (t : S)
          → Discarded d fd tmp contents s (r, t)
          → Filled d tmp contents s (r, os.close fd t)
      closed (ok u) t (opened', appends', but, full) = (
        disk.opens.after_close d fd tmp t opened' appends',
        λ other h. disk.looks.close fd t other ∙ but other h,
        disk.looks.close fd t tmp ∙ full,
      )
      closed (err e) t but = λ other h. disk.looks.close fd t other ∙ but other h
