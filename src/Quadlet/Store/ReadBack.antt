-- ===== src/Quadlet/Store/ReadBack.antt =====
-- `read_regular_file_no_symlink` reads the whole file.
use pod_installer.Base.{
  ℕ, zero, suc, ◌+◌, ◌-◌, ◌≤◌, ◌<◌, ◌==◌, ==_iff, true, [], ◌∷◌, ◌++◌, some, ◌≡◌, ◌≢◌, refl, sym,
  ap, ◌∙◌, arith, Bytes, length, length-append, append_assoc, append-nil, Bool-cases, inl, inr,
}
use pod_installer.Base.Int.{pos}
use pod_installer.Error.{Result, ok, err}
use pod_installer.World.{Action, handled-ensures, finally-ensures}
use pod_installer.System.{Outcome, returned, failed, eintr, Stat, Files, attempt, attempt-rule}
use pod_installer.Target.{filename, parent_path}
use pod_installer.Quadlet.Files.{is_regular}
use pod_installer.Quadlet.Disk.{View, Disk}
use pod_installer.Quadlet.Store.{
  read_round, read_loop, read_checked, read_opened, size_of, is_too_large,
  read_regular_file_no_symlink,
}

module _ {S : Type 0} (os : Files S) (view : View S) (dir : Bytes) (disk : Disk view os dir) where
  open view use {file, Reads}

  -- all that was left is read, or the error is not that of an interrupted call
  abbrev ReadTo : Bytes → Result Bytes × S → Type 0
  ReadTo all_of (ok bytes, t) = bytes ≡ all_of
  ReadTo all_of (err e, t) = e.os_errno ≢ eintr

  read_round_lem :
      (fd n : ℕ) (path left out : Bytes) (again : ℕ → Bytes → Action S Bytes) (s : S)
      (o : Outcome Bytes × S)
      → Reads fd left s
      → length left ≡ suc n
      → os.read fd (suc n) s ≡ o
      → ((m : ℕ) (rest out' : Bytes) (t : S)
          → Reads fd rest t
          → length rest ≡ m
          → m + os.interruptions t < suc n + os.interruptions s
          → ReadTo (out' ++ rest) (again m out' t))
      → ReadTo (out ++ left) (read_round os again path (suc n) out o)
  read_round_lem fd n path left out again s (returned [], t) reads size e later =
      λ h. absurd (omega (arith, h))
  read_round_lem fd n path left out again s (returned (c ∷ bytes), t) reads size e later =
      let (rest, splits, fits, kept, reads') =
        disk.reading.read fd n left (c ∷ bytes) s t reads e in
      let sizes : length left ≡ length (c ∷ bytes) + length rest =
        ap length splits ∙ length-append (c ∷ bytes) rest in
      rw (splits, ← append_assoc out (c ∷ bytes) rest)
        (later (suc n - length (c ∷ bytes)) rest (out ++ c ∷ bytes) t reads'
          (omega (arith, sizes, size, fits)) (omega (arith, sizes, size, fits, kept)))
  read_round_lem fd n path left out again s (failed errno, t) reads size e later =
      elim (Bool-cases (errno == eintr)) [
        | inl same ↦
            let (reads', fewer) =
              disk.reading.interrupted fd (suc n) left s t reads
                (e ∙ ap (λ k. (failed k, t)) ((==_iff errno eintr).0 same)) in
            rw same (later (suc n) left out t reads' size (omega (arith, fewer)))
        | inr other ↦ rw other (ground arith)
      ]

  read_loop-ReadTo :
      (fuel fd n : ℕ) (path left out : Bytes) (s : S)
      → Reads fd left s
      → length left ≡ n
      → n + os.interruptions s ≤ fuel
      → ReadTo (out ++ left) (read_loop os fuel fd path n out s)
  unfolding read_loop
  read_loop-ReadTo fuel fd zero path [] out s reads size enough = sym (append-nil out)
  read_loop-ReadTo fuel fd zero path (c ∷ left) out s reads size enough = absurd (omega arith)
  read_loop-ReadTo zero fd (suc n) path left out s reads size enough = absurd (omega arith)
  read_loop-ReadTo (suc fuel) fd (suc n) path left out s reads size enough =
      read_round_lem fd n path left out (read_loop os fuel fd path) s (os.read fd (suc n) s) reads
        size refl
        (λ m rest out' t reads' size' fewer.
          read_loop-ReadTo fuel fd m path rest out' t reads' size' (omega (arith, fewer, enough)))

  -- without an error, just these bytes are read
  abbrev Got : Bytes → Result Bytes × S → Type 0
  Got contents (ok bytes, t) = bytes ≡ contents
  Got contents (err e, t) = Unit {0}

  ReadTo-Got : (contents : Bytes) (o : Result Bytes × S) → ReadTo contents o → Got contents o
  ReadTo-Got contents (ok bytes, t) h = h
  ReadTo-Got contents (err e, t) h = tt

  read_checked-Got :
      (fd max_size : ℕ) (path contents : Bytes) (st : Stat) (s : S)
      → Reads fd contents s
      → (is_regular st.kind ≡ true → st.size ≡ pos (length contents))
      → Got contents (read_checked os fd path max_size st s)
  read_checked-Got fd max_size path contents st s reads sized =
      elim (Bool-cases (is_regular st.kind)) [
        | inr special ↦ rw special tt
        | inl regular ↦ rw regular (elim (Bool-cases (is_too_large os st.size max_size)) [
          | inl large ↦ rw large tt
          | inr fits ↦
              let size : size_of os st.size ≡ length contents = ap (size_of os) (sized regular) in
              rw (fits, size)
                (ReadTo-Got contents _ (
                  read_loop-ReadTo (length contents + os.interruptions s) fd (length contents) path
                    contents [] s reads refl (omega arith)))
        ])
      ]

  -- without an error, just what the file held is read
  abbrev pub ReadBack : Bytes → S → Result Bytes × S → Type 0
  ReadBack name s (ok bytes, t) = file name s ≡ some bytes
  ReadBack name s (err e, t) = Unit {0}

  abbrev OpenedOn : Bytes → S → Result ℕ × S → Type 0
  OpenedOn name s (ok fd, t) =
      (contents : Bytes) × (file name s ≡ some contents) × Reads fd contents t
  OpenedOn name s (err e, t) = Unit {0}

  abbrev Sized : ℕ → Bytes → Result Stat × S → Type 0
  Sized fd contents (ok st, t) =
      (is_regular st.kind ≡ true → st.size ≡ pos (length contents)) × Reads fd contents t
  Sized fd contents (err e, t) = Unit {0}

  read_opened-Got :
      (fd max_size : ℕ) (path contents : Bytes) (s : S)
      → Reads fd contents s
      → Got contents (read_opened os fd path max_size s)
  read_opened-Got fd max_size path contents s reads =
      handled-ensures (Sized fd contents) (Got contents) _ _ (attempt _ (os.fstat fd) s)
        (attempt-rule (Sized fd contents) _ (os.fstat fd) s
          (λ st t e. disk.reading.sized fd contents st s t reads e) (λ errno t e. tt))
        (λ e t _. tt)
        (λ st t (sized, reads'). read_checked-Got fd max_size path contents st t reads' sized)

  Got-ReadBack :
      (name contents : Bytes) (s v w : S) (r : Result Bytes)
      → file name s ≡ some contents
      → Got contents (r, v)
      → ReadBack name s (r, w)
  Got-ReadBack name contents s v w (ok bytes) there h = there ∙ ap some (sym h)
  Got-ReadBack name contents s v w (err e) there h = tt

  pub read_regular_file_no_symlink-ReadBack :
      (path : Bytes) (max_size : ℕ) (s : S)
      → parent_path path ≡ dir
      → ReadBack (filename path) s (read_regular_file_no_symlink os path max_size s)
  unfolding read_regular_file_no_symlink
  read_regular_file_no_symlink-ReadBack path max_size s here =
      let name = filename path in
      handled-ensures (OpenedOn name s) (ReadBack name s) _ _ (attempt _ (os.open_no_follow path) s)
        (attempt-rule (OpenedOn name s) _ (os.open_no_follow path) s
          (λ fd t e. disk.reading.opened path fd s t here e) (λ errno t e. tt))
        (λ e t _. tt)
        (λ fd t (contents, there, reads).
          finally-ensures (Got contents) (ReadBack name s) (os.close fd)
            (read_opened os fd path max_size) t (read_opened-Got fd max_size path contents t reads)
            (λ r v. Got-ReadBack name contents s v (os.close fd v) r there))
