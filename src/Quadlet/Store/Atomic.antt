-- ===== src/Quadlet/Store/Atomic.antt =====
-- `atomic_write_file` replaces a file as a whole, or leaves it.
use pod_installer.Base.{
  ℕ, true, false, [], none, Option, some, ◌≡◌, ◌≢◌, ◌⊎◌, inl, inr, sym, ap, ◌∙◌, Bytes, equal,
  equal_iff, Bool-cases,
}
use pod_installer.Error.{Error, Result, ok, err}
use pod_installer.World.{◌>>◌, handled-ensures, finally-ensures}
use pod_installer.System.{Outcome, Files, attempt, attempt-rule, attempt-ends, cleaning-ensures}
use pod_installer.Target.{filename, parent_path}
use pod_installer.Quadlet.Disk.{View, Kept, KeptBut, Disk}
use pod_installer.Quadlet.Store.{
  replace_in_directory, create_temporary, discard, fill_temporary, install_temporary, replace_file,
  fsync_directory, atomic_write_file,
}
use pod_installer.Quadlet.Store.Temporary.{
  is_hidden, Created, create_temporary-Created, Filled, fill_temporary-Filled, discarded,
}

module _ {S : Type 0} (os : Files S) (view : View S) (dir : Bytes) (disk : Disk view os dir) where
  open view use {file, Opened, Appends}

  -- every file but this one is what it was, the hidden ones left aside
  abbrev pub OthersKept : Bytes → S → S → Type 0
  OthersKept name s t =
      (other : Bytes) → other ≢ name → is_hidden other ≡ false → file other t ≡ file other s

  -- the file holds the contents, or it and all others are what they were
  abbrev Installed : Bytes → Bytes → S → Result (Unit {0}) × S → Type 0
  Installed name contents s (ok _, t) = (file name t ≡ some contents) × KeptBut view name s t
  Installed name contents s (err e, t) = (file name t ≡ file name s) × OthersKept name s t

  -- Without an error the file is as it was to be, and with one it is what it was or that.
  abbrev pub Becomes : Bytes → Option Bytes → S → Result (Unit {0}) × S → Type 0
  Becomes name after s (ok _, t) = (file name t ≡ after) × KeptBut view name s t
  Becomes name after s (err e, t) =
      ((file name t ≡ file name s) ⊎ (file name t ≡ after)) × OthersKept name s t

  abbrev pub Replaced : Bytes → Bytes → S → Result (Unit {0}) × S → Type 0
  Replaced name contents = Becomes name (some contents)

  module _ (d : ℕ) (tmp name contents : Bytes) (s : S) (hidden : is_hidden tmp ≡ true)
      (ne : tmp ≢ name) (free : file tmp s ≡ none) where
    Installed-err :
        (t : S) → KeptBut view tmp s t → (e : Error) → Installed name contents s (err e, t)
    Installed-err t but e = (but name (λ h. ne (sym h)), λ other h shown. but other (λ same. cc))

    -- behind `renameat`
    abbrev Renamed : Result (Unit {0}) × S → Type 0
    Renamed (ok u, t) = Installed name contents s (ok u, t)
    Renamed (err e, t) = Opened d t × KeptBut view tmp s t

    install_temporary-Installed :
        (path : Bytes) (u : S)
        → Opened d u
        → KeptBut view tmp s u
        → file tmp u ≡ some contents
        → Installed name contents s (install_temporary os d tmp path name u)
    install_temporary-Installed path u opened but full =
        cleaning-ensures Renamed (Installed name contents s) (discard os d tmp)
          (attempt _ (os.renameat d tmp name)) u
          (attempt-rule Renamed _ (os.renameat d tmp name) u
            (λ a t e.
              let (new, gone, others, _) = disk.links.renamed d tmp name u t opened ne e in
              (
                new ∙ full,
                λ other h. elim (Bool-cases (equal other tmp)) [
                  | inl same ↦
                      let here = (equal_iff other tmp).0 same in
                      ap (λ n. file n t) here ∙ gone ∙ sym free ∙ ap (λ n. file n s) (sym here)
                  | inr away ↦
                      let far : other ≢ tmp = λ e'. cc (away, (equal_iff other tmp).1 e') in
                      others other far h ∙ but other far
                ],
              ))
            (λ errno t e.
              let (kept, opened') = disk.links.not_renamed d errno tmp name u t opened e in
              (opened', λ other h. kept other ∙ but other h)))
          (λ a t h. h)
          (λ e t (opened', but').
            Installed-err _ (discarded os view dir disk d tmp s t opened' but') e)

    replace_file-Replaced :
        (fd : ℕ) (path : Bytes) (u : S)
        → Opened d u
        → Appends fd tmp u
        → file tmp u ≡ some []
        → KeptBut view tmp s u
        → Replaced name contents s (replace_file os d (fd, tmp) contents path name u)
    unfolding fsync_directory
    replace_file-Replaced fd path u opened appends empty but =
        handled-ensures (Installed name contents s) (Replaced name contents s) _ _
          ((fill_temporary os d (fd, tmp) contents >> install_temporary os d tmp path name) u)
          (handled-ensures (Filled os view dir disk d tmp contents u) (Installed name contents s) _
            _ (fill_temporary os d (fd, tmp) contents u)
            (fill_temporary-Filled os view dir disk d fd tmp contents u empty opened appends)
            (λ e t but'. Installed-err t (λ other h. but' other h ∙ but other h) e)
            (λ a t (opened', but', full).
              install_temporary-Installed path t opened' (λ other h. but' other h ∙ but other h)
                full))
          (λ e t (old, others). (inl old, others))
          (λ a t (new, others).
            attempt-ends (Kept view t) (Replaced name contents s) _ (os.fsync d) t
              (disk.looks.fsync d t)
              (λ u' v kept. (kept name ∙ new, λ other h. kept other ∙ others other h))
              (λ errno v kept.
                (inr (kept name ∙ new), λ other h shown. kept other ∙ others other h)))

  -- what keeps every file before and behind the replacement does no harm
  pub Becomes-between :
      (name : Bytes) (after : Option Bytes) (s u v w : S) (r : Result (Unit {0}))
      → Kept view s u
      → Kept view v w
      → Becomes name after u (r, v)
      → Becomes name after s (r, w)
  Becomes-between name after s u v w (ok a) first last (new, others) =
      (last name ∙ new, λ other h. last other ∙ others other h ∙ first other)
  Becomes-between name after s u v w (err e) first last (inl old, others) = (
    inl (last name ∙ old ∙ first name),
    λ other h shown. last other ∙ others other h shown ∙ first other,
  )
  Becomes-between name after s u v w (err e) first last (inr new, others) =
      (inr (last name ∙ new), λ other h shown. last other ∙ others other h shown ∙ first other)

  replace_in_directory-Replaced :
      (d mode : ℕ) (path contents : Bytes) (s : S)
      → Opened d s
      → Replaced (filename path) contents s (replace_in_directory os d dir path contents mode s)
  replace_in_directory-Replaced d mode path contents s opened =
      let name = filename path in
      handled-ensures (Created os view dir disk d name s) (Replaced name contents s) _ _
        (create_temporary os 100 0 d dir name mode s)
        (create_temporary-Created os view dir disk 100 0 d mode dir name s opened)
        (λ e t kept. (inl (kept name), λ other h shown. kept other))
        (λ (fd, tmp) t (hidden, ne, free, empty, but, opened', appends).
          replace_file-Replaced d tmp name contents s hidden ne free fd path t opened' appends empty
            but)

  -- behind the `open` of the directory
  abbrev pub OpenedAt : S → Result ℕ × S → Type 0
  OpenedAt s (ok d, t) = Kept view s t × Opened d t
  OpenedAt s (err e, t) = Kept view s t

  open_directory-Kept : (s t : S) (o : Outcome ℕ) → os.open_directory dir s ≡ (o, t) → Kept view s t
  open_directory-Kept s t o e name =
      ap (λ p. file name p.1) (sym e) ∙ disk.looks.open_directory dir s name

  pub attempt-OpenedAt :
      (s : S) (failure : ℕ → Error) → OpenedAt s (attempt failure (os.open_directory dir) s)
  attempt-OpenedAt s failure =
      attempt-rule (OpenedAt s) failure (os.open_directory dir) s
        (λ d t e. (open_directory-Kept s t _ e, disk.opens.opened d s t e))
        (λ errno t e. open_directory-Kept s t _ e)

  -- A write to a file of the directory is atomic: without an error the file holds the contents, and
  -- every other file is what it was; with an error the file is what it was, or holds just the
  -- contents, never a part of them, and the other files are what they were, but hidden ones.
  pub atomic_write_file-Replaced :
      (mode : ℕ) (path contents : Bytes) (s : S)
      → parent_path path ≡ dir
      → Replaced (filename path) contents s (atomic_write_file os path contents mode s)
  unfolding atomic_write_file
  atomic_write_file-Replaced mode path contents s here =
      let name = filename path in
      rw here (
        handled-ensures (OpenedAt s) (Replaced name contents s) _ _
          (attempt _ (os.open_directory dir) s) (attempt-OpenedAt s _)
          (λ e t kept. (inl (kept name), λ other h shown. kept other))
          (λ d t (kept, opened).
            finally-ensures (Replaced name contents t) (Replaced name contents s) (os.close d)
              (replace_in_directory os d dir path contents mode) t
              (replace_in_directory-Replaced d mode path contents t opened)
              (λ r v.
                Becomes-between name (some contents) s t v (os.close d v) r kept
                  (disk.looks.close d v))))
