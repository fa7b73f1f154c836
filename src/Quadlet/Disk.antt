-- ===== src/Quadlet/Disk.antt =====
-- The directory of one user's Quadlets, and what POSIX documents of the system calls on it where
-- nobody else changes it. No file in it has a second name.
use pod_installer.Base.{
  ℕ, suc, ◌≤◌, ◌<◌, [], ◌∷◌, ◌++◌, Option, none, some, true, ◌≡◌, ◌≢◌, Bytes, length, take,
}
use pod_installer.Base.Int.{pos}
use pod_installer.System.{returned, failed, enoent, eintr, Stat, Files}
use pod_installer.Target.{filename, parent_path}
use pod_installer.Quadlet.Files.{is_regular}

-- `file` is what a name of the directory holds. A descriptor is `Opened` on the directory, it
-- `Appends` to a file that it was made for, or it `Reads` what is left of a file.
pub record View (S : Type 0) : Type 1 where
  pub file : Bytes → S → Option Bytes
  pub Opened : ℕ → S → Type 0
  pub Appends : ℕ → Bytes → S → Type 0
  pub Reads : ℕ → Bytes → S → Type 0

abbrev pub bytes_of : Option Bytes → Bytes
bytes_of none = []
bytes_of (some bytes) = bytes

module _ {S : Type 0} (view : View S) where
  abbrev pub held : Bytes → S → Bytes
  held name s = bytes_of (view.file name s)

  -- every file is what it was
  abbrev pub Kept : S → S → Type 0
  Kept s t = (name : Bytes) → view.file name t ≡ view.file name s

  -- every file of another name is what it was
  abbrev pub KeptBut : Bytes → S → S → Type 0
  KeptBut name s t = (other : Bytes) → other ≢ name → view.file other t ≡ view.file other s

  module _ (os : Files S) (dir : Bytes) where
    -- the calls that only look, or that only change metadata
    pub record Looks : Type 0 where
      pub create_directories : (path : Bytes) (s : S) → Kept s (os.create_directories path s).1
      pub lstat : (path : Bytes) (s : S) → Kept s (os.lstat path s).1
      pub chmod : (path : Bytes) (mode : ℕ) (s : S) → Kept s (os.chmod path mode s).1
      pub open_directory : (path : Bytes) (s : S) → Kept s (os.open_directory path s).1
      pub open_no_follow : (path : Bytes) (s : S) → Kept s (os.open_no_follow path s).1
      pub fstat : (fd : ℕ) (s : S) → Kept s (os.fstat fd s).1
      pub fsync : (fd : ℕ) (s : S) → Kept s (os.fsync fd s).1
      pub read : (fd n : ℕ) (s : S) → Kept s (os.read fd n s).1
      pub close : (fd : ℕ) (s : S) → Kept s (os.close fd s)

    -- how a descriptor of the directory comes about and lasts
    pub record Opens : Type 0 where
      pub opened : (d : ℕ) (s t : S) → os.open_directory dir s ≡ (returned d, t) → view.Opened d t
      pub after_fsync : (d fd : ℕ) (s : S) → view.Opened d s → view.Opened d (os.fsync fd s).1
      pub after_close :
          (d fd : ℕ) (name : Bytes) (s : S)
          → view.Opened d s
          → view.Appends fd name s
          → view.Opened d (os.close fd s)
      pub appends_after_fsync :
          (fd : ℕ) (name : Bytes) (s : S)
          → view.Appends fd name s
          → view.Appends fd name (os.fsync fd s).1

    -- `openat` with `O_CREAT | O_EXCL`, and `write` behind it
    pub record Writes : Type 0 where
      pub created :
          (d fd mode : ℕ) (name : Bytes) (s t : S)
          → view.Opened d s
          → os.create_exclusive d name mode s ≡ (returned fd, t)
          → (view.file name s ≡ none)
            × (view.file name t ≡ some [])
            × KeptBut name s t
            × view.Opened d t
            × view.Appends fd name t
      pub not_created :
          (d mode errno : ℕ) (name : Bytes) (s t : S)
          → view.Opened d s
          → os.create_exclusive d name mode s ≡ (failed errno, t)
          → Kept s t × view.Opened d t
      pub wrote :
          (d fd c n : ℕ) (name contents : Bytes) (s t : S)
          → view.Opened d s
          → view.Appends fd name s
          → os.write fd (c ∷ contents) s ≡ (returned n, t)
          → (1 ≤ n)
            × (n ≤ length (c ∷ contents))
            × (view.file name t ≡ some (held name s ++ take n (c ∷ contents)))
            × (os.interruptions t ≤ os.interruptions s)
            × KeptBut name s t
            × view.Opened d t
            × view.Appends fd name t
      pub not_wrote :
          (d fd errno : ℕ) (name contents : Bytes) (s t : S)
          → view.Opened d s
          → view.Appends fd name s
          → os.write fd contents s ≡ (failed errno, t)
          → Kept s t × view.Opened d t × view.Appends fd name t
      pub interrupted :
          (fd : ℕ) (contents : Bytes) (s t : S)
          → os.write fd contents s ≡ (failed eintr, t)
          → os.interruptions t < os.interruptions s

    -- `renameat` and `unlinkat`: one that fails does nothing
    pub record Links : Type 0 where
      pub renamed :
          (d : ℕ) (old new : Bytes) (s t : S)
          → view.Opened d s
          → old ≢ new
          → os.renameat d old new s ≡ (returned tt, t)
          → (view.file new t ≡ view.file old s)
            × (view.file old t ≡ none)
            × ((other : Bytes) → other ≢ old → other ≢ new → view.file other t ≡ view.file other s)
            × view.Opened d t
      pub not_renamed :
          (d errno : ℕ) (old new : Bytes) (s t : S)
          → view.Opened d s
          → os.renameat d old new s ≡ (failed errno, t)
          → Kept s t × view.Opened d t
      pub unlinked :
          (d : ℕ) (name : Bytes) (s t : S)
          → view.Opened d s
          → os.unlinkat d name s ≡ (returned tt, t)
          → (view.file name t ≡ none) × KeptBut name s t × view.Opened d t
      pub not_unlinked :
          (d errno : ℕ) (name : Bytes) (s t : S)
          → view.Opened d s
          → os.unlinkat d name s ≡ (failed errno, t)
          → Kept s t × view.Opened d t × (errno ≡ enoent → view.file name s ≡ none)

    -- a file of the directory that is opened, and read to its end
    pub record Reading : Type 0 where
      pub absent :
          (path : Bytes) (s t : S)
          → parent_path path ≡ dir
          → os.lstat path s ≡ (failed enoent, t)
          → view.file (filename path) s ≡ none
      pub opened :
          (path : Bytes) (fd : ℕ) (s t : S)
          → parent_path path ≡ dir
          → os.open_no_follow path s ≡ (returned fd, t)
          → (contents : Bytes) × (view.file (filename path) s ≡ some contents)
            × view.Reads fd contents t
      pub sized :
          (fd : ℕ) (contents : Bytes) (st : Stat) (s t : S)
          → view.Reads fd contents s
          → os.fstat fd s ≡ (returned st, t)
          → (is_regular st.kind ≡ true → st.size ≡ pos (length contents)) × view.Reads fd contents t
      pub read :
          (fd n : ℕ) (left bytes : Bytes) (s t : S)
          → view.Reads fd left s
          → os.read fd (suc n) s ≡ (returned bytes, t)
          → (rest : Bytes) × (left ≡ bytes ++ rest)
            × (length bytes ≤ suc n)
            × (os.interruptions t ≤ os.interruptions s)
            × view.Reads fd rest t
      pub interrupted :
          (fd n : ℕ) (left : Bytes) (s t : S)
          → view.Reads fd left s
          → os.read fd n s ≡ (failed eintr, t)
          → view.Reads fd left t × (os.interruptions t < os.interruptions s)

    -- all of it
    pub record Disk : Type 0 where
      pub looks : Looks
      pub opens : Opens
      pub writes : Writes
      pub links : Links
      pub reading : Reading
