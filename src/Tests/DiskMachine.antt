-- ===== src/Tests/DiskMachine.antt =====
-- A machine with one directory of files, on which the system calls keep the laws of a disk.
use pod_installer.Base.{
  ℕ, zero, suc, ◌≤◌, ◌<◌, List, [], ◌∷◌, ◌++◌, Option, none, some, ◌≡◌, ◌≢◌, refl, sym, ap, ◌∙◌,
  arith, Bytes, equal, equal_iff, equal_refl, length, take, drop, take-append-drop, Bool-cases, inl,
  inr, if◌then◌else◌,
}
use pod_installer.Base.Int.{pos}
use pod_installer.System.{
  Outcome, returned, failed, enoent, eintr, eexist, FileKind, regular_file, real_directory, Stat,
  Files,
}
use pod_installer.Target.{filename}
use pod_installer.Quadlet.Disk.{
  View, bytes_of, held, Kept, KeptBut, Looks, Opens, Writes, Links, Reading, Disk,
}

-- the files by name, the name that descriptor 5 writes, what descriptor 4 has left to read, and
-- the interruptions to come; descriptor 3 is the directory
pub record Machine : Type 0 where
  pub files : Bytes → Option Bytes
  pub target : Bytes
  pub reading : Bytes
  pub pauses : ℕ

abbrev pub update : Bytes → Option Bytes → (Bytes → Option Bytes) → Bytes → Option Bytes
update name value files other = if equal other name then value else files other

abbrev stat_of : FileKind → ℕ → Stat
stat_of kind size = record { kind = kind; uid = 0; gid = 0; permissions = 493; size = pos size }

abbrev looked : Machine → Option Bytes → Outcome Stat × Machine
looked s (some contents) = (returned (stat_of regular_file (length contents)), s)
looked s none = (failed enoent, s)

abbrev look : List Bytes → Bytes → Machine → Outcome Stat × Machine
look [] path s = looked s (s.files (filename path))
look (dir ∷ dirs) path s =
    let rest = look dirs path s in
    if equal path dir then (returned (stat_of real_directory 0), s) else rest

abbrev created : Bytes → Machine → Option Bytes → Outcome ℕ × Machine
created name s (some contents) = (failed eexist, s)
created name s none =
    (returned 5, record s { files = update name (some []) s.files; target = name })

abbrev written : Machine → Bytes → ℕ → Outcome ℕ × Machine
written s bytes (suc n) = (failed eintr, record s { pauses = n })
written s [] zero = (returned 0, s)
written s (c ∷ bytes) zero = (
  returned 1,
  record s { files = update s.target (some (bytes_of (s.files s.target) ++ c ∷ [])) s.files },
)

abbrev taken : ℕ → Machine → ℕ → Outcome Bytes × Machine
taken n s (suc k) = (failed eintr, record s { pauses = k })
taken n s zero = (returned (take n s.reading), record s { reading = drop n s.reading })

abbrev moved : Bytes → Bytes → Machine → Option Bytes → Outcome (Unit {0}) × Machine
moved old new s none = (failed enoent, s)
moved old new s (some contents) =
    (returned tt, record s { files = update old none (update new (some contents) s.files) })

abbrev dropped : Bytes → Machine → Option Bytes → Outcome (Unit {0}) × Machine
dropped name s none = (failed enoent, s)
dropped name s (some contents) = (returned tt, record s { files = update name none s.files })

abbrev opened : Machine → Option Bytes → Outcome ℕ × Machine
opened s none = (failed enoent, s)
opened s (some contents) = (returned 4, record s { reading = contents })

abbrev pub machine : List Bytes → Files Machine
machine dirs = record {
  create_directories = λ path s. (returned tt, s);
  lstat = look dirs;
  fstat = λ fd s. (returned (stat_of regular_file (length s.reading)), s);
  chmod = λ path mode s. (returned tt, s);
  open_directory = λ path s. (returned 3, s);
  open_no_follow = λ path s. opened s (s.files (filename path));
  create_exclusive = λ dir_fd name mode s. created name s (s.files name);
  write = λ fd bytes s. written s bytes s.pauses;
  read = λ fd n s. taken n s s.pauses;
  fsync = λ fd s. (returned tt, s);
  renameat = λ dir_fd old new s. moved old new s (s.files old);
  unlinkat = λ dir_fd name s. dropped name s (s.files name);
  close = λ fd s. s;
  getpid = λ s. 7;
  strerror = λ errno. [];
  interruptions = λ s. s.pauses;
}

abbrev pub machine_view : View Machine
machine_view = record {
  file = λ name s. s.files name;
  Opened = λ d s. Unit {0};
  Appends = λ fd name s. s.target ≡ name;
  Reads = λ fd left s. s.reading ≡ left;
}

update_self :
    (name : Bytes) (value : Option Bytes) (files : Bytes → Option Bytes)
    → update name value files name ≡ value
update_self name value files = rw (equal_refl name)

pub update_other :
    (name other : Bytes) (value : Option Bytes) (files : Bytes → Option Bytes)
    → other ≢ name
    → update name value files other ≡ files other
update_other name other value files ne = elim (Bool-cases (equal other name)) [
  | inl same ↦ absurd (ne ((equal_iff other name).0 same))
  | inr away ↦ rw away
]

look-kept :
    (dirs : List Bytes) (path : Bytes) (s : Machine) (name : Bytes)
    → (look dirs path s).1.files name ≡ s.files name
look-kept [] path s name = ended (s.files (filename path))
  where
    ended : (o : Option Bytes) → (looked s o).1.files name ≡ s.files name
    ended none = refl
    ended (some contents) = refl
look-kept (dir ∷ dirs) path s name = elim (Bool-cases (equal path dir)) [
  | inl same ↦ rw same
  | inr away ↦ rw away (look-kept dirs path s name)
]

module _ (dirs : List Bytes) (dir : Bytes) where
  os : Files Machine
  os = machine dirs

  opened-kept :
      (s : Machine) (o : Option Bytes) (name : Bytes) → (opened s o).1.files name ≡ s.files name
  opened-kept s none name = refl
  opened-kept s (some contents) name = refl

  taken-kept :
      (n : ℕ) (s : Machine) (k : ℕ) (name : Bytes) → (taken n s k).1.files name ≡ s.files name
  taken-kept n s zero name = refl
  taken-kept n s (suc k) name = refl

  machine-Looks : Looks machine_view (machine dirs) dir
  machine-Looks = record {
    create_directories = λ path s name. refl;
    lstat = λ path s name. look-kept dirs path s name;
    chmod = λ path mode s name. refl;
    open_directory = λ path s name. refl;
    open_no_follow = λ path s name. opened-kept s (s.files (filename path)) name;
    fstat = λ fd s name. refl;
    fsync = λ fd s name. refl;
    read = λ fd n s name. taken-kept n s s.pauses name;
    close = λ fd s name. refl;
  }

  machine-Opens : Opens machine_view (machine dirs) dir
  machine-Opens = record {
    opened = λ d s t e. tt;
    after_fsync = λ d fd s h. tt;
    after_close = λ d fd name s h k. tt;
    appends_after_fsync = λ fd name s h. h;
  }

  created_lem :
      (name : Bytes) (s : Machine) (o : Option Bytes) (fd : ℕ) (t : Machine)
      → s.files name ≡ o
      → created name s o ≡ (returned fd, t)
      → (s.files name ≡ none)
        × (t.files name ≡ some [])
        × KeptBut machine_view name s t
        × Unit {0}
        × (t.target ≡ name)
  created_lem name s (some contents) fd t e h = cc
  created_lem name s none fd t e h =
      let same : record s { files = update name (some []) s.files; target = name } ≡ t = cc in
      rw (← same) (
        e,
        update_self name (some []) s.files,
        (λ other ne. update_other name other (some []) s.files ne),
        tt,
        refl,
      )

  not_created_lem :
      (name : Bytes) (s : Machine) (o : Option Bytes) (errno : ℕ) (t : Machine)
      → created name s o ≡ (failed errno, t)
      → s ≡ t
  not_created_lem name s (some contents) errno t h = cc
  not_created_lem name s none errno t h = cc

  written_lem :
      (c n k : ℕ) (name bytes : Bytes) (s t : Machine)
      → s.target ≡ name
      → s.pauses ≡ k
      → written s (c ∷ bytes) k ≡ (returned n, t)
      → (1 ≤ n)
        × (n ≤ length (c ∷ bytes))
        × (t.files name ≡ some (held machine_view name s ++ take n (c ∷ bytes)))
        × (t.pauses ≤ s.pauses)
        × KeptBut machine_view name s t
        × Unit {0}
        × (t.target ≡ name)
  written_lem c n (suc k) name bytes s t here e h = cc
  written_lem c n zero name bytes s t here e h =
      let one : ◌≡◌ {A = ℕ} 1 n = cc in
      let full = some (bytes_of (s.files s.target) ++ c ∷ []) in
      let same : record s { files = update s.target full s.files } ≡ t = cc in
      rw (← one, ← same, ← here)
        (
          omega arith,
          omega arith,
          update_self s.target full s.files,
          omega arith,
          (λ other ne. update_other s.target other full s.files ne),
          tt,
          refl,
        )

  not_written_lem :
      (errno k : ℕ) (name bytes : Bytes) (s t : Machine)
      → s.target ≡ name
      → written s bytes k ≡ (failed errno, t)
      → Kept machine_view s t × Unit {0} × (t.target ≡ name)
  not_written_lem errno (suc k) name bytes s t here h =
      let same : record s { pauses = k } ≡ t = cc in rw (← same) ((λ other. refl), tt, here)
  not_written_lem errno zero name [] s t here h = cc
  not_written_lem errno zero name (c ∷ bytes) s t here h = cc

  written-interrupted :
      (k : ℕ) (bytes : Bytes) (s t : Machine)
      → s.pauses ≡ k
      → written s bytes k ≡ (failed eintr, t)
      → t.pauses < s.pauses
  written-interrupted (suc k) bytes s t e h =
      let fewer : k ≡ t.pauses = cc in omega (arith, e, fewer)
  written-interrupted zero [] s t e h = cc
  written-interrupted zero (c ∷ bytes) s t e h = cc

  machine-Writes : Writes machine_view (machine dirs) dir
  machine-Writes = record {
    created = λ d fd mode name s t _ h. created_lem name s (s.files name) fd t refl h;
    not_created = λ d mode errno name s t _ h.
        let same = not_created_lem name s (s.files name) errno t h in
        ((λ other. ap (λ (m : Machine). m.files other) (sym same)), tt);
    wrote = λ d fd c n name contents s t _ here h.
        written_lem c n s.pauses name contents s t here refl h;
    not_wrote = λ d fd errno name contents s t _ here h.
        not_written_lem errno s.pauses name contents s t here h;
    interrupted = λ fd contents s t h. written-interrupted s.pauses contents s t refl h;
  }

  moved_lem :
      (old new : Bytes) (s t : Machine) (o : Option Bytes)
      → s.files old ≡ o
      → old ≢ new
      → moved old new s o ≡ (returned tt, t)
      → (t.files new ≡ s.files old)
        × (t.files old ≡ none)
        × ((other : Bytes) → other ≢ old → other ≢ new → t.files other ≡ s.files other)
        × Unit {0}
  moved_lem old new s t none e ne h = cc
  moved_lem old new s t (some contents) e ne h =
      let put = update new (some contents) s.files in
      let same : record s { files = update old none put } ≡ t = cc in
      rw (← same) (
        update_other old new none put (λ h. ne (sym h))
            ∙ update_self new (some contents) s.files
            ∙ sym e,
        update_self old none put,
        (λ other away far.
            update_other old other none put away
            ∙ update_other new other (some contents) s.files far),
        tt,
      )

  not_moved_lem :
      (old new : Bytes) (errno : ℕ) (s t : Machine) (o : Option Bytes)
      → moved old new s o ≡ (failed errno, t)
      → s ≡ t
  not_moved_lem old new errno s t none h = cc
  not_moved_lem old new errno s t (some contents) h = cc

  dropped_lem :
      (name : Bytes) (s t : Machine) (o : Option Bytes)
      → dropped name s o ≡ (returned tt, t)
      → (t.files name ≡ none) × KeptBut machine_view name s t × Unit {0}
  dropped_lem name s t none h = cc
  dropped_lem name s t (some contents) h =
      let same : record s { files = update name none s.files } ≡ t = cc in
      rw (← same)
        (update_self name none s.files, (λ other ne. update_other name other none s.files ne), tt)

  not_dropped_lem :
      (name : Bytes) (errno : ℕ) (s t : Machine) (o : Option Bytes)
      → s.files name ≡ o
      → dropped name s o ≡ (failed errno, t)
      → (s ≡ t) × (s.files name ≡ none)
  not_dropped_lem name errno s t none e h = (cc, e)
  not_dropped_lem name errno s t (some contents) e h = cc

  machine-Links : Links machine_view (machine dirs) dir
  machine-Links = record {
    renamed = λ d old new s t _ ne h. moved_lem old new s t (s.files old) refl ne h;
    not_renamed = λ d errno old new s t _ h.
        let same = not_moved_lem old new errno s t (s.files old) h in
        ((λ other. ap (λ (m : Machine). m.files other) (sym same)), tt);
    unlinked = λ d name s t _ h. dropped_lem name s t (s.files name) h;
    not_unlinked = λ d errno name s t _ h.
        let (same, absent) = not_dropped_lem name errno s t (s.files name) refl h in
        ((λ other. ap (λ (m : Machine). m.files other) (sym same)), tt, (λ _. absent));
  }

  absent_lem :
      (some_dirs : List Bytes) (path : Bytes) (s t : Machine) (o : Option Bytes)
      → s.files (filename path) ≡ o
      → look some_dirs path s ≡ (failed enoent, t)
      → s.files (filename path) ≡ none
  absent_lem [] path s t none e h = e
  absent_lem [] path s t (some contents) e h = cc (ap (looked s) e)
  absent_lem (d ∷ some_dirs) path s t o e h = elim (Bool-cases (equal path d)) [
    | inl same ↦ cc (rw same at h)
    | inr away ↦ absent_lem some_dirs path s t o e (rw away at h)
  ]

  opened_lem :
      (path : Bytes) (fd : ℕ) (s t : Machine) (o : Option Bytes)
      → s.files (filename path) ≡ o
      → opened s o ≡ (returned fd, t)
      → (contents : Bytes) × (s.files (filename path) ≡ some contents) × (t.reading ≡ contents)
  opened_lem path fd s t none e h = cc
  opened_lem path fd s t (some contents) e h =
      let same : record s { reading = contents } ≡ t = cc in
      (contents, e, ap (λ (m : Machine). m.reading) (sym same))

  length-take : (n : ℕ) (bytes : Bytes) → length (take n bytes) ≤ n
  length-take zero bytes = omega arith
  length-take (suc n) [] = omega arith
  length-take (suc n) (c ∷ bytes) = omega (arith, length-take n bytes)

  taken_lem :
      (n k : ℕ) (left bytes : Bytes) (s t : Machine)
      → s.reading ≡ left
      → s.pauses ≡ k
      → taken (suc n) s k ≡ (returned bytes, t)
      → (rest : Bytes) × (left ≡ bytes ++ rest)
        × (length bytes ≤ suc n)
        × (t.pauses ≤ s.pauses)
        × (t.reading ≡ rest)
  taken_lem n (suc k) left bytes s t here e h = cc
  taken_lem n zero left bytes s t here e h =
      let got : take (suc n) s.reading ≡ bytes = cc in
      let same : record s { reading = drop (suc n) s.reading } ≡ t = cc in
      rw (← got, ← same, ← here)
        (
          drop (suc n) s.reading,
          sym (take-append-drop (suc n) s.reading),
          length-take (suc n) s.reading,
          omega arith,
          refl,
        )

  taken-interrupted :
      (n k : ℕ) (left : Bytes) (s t : Machine)
      → s.reading ≡ left
      → s.pauses ≡ k
      → taken n s k ≡ (failed eintr, t)
      → (t.reading ≡ left) × (t.pauses < s.pauses)
  taken-interrupted n zero left s t here e h = cc
  taken-interrupted n (suc k) left s t here e h =
      let fewer : k ≡ t.pauses = cc in
      let same : record s { pauses = k } ≡ t = cc in
      (ap (λ (m : Machine). m.reading) (sym same) ∙ here, omega (arith, e, fewer))

  machine-Reading : Reading machine_view (machine dirs) dir
  machine-Reading = record {
    absent = λ path s t _ h. absent_lem dirs path s t (s.files (filename path)) refl h;
    opened = λ path fd s t _ h. opened_lem path fd s t (s.files (filename path)) refl h;
    sized = λ fd contents st s t here h.
        let look : stat_of regular_file (length s.reading) ≡ st = cc in
        let same : s ≡ t = cc in
        (
          (λ _. sym (ap (λ (q : Stat). q.size) look) ∙ ap (λ r. pos (length r)) here),
          ap (λ (m : Machine). m.reading) (sym same) ∙ here,
        );
    read = λ fd n left bytes s t here h. taken_lem n s.pauses left bytes s t here refl h;
    interrupted = λ fd n left s t here h. taken-interrupted n s.pauses left s t here refl h;
  }

  pub machine-Disk : Disk machine_view (machine dirs) dir
  machine-Disk = record {
    looks = machine-Looks;
    opens = machine-Opens;
    writes = machine-Writes;
    links = machine-Links;
    reading = machine-Reading;
  }
