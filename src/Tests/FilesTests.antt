-- ===== src/Tests/FilesTests.antt =====
-- A file that takes a byte at a time, and interrupts some writes.
use pod_installer.Base.{
  ℕ, zero, suc, ◌≤◌, ◌<◌, [], ◌∷◌, ◌++◌, ◌≡◌, refl, arith, Bytes, text, length, take,
}
use pod_installer.Error.{ok}
use pod_installer.System.{Outcome, returned, failed, eintr, Files}
use pod_installer.Quadlet.Files.{write_all}
use pod_installer.Quadlet.Files.WriteAll.{WritesAtEnd, Written, write_all-Written}
use pod_installer.Target.{filename, parent_path, same_path}
use pod_installer.Base.{true, equal}

-- what the file holds, and the interruptions to come
abbrev Disk : Type 0
Disk = Bytes × ℕ

abbrev write_byte : ℕ → Bytes → Disk → Outcome ℕ × Disk
write_byte fd bytes (held, suc n) = (failed eintr, (held, n))
write_byte fd bytes (held, zero) = (returned 1, (held ++ take 1 bytes, zero))

abbrev disk : Files Disk
disk = record {
  create_directories = λ path s. (returned tt, s);
  lstat = λ path s. (failed 2, s);
  fstat = λ fd s. (failed 9, s);
  chmod = λ path mode s. (returned tt, s);
  open_directory = λ path s. (returned 3, s);
  open_no_follow = λ path s. (returned 4, s);
  create_exclusive = λ dir_fd name mode s. (returned 5, s);
  write = write_byte;
  read = λ fd n s. (returned [], s);
  fsync = λ fd s. (returned tt, s);
  renameat = λ dir_fd old new s. (returned tt, s);
  unlinkat = λ dir_fd name s. (returned tt, s);
  close = λ fd s. s;
  getpid = λ s. 1;
  strerror = λ errno. [];
  interruptions = λ s. s.1;
}

abbrev held : Disk → Bytes
held s = s.0

-- nothing else has to be known of this machine
abbrev Anyhow : Disk → Type 0
Anyhow s = Unit {0}

progress :
    (c : ℕ) (contents : Bytes) (s t : Disk) (n : ℕ)
    → write_byte 5 (c ∷ contents) s ≡ (returned n, t)
    → Unit {0}
      × (1 ≤ n)
      × (n ≤ length (c ∷ contents))
      × (t.0 ≡ s.0 ++ take n (c ∷ contents))
      × (t.1 ≤ s.1)
progress c contents (before, suc m) t n h = cc
progress c contents (before, zero) (after, k) n h =
    let e : ◌≡◌ {A = ℕ} 1 n = cc in
    let d : before ++ c ∷ [] ≡ after = cc in
    let z : 0 ≡ k = cc in (tt, omega (arith, e), omega (arith, e), rw (← e) (cc), omega (arith, z))

interrupted :
    (contents : Bytes) (s t : Disk)
    → write_byte 5 contents s ≡ (failed eintr, t)
    → (t.0 ≡ s.0) × (t.1 < s.1)
interrupted contents (before, suc m) (after, k) h = let e : m ≡ k = cc in (cc, omega (arith, e))
interrupted contents (before, zero) t h = cc

disk-WritesAtEnd : WritesAtEnd disk 5 held Anyhow
disk-WritesAtEnd = record {
  progress = λ c contents s t n _ h. progress c contents s t n h;
  interrupted = λ contents s t _ h. interrupted contents s t h;
  stopped = λ contents s t errno _ h. tt;
}

sample_paths :
    (filename (text "/etc/users/1000/web.container") ≡ text "web.container")
    × (parent_path (text "/etc/users//web.container") ≡ text "/etc/users")
    × (parent_path (text "/web.container") ≡ text "/")
    × (same_path (text "/a//b") (text "/a/b") ≡ true)
unfolding filename parent_path same_path text equal
sample_paths = (refl, refl, refl, refl)

two_bytes : write_all disk 5 (text "hi") (text "> ", 2) ≡ (ok tt, (text "> hi", 0))
unfolding write_all text
two_bytes = refl

write_all-Written_example :
    Written disk 5 held Anyhow
      (text "hi")
      (text "> ", 2)
      (write_all disk 5 (text "hi") (text "> ", 2))
write_all-Written_example =
    write_all-Written disk 5 held Anyhow (text "hi") (text "> ", 2) disk-WritesAtEnd tt
