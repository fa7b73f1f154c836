-- ===== src/Tests/UploadTests.antt =====
-- An upload whose reads are interrupted.
use pod_installer.Base.{
  ℕ, zero, suc, ◌≤◌, List, [], ◌∷◌, ◌≡◌, refl, ap, arith, Bytes, text, length, take, drop,
}
use pod_installer.System.{Outcome, returned, failed, eintr}
use pod_installer.Podman.Upload.{read_fd_upload}
use pod_installer.Podman.Upload.Prefix.{send, send-take}

abbrev content : Bytes
content = text "abcdefg"

-- the state is how many reads will be interrupted
abbrev pread_of : ℕ → Bytes → ℕ → Outcome Bytes × ℕ
pread_of n left zero = (returned (take n left), zero)
pread_of n left (suc s) = (failed eintr, s)

abbrev pread : ℕ → ℕ → ℕ → ℕ → Outcome Bytes × ℕ
pread fd n offset s = pread_of n (drop offset content) s

taken :
    (n : ℕ) (left : Bytes)
    → (take n left ≡ take (length (take n left)) left) × (length (take n left) ≤ n)
taken zero left = (refl, omega arith)
taken (suc n) [] = (refl, omega arith)
taken (suc n) (c ∷ left) = let (same, short) = taken n left in (ap (◌∷◌ c) same, omega arith)

reads :
    (n offset : ℕ) (bytes : Bytes) (s t : ℕ)
    → pread 3 n offset s ≡ (returned bytes, t)
    → (bytes ≡ take (length bytes) (drop offset content)) × (length bytes ≤ n)
reads n offset bytes zero t h =
    let e : take n (drop offset content) ≡ bytes = cc in rw (← e) (taken n (drop offset content))
reads n offset bytes (suc s) t h = cc

-- a call for two bytes, one for none, and one for more than there is
abbrev calls : List (ℕ × ℕ)
calls = (1, 2) ∷ (0, 5) ∷ (4, 3) ∷ []

sample_upload :
    (send (λ s. s) pread calls (record { fd = 3; offset = 0; size = 6 }) 2)
    ≡ (text "abcdef", record { fd = 3; offset = 6; size = 6 }, 0)
unfolding text read_fd_upload send
sample_upload = refl

send-take_example :
    ((send (λ s. s) pread calls (record { fd = 3; offset = 0; size = 6 }) 2).0
      ≡ take
          (length (send (λ s. s) pread calls (record { fd = 3; offset = 0; size = 6 }) 2).0)
          content)
    × (length (send (λ s. s) pread calls (record { fd = 3; offset = 0; size = 6 }) 2).0 ≤ 6)
send-take_example = send-take (λ s. s) pread 3 content reads 6 calls 2
