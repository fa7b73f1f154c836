-- ===== src/Podman/Upload/Ended.antt =====
-- `read_fd_upload` returns: its loop is left by a read, or by an error that is no interruption.
use pod_installer.Base.{
  ℕ, zero, suc, ◌<◌, ◌||◌, ◌==◌, leb, ◌≡◌, ◌≢◌, refl, ap, ◌∙◌, arith, Bytes, Bool-cases, inl, inr,
}
use pod_installer.System.{Outcome, returned, failed, eintr}
use pod_installer.Podman.Upload.{
  FdUpload, Delivered, delivered, aborted, to_read, requested_of, upload_round, upload_loop,
  read_fd_upload,
}

module _ {S : Type 0} (interruptions : S → ℕ) (pread : ℕ → ℕ → ℕ → S → Outcome Bytes × S)
    (interrupted : (fd n offset : ℕ) (s t : S)
      → pread fd n offset s ≡ (failed eintr, t)
      → interruptions t < interruptions s) where
  -- an abort is behind a read that failed, and not for an interruption
  abbrev pub Ended : ℕ → FdUpload → Delivered × FdUpload × S → Type 0
  Ended n upload (delivered bytes, after, t) = Unit
  Ended n upload (aborted, after, t) =
      (errno : ℕ) × (errno ≢ eintr)
      × ((s : S) × (pread upload.fd n upload.offset s ≡ (failed errno, t)))

  upload_round-Ended :
      (fuel n : ℕ) (upload : FdUpload) (s : S) (o : Outcome Bytes × S)
      → pread upload.fd n upload.offset s ≡ o
      → interruptions s < suc fuel
      → ((t : S)
          → interruptions t < fuel
          → Ended n upload (upload_loop interruptions pread fuel n upload t))
      → Ended n upload (
          upload_round interruptions pread (upload_loop interruptions pread fuel n upload) upload o)
  upload_round-Ended fuel n upload s (returned bytes, t) h less again = tt
  upload_round-Ended fuel n upload s (failed errno, t) h less again =
      elim (Bool-cases (errno == eintr)) [
        | inl here ↦
            let same : errno ≡ eintr = ground arith in
            let fewer =
              interrupted upload.fd n upload.offset s t (h ∙ ap (λ e. (failed e, t)) same) in
            rw here (again t (omega arith))
        | inr other ↦ rw other (errno, (λ e. ground arith), (s, h))
      ]

  upload_loop-Ended :
      (fuel n : ℕ) (upload : FdUpload) (s : S)
      → interruptions s < fuel
      → Ended n upload (upload_loop interruptions pread fuel n upload s)
  unfolding upload_loop
  upload_loop-Ended zero n upload s less = absurd (omega arith)
  upload_loop-Ended (suc fuel) n upload s less =
      upload_round-Ended fuel n upload s (pread upload.fd n upload.offset s) refl less
        (upload_loop-Ended fuel n upload)

  -- Where each interruption is one fewer to come, `read_fd_upload` aborts only behind a read that
  -- failed for another reason.
  pub read_fd_upload-Ended :
      (size nitems : ℕ) (upload : FdUpload) (s : S)
      → Ended
          (to_read (requested_of size nitems) upload)
          upload
          (read_fd_upload interruptions pread size nitems upload s)
  unfolding read_fd_upload
  read_fd_upload-Ended size nitems upload s =
      elim (Bool-cases (requested_of size nitems == 0 || leb upload.size upload.offset)) [
        | inl nothing ↦ rw nothing tt
        | inr some_left ↦ rw some_left (
            upload_loop-Ended (suc (interruptions s)) (to_read (requested_of size nitems) upload)
              upload s (omega arith))
      ]
