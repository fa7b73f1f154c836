-- ===== src/Podman/Upload.antt =====
-- The upload of an image, of src/podman_client.cpp: `read_fd_upload`, which libcurl calls for what
-- it sends, and `load_image_archive`, which hands it the file.
pub mod Prefix
pub mod Ended
use pod_installer.Base.{
  ℕ, zero, suc, ◌+◌, ◌-◌, ◌*◌, ◌%◌, Bool, true, false, not, ◌||◌, ◌==◌, leb, ltb, List, [], ◌∷◌,
  ◌++◌, Option, some, Bytes, text, length, if◌then◌else◌,
}
use pod_installer.Base.Int.{ℤ, pos, negsuc}
use pod_installer.Error.{
  Error, Result, ok, err, filesystem, invalid_argument, transport, fail, reject_if,
}
use pod_installer.World.{Action, give, finally, ◌>>=◌, ◌>>◌}
use pod_installer.System.{Outcome, returned, failed, eintr, Stat, Files, attempt}
use pod_installer.Quadlet.Files.{refuse, is_regular, on_path, unnamed}
use pod_installer.Http.{HttpResponse}
use pod_installer.Target.{PodmanTarget}
use pod_installer.Podman.{
  ClientOptions, Performed, c_str, finish_perform, require_success, versioned_path,
}

pub record FdUpload : Type 0 where
  pub fd : ℕ
  pub offset : ℕ
  pub size : ℕ

-- what a call of `read_fd_upload` leaves in the buffer, or `CURL_READFUNC_ABORT`
pub data Delivered : Type 0 where
  delivered : Bytes → Delivered
  aborted : Delivered

-- `std::numeric_limits<ssize_t>::max()`, which is that of `curl_off_t` too
abbrev pub signed_max : ℕ
signed_max = 9223372036854775807

abbrev pub smaller : ℕ → ℕ → ℕ
smaller a b = if ltb b a then b else a

-- `std::min<uintmax_t>({requested, remaining, limit})`
abbrev pub to_read : ℕ → FdUpload → ℕ
to_read requested upload = smaller (smaller requested (upload.size - upload.offset)) signed_max

-- `size * nitems` of `size_t`
abbrev pub requested_of : ℕ → ℕ → ℕ
requested_of size nitems = size * nitems % 18446744073709551616

module _ {S : Type 0} (interruptions : S → ℕ) (pread : ℕ → ℕ → ℕ → S → Outcome Bytes × S) where
  -- behind a `pread`: `again` is the next round
  abbrev pub upload_round :
      (S → Delivered × FdUpload × S) → FdUpload → Outcome Bytes × S → Delivered × FdUpload × S
  upload_round again upload (returned bytes, s) =
      (delivered bytes, record upload { offset = upload.offset + length bytes }, s)
  upload_round again upload (failed errno, s) =
      if errno == eintr then again s else (aborted, upload, s)

  -- the loop over `pread`; out of fuel is reported as an error
  pub upload_loop : ℕ → ℕ → FdUpload → S → Delivered × FdUpload × S
  upload_loop zero n upload s = (aborted, upload, s)
  upload_loop (suc fuel) n upload s =
      upload_round (upload_loop fuel n upload) upload (pread upload.fd n upload.offset s)

  unfoldable pub read_fd_upload : ℕ → ℕ → FdUpload → S → Delivered × FdUpload × S
  unfolding upload_loop
  read_fd_upload size nitems upload s =
      let requested = requested_of size nitems in
      if requested == 0 || leb upload.size upload.offset
      then (delivered [], upload, s)
      else upload_loop (suc (interruptions s)) (to_read requested upload) upload s

-- the options that `load_image_archive_fd` sets, as the C strings that libcurl reads
pub record UploadTransfer : Type 0 where
  pub socket_path : Bytes
  pub url : Bytes
  pub timeout_ms : ℕ
  pub headers : List Bytes
  pub post_size : ℕ

-- libcurl with a body that it reads by calls of a callback, and `pread`
pub record Uploads (S : Type 0) : Type 0 where
  pub easy_init : S → Bool × S
  pub easy_upload :
      UploadTransfer
      → (ℕ → ℕ → FdUpload → S → Delivered × FdUpload × S)
      → FdUpload
      → S
      → Performed × S
  pub easy_cleanup : S → S
  pub pread : ℕ → ℕ → ℕ → S → Outcome Bytes × S

module _ {S : Type 0} (os : Files S) (curl : Uploads S) (target : PodmanTarget)
    (options : ClientOptions) where
  abbrev pub upload_transfer : ℕ → UploadTransfer
  upload_transfer archive_size = record {
    socket_path = c_str target.socket_path;
    url = c_str (options.base_url ++ versioned_path target (text "/libpod/images/load"));
    timeout_ms = options.timeout;
    headers = text "Content-Type: application/x-tar" ∷ [];
    post_size = archive_size;
  }

  abbrev pub perform_upload : ℕ → ℕ → Action S HttpResponse
  perform_upload archive_fd archive_size s =
      let (performed, t) =
        curl.easy_upload (upload_transfer archive_size) (read_fd_upload os.interruptions curl.pread)
          (record { fd = archive_fd; offset = 0; size = archive_size }) s in
      (require_success (finish_perform performed) (text "load image archive"), t)

  abbrev pub with_upload_handle : ℕ → ℕ → Bool × S → Result HttpResponse × S
  with_upload_handle archive_fd archive_size (true, s) =
      finally curl.easy_cleanup (perform_upload archive_fd archive_size) s
  with_upload_handle archive_fd archive_size (false, s) =
      (fail transport (text "curl_easy_init failed"), s)

  -- `st.st_size < 0`
  abbrev pub is_below_zero : ℤ → Bool
  is_below_zero (pos n) = false
  is_below_zero (negsuc n) = true

  -- `st.st_size < 0 || std::cmp_greater(archive_size, st.st_size)`
  abbrev pub is_invalid_size : ℕ → ℤ → Bool
  is_invalid_size archive_size (pos size) = ltb size archive_size
  is_invalid_size archive_size (negsuc n) = true

  abbrev pub check_upload : ℕ → Stat → Action S (Unit {0})
  check_upload archive_size st =
      refuse os (not (is_regular st.kind)) (text "image archive fd is not a regular file")
      >> give (
          reject_if (is_invalid_size archive_size st.size) invalid_argument
            (text "image archive fd size is invalid"))
      >> give (
          reject_if (ltb signed_max archive_size) invalid_argument
            (text "image archive is too large for curl"))

  abbrev pub stat_upload : ℕ → Action S Stat
  stat_upload archive_fd =
      attempt (unnamed os (text "failed to stat image archive fd: ")) (os.fstat archive_fd)

  unfoldable pub load_image_archive_fd : ℤ → ℕ → Action S HttpResponse
  unfolding read_fd_upload
  load_image_archive_fd (negsuc n) archive_size =
      give (fail invalid_argument (text "image archive fd is invalid"))
  load_image_archive_fd (pos archive_fd) archive_size =
      stat_upload archive_fd >>= check_upload archive_size >> λ s.
      with_upload_handle archive_fd archive_size (curl.easy_init s)

  -- `static_cast<uintmax_t>(st.st_size)`, of a size that is not negative
  abbrev pub size_of_file : ℤ → ℕ
  size_of_file (pos n) = n
  size_of_file (negsuc n) = 0

  abbrev pub load_checked : Bytes → ℕ → Stat → Action S HttpResponse
  load_checked archive_path fd st =
      refuse os (not (is_regular st.kind))
        (text "image archive is not a regular file: " ++ archive_path)
      >> refuse os (is_below_zero st.size) (text "image archive has invalid size: " ++ archive_path)
      >> load_image_archive_fd (pos fd) (size_of_file st.size)

  abbrev pub load_opened : Bytes → ℕ → Action S HttpResponse
  load_opened archive_path fd =
      attempt (on_path os (text "failed to stat image archive '") archive_path) (os.fstat fd)
      >>= load_checked archive_path fd

  unfoldable pub load_image_archive : Bytes → Action S HttpResponse
  unfolding load_image_archive_fd
  load_image_archive archive_path =
      attempt (on_path os (text "failed to open image archive '") archive_path)
        (os.open_no_follow archive_path)
      >>= λ fd. finally (os.close fd) (load_opened archive_path fd)
