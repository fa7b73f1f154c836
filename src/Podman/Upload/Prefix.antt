-- ===== src/Podman/Upload/Prefix.antt =====
-- What libcurl is given of an archive: a prefix of it, whatever it asks for and how often.
use pod_installer.Base.{
  ℕ, zero, suc, ◌+◌, ◌≤◌, ◌||◌, ◌==◌, leb, List, [], ◌∷◌, ◌++◌, ◌≡◌, refl, sym, ap, ◌∙◌, arith,
  Bytes, length, take, drop, take-add, drop-add, length-append, Bool-cases, inl, inr,
}
use pod_installer.System.{Outcome, returned, failed, eintr}
use pod_installer.Podman.Upload.{
  FdUpload, Delivered, delivered, aborted, to_read, requested_of, upload_round, upload_loop,
  read_fd_upload,
}

module _ {S : Type 0} (interruptions : S → ℕ) (pread : ℕ → ℕ → ℕ → S → Outcome Bytes × S) where
  -- behind a call: an abort ends the transfer
  abbrev pub sent :
      (FdUpload → S → Bytes × FdUpload × S) → Delivered × FdUpload × S → Bytes × FdUpload × S
  sent again (delivered bytes, upload, s) =
      let (rest, after, t) = again upload s in (bytes ++ rest, after, t)
  sent again (aborted, upload, s) = ([], upload, s)

  -- what a row of calls puts into the buffers, each with its `size` and its `nitems`
  unfoldable pub send : List (ℕ × ℕ) → FdUpload → S → Bytes × FdUpload × S
  send [] upload s = ([], upload, s)
  send ((size, nitems) ∷ calls) upload s =
      sent (send calls) (read_fd_upload interruptions pread size nitems upload s)

  module _ (fd : ℕ) (content : Bytes)
      (reads : (n offset : ℕ) (bytes : Bytes) (s t : S)
        → pread fd n offset s ≡ (returned bytes, t)
        → (bytes ≡ take (length bytes) (drop offset content)) × (length bytes ≤ n)) where
    -- from one position to the next, these bytes lie between
    record Moves (upload : FdUpload) (bytes : Bytes) (after : FdUpload) : Type 0 where
      same_fd : after.fd ≡ fd
      same_size : after.size ≡ upload.size
      moved : after.offset ≡ upload.offset + length bytes
      within : after.offset ≤ upload.size
      piece : bytes ≡ take (length bytes) (drop upload.offset content)

    abbrev Delivers : FdUpload → Delivered × FdUpload × S → Type 0
    Delivers upload (delivered bytes, after, t) = Moves upload bytes after
    Delivers upload (aborted, after, t) = Moves upload [] after

    stays :
        (upload : FdUpload) → upload.fd ≡ fd → upload.offset ≤ upload.size → Moves upload [] upload
    stays upload same less = record {
      same_fd = same;
      same_size = refl;
      moved = omega arith;
      within = less;
      piece = refl;
    }

    upload_round-Delivers :
        (again : S → Delivered × FdUpload × S) (n : ℕ) (upload : FdUpload) (s : S)
        (o : Outcome Bytes × S)
        → pread fd n upload.offset s ≡ o
        → upload.fd ≡ fd
        → upload.offset + n ≤ upload.size
        → ((t : S) → Delivers upload (again t))
        → Delivers upload (upload_round interruptions pread again upload o)
    upload_round-Delivers again n upload s (returned bytes, t) h same less next =
        let (piece, short) = reads n upload.offset bytes s t h in
        record {
          same_fd = same;
          same_size = refl;
          moved = refl;
          within = omega arith;
          piece = piece;
        }
    upload_round-Delivers again n upload s (failed errno, t) h same less next =
        elim (Bool-cases (errno == eintr)) [
          | inl here ↦ rw here (next t)
          | inr other ↦ rw other (stays upload same (omega arith))
        ]

    upload_loop-Delivers :
        (fuel n : ℕ) (upload : FdUpload) (s : S)
        → upload.fd ≡ fd
        → upload.offset + n ≤ upload.size
        → Delivers upload (upload_loop interruptions pread fuel n upload s)
    unfolding upload_loop
    upload_loop-Delivers zero n upload s same less = stays upload same (omega arith)
    upload_loop-Delivers (suc fuel) n upload s same less =
        upload_round-Delivers (upload_loop interruptions pread fuel n upload) n upload s
          (pread upload.fd n upload.offset s) (ap (λ d. pread d n upload.offset s) (sym same)) same
          less (λ t. upload_loop-Delivers fuel n upload t same less)

    read_fd_upload-Delivers :
        (size nitems : ℕ) (upload : FdUpload) (s : S)
        → upload.fd ≡ fd
        → upload.offset ≤ upload.size
        → Delivers upload (read_fd_upload interruptions pread size nitems upload s)
    unfolding read_fd_upload
    read_fd_upload-Delivers size nitems upload s same less =
        elim (Bool-cases (requested_of size nitems == 0 || leb upload.size upload.offset)) [
          | inl nothing ↦ rw nothing (stays upload same less)
          | inr some_left ↦ rw some_left (
              upload_loop-Delivers (suc (interruptions s))
                (to_read (requested_of size nitems) upload) upload s same (ground arith))
        ]

    joined_lem :
        (upload next after : FdUpload) (bytes rest : Bytes)
        → Moves upload bytes next
        → Moves next rest after
        → Moves upload (bytes ++ rest) after
    joined_lem upload next after bytes rest h k =
        let m = length bytes in
        let n = length rest in
        let total : length (bytes ++ rest) ≡ m + n = length-append bytes rest in
        record {
          same_fd = k.same_fd;
          same_size = k.same_size ∙ h.same_size;
          moved = let a = h.moved in let b = k.moved in omega arith;
          within = let a = k.within in let b = h.same_size in omega arith;
          piece =
              ap (λ l. l ++ rest) h.piece
              ∙ ap (λ r. take m (drop upload.offset content) ++ r)
                  (k.piece
                    ∙ ap (λ o. take n (drop o content)) h.moved
                    ∙ ap (take n) (sym (drop-add upload.offset m content)))
              ∙ take-add m n (drop upload.offset content)
              ∙ ap (λ l. take l (drop upload.offset content)) (sym total);
        }

    sent-Moves :
        (again : FdUpload → S → Bytes × FdUpload × S) (upload : FdUpload)
        (o : Delivered × FdUpload × S)
        → Delivers upload o
        → ((next : FdUpload) (t : S)
            → next.fd ≡ fd
            → next.offset ≤ next.size
            → Moves next (again next t).0 (again next t).1)
        → Moves upload (sent again o).0 (sent again o).1
    sent-Moves again upload (delivered bytes, next, t) h later =
        joined_lem upload next _ bytes _ h
          (later next t h.same_fd (let a = h.within in let b = h.same_size in omega arith))
    sent-Moves again upload (aborted, next, t) h later = h

    send_lem :
        (calls : List (ℕ × ℕ)) (upload : FdUpload) (s : S)
        → upload.fd ≡ fd
        → upload.offset ≤ upload.size
        → Moves upload (send calls upload s).0 (send calls upload s).1
    unfolding send
    send_lem [] upload s same less = stays upload same less
    send_lem ((size, nitems) ∷ calls) upload s same less =
        sent-Moves (send calls) upload (read_fd_upload interruptions pread size nitems upload s)
          (read_fd_upload-Delivers size nitems upload s same less)
          (λ next t h l. send_lem calls next t h l)

    -- Where `pread` gives at most what is asked for of the file from the offset on, all that any row
    -- of calls of `read_fd_upload` hands out is a prefix of the file, no longer than the size.
    pub send-take :
        (size : ℕ) (calls : List (ℕ × ℕ)) (s : S)
        → ((send calls (record { fd = fd; offset = 0; size = size }) s).0
            ≡ take (length (send calls (record { fd = fd; offset = 0; size = size }) s).0) content)
          × (length (send calls (record { fd = fd; offset = 0; size = size }) s).0 ≤ size)
    send-take size calls s =
        let moves =
          send_lem calls (record { fd = fd; offset = 0; size = size }) s refl (omega arith) in
        let bound = moves.within in let far = moves.moved in (moves.piece, omega arith)
