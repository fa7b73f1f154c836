-- ===== src/SocketValidation/Accepted.antt =====
-- Which sockets are accepted.
use pod_installer.Base.{
  Bool, true, false, not, ◌&&◌, ◌==◌, List, [], ◌∷◌, ◌≡◌, ◌≢◌, ◌↔◌, inl, inr, refl, ap, ◌∙◌, arith,
  Bytes, equal_iff, is_empty, Bool-cases,
}
use pod_installer.Error.{ok}
use pod_installer.World.{◌>>◌, >>=-eq-ok}
use pod_installer.System.{
  attempt-eq-ok, returned, FileKind, symbolic_link, socket_file, Stat, Files,
}
use pod_installer.Target.{PodmanTarget, podman_socket_for}
use pod_installer.SocketValidation.{
  SocketValidationOptions, normalized, same_elements, is_link, is_socket, check_path, lstat_failure,
  look_at, check_file, validate_podman_socket,
}

same_elements_iff : (a b : List Bytes) → (same_elements a b ≡ true) ↔ (a ≡ b)
same_elements_iff [] [] = ((λ _. refl), (λ _. refl))
same_elements_iff [] (y ∷ b) = ((λ h. cc), (λ h. cc))
same_elements_iff (x ∷ a) [] = ((λ h. cc), (λ h. cc))
same_elements_iff (x ∷ a) (y ∷ b) =
    let (forth, back) = same_elements_iff a b in
    let (same, only) = equal_iff x y in
    (
      (λ h. let e : x ≡ y = same (ground arith) in let f = forth (ground arith) in cc),
      (λ h. let e = only (cc) in let f = back (cc) in rw (e, f)),
    )

-- The path is the one of the user, if it must be, and the file there is as it must be.
pub record IsPodmanSocket (target : PodmanTarget) (options : SocketValidationOptions) (st : Stat)
    : Type 0 where
  pub given : target.socket_path ≢ []
  pub default_path :
      options.require_default_path ≡ true
      → normalized target.socket_path ≡ normalized (podman_socket_for options.layout target.uid)
  pub no_link : options.reject_symlink ≡ true → st.kind ≢ symbolic_link
  pub socket : options.require_socket ≡ true → st.kind ≡ socket_file
  pub owner : options.require_owner ≡ true → st.uid ≡ target.uid

module _ {S : Type 0} (os : Files S) (target : PodmanTarget)
    (options : SocketValidationOptions) where
  abbrev other_path : Bool
  other_path =
      options.require_default_path
      && not (
          same_elements (normalized target.socket_path)
            (normalized (podman_socket_for options.layout target.uid)))

  check_path_iff :
      (s t : S)
      → (check_path os target options s ≡ (ok tt, t))
        ↔ ((is_empty target.socket_path ≡ false) × (other_path ≡ false) × (s ≡ t))
  check_path_iff s t = elim (Bool-cases (is_empty target.socket_path)) [
    | inl none ↦ ((λ h. cc (rw none at h)), (λ (given, _, _). cc))
    | inr given ↦ elim (Bool-cases other_path) [
      | inl other ↦ ((λ h. cc (rw (given, other) at h)), (λ (_, same, _). cc))
      | inr same ↦
          ((λ h. (given, same, cc (rw (given, same) at h))), (λ (_, _, e). rw (given, same) (cc)))
    ]
  ]

  abbrev bad_link : Stat → Bool
  bad_link st = options.reject_symlink && is_link st.kind

  abbrev no_socket : Stat → Bool
  no_socket st = options.require_socket && not (is_socket st.kind)

  abbrev other_owner : Stat → Bool
  other_owner st = options.require_owner && not (st.uid == target.uid)

  check_file_iff :
      (st : Stat) (s t : S)
      → (check_file os target options st s ≡ (ok tt, t))
        ↔ ((bad_link st ≡ false) × (no_socket st ≡ false) × (other_owner st ≡ false) × (s ≡ t))
  check_file_iff st s t = elim (Bool-cases (bad_link st)) [
    | inl link ↦ ((λ h. cc (rw link at h)), (λ (real, _, _, _). cc))
    | inr real ↦ elim (Bool-cases (no_socket st)) [
      | inl none ↦ ((λ h. cc (rw (real, none) at h)), (λ (_, socket, _, _). cc))
      | inr socket ↦ elim (Bool-cases (other_owner st)) [
        | inl other ↦ ((λ h. cc (rw (real, socket, other) at h)), (λ (_, _, own, _). cc))
        | inr own ↦ (
          (λ h. (real, socket, own, cc (rw (real, socket, own) at h))),
          (λ (_, _, _, e). rw (real, socket, own) (cc)),
        )
      ]
    ]
  ]

  -- the three tests of the file, and what they are for
  file_iff :
      (st : Stat)
      → is_empty target.socket_path ≡ false
      → other_path ≡ false
      → bad_link st ≡ false
      → no_socket st ≡ false
      → other_owner st ≡ false
      → IsPodmanSocket target options st
  file_iff st given same real socket own = record {
    given = λ e. given_lem target.socket_path given e;
    default_path = λ required. (same_elements_iff _ _).0 (ground arith);
    no_link = λ required e.
        let not_link : is_link st.kind ≡ false = ground arith in cc (rw e at not_link);
    socket = λ required. let is : is_socket st.kind ≡ true = ground arith in kind_lem st.kind is;
    owner = λ required. ground arith;
  }
    where
      given_lem : (path : Bytes) → is_empty path ≡ false → path ≢ []
      given_lem [] h e = cc
      given_lem (c ∷ path) h e = cc

      kind_lem : (kind : FileKind) → is_socket kind ≡ true → kind ≡ socket_file
      kind_lem socket_file h = refl
      kind_lem FileKind.regular_file h = cc
      kind_lem FileKind.real_directory h = cc
      kind_lem FileKind.symbolic_link h = cc
      kind_lem FileKind.other_file h = cc

  passes :
      (st : Stat)
      → IsPodmanSocket target options st
      → (is_empty target.socket_path ≡ false)
        × (other_path ≡ false)
        × (bad_link st ≡ false)
        × (no_socket st ≡ false)
        × (other_owner st ≡ false)
  passes st good = (
    filled target.socket_path good.given,
    off options.require_default_path _ (λ h. rw ((same_elements_iff _ _).1 (good.default_path h))),
    off options.reject_symlink (is_link st.kind) (λ h. no_link st.kind (good.no_link h)),
    off options.require_socket _ (λ h. rw (good.socket h)),
    off options.require_owner _ (λ h. let same = good.owner h in ground arith),
  )
    where
      filled : (path : Bytes) → path ≢ [] → is_empty path ≡ false
      filled [] h = absurd (h refl)
      filled (c ∷ path) h = refl

      off :
          (required wrong : Bool) → (required ≡ true → wrong ≡ false) → (required && wrong) ≡ false
      off true wrong h = h refl
      off false wrong h = refl

      no_link : (kind : FileKind) → kind ≢ symbolic_link → is_link kind ≡ false
      no_link symbolic_link h = absurd (h refl)
      no_link FileKind.regular_file h = refl
      no_link FileKind.real_directory h = refl
      no_link socket_file h = refl
      no_link FileKind.other_file h = refl

  -- A socket is accepted exactly where its path is given, is in normal form the one of the user if
  -- this is required, and `lstat` shows a file there that is, as far as each is required, no link,
  -- a socket, and owned by the user.
  pub validate_podman_socket-IsPodmanSocket :
      (s t : S)
      → (validate_podman_socket os target options s ≡ (ok tt, t)) ↔ (
          (st : Stat) × (os.lstat target.socket_path s ≡ (returned st, t))
          × IsPodmanSocket target options st)
  unfolding validate_podman_socket
  validate_podman_socket-IsPodmanSocket s t = (
    (λ h.
        let (st, u, seen, judged) =
          >>=-eq-ok (check_path os target options >> look_at os target options)
            (check_file os target options) s h in
        let (_, v, checked, looked) =
          >>=-eq-ok (check_path os target options) (λ _. look_at os target options) s seen in
        let found =
          attempt-eq-ok (lstat_failure os target options) (os.lstat target.socket_path) v looked in
        let (given, same, e) = (check_path_iff s v).0 checked in
        let (real, socket, own, f) = (check_file_iff st u t).0 judged in
        (st, rw e (found ∙ ap (λ w. (returned st, w)) f), file_iff st given same real socket own)),
    (λ (st, found, good).
        let (given, same, real, socket, own) = passes st good in
        rw ((check_path_iff s s).1 (given, same, refl), found)
          ((check_file_iff st t t).1 (real, socket, own, refl))),
  )
