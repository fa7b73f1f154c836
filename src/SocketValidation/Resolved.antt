-- ===== src/SocketValidation/Resolved.antt =====
-- A target that was resolved has the path that the check of its socket asks for.
use pod_installer.Base.{
  ℕ, false, ◌||◌, [], ◌∷◌, ◌++◌, Option, none, some, ◌≡◌, ◌≢◌, ◌↔◌, refl, Bytes, text, is_empty,
  Bool-cases, inl, inr, starts_with, ends_with,
}
use pod_installer.Base.Decimal.{to_string}
use pod_installer.Error.{ok}
use pod_installer.World.{>>=-eq-ok}
use pod_installer.System.{attempt, returned, Files, socket_file, Stat}
use pod_installer.Target.{
  join, RuntimeDirectoryLayout, PodmanTarget, make_target, podman_socket_for,
}
use pod_installer.Target.Users.{
  Users, Passwd, passwd_buffer_size, target_of, uid_failure, resolve_uid,
}
use pod_installer.SocketValidation.{options_for, validate_podman_socket}
use pod_installer.SocketValidation.Accepted.{IsPodmanSocket, validate_podman_socket-IsPodmanSocket}

join-full : (a b : Bytes) → is_empty b ≡ false → is_empty (join a b) ≡ false
unfolding join
join-full a [] h = cc
join-full a (c ∷ b) h = elim (Bool-cases (starts_with (c ∷ b) (text "/"))) [
  | inl rooted ↦ rw rooted
  | inr bare ↦ elim (Bool-cases (is_empty a || ends_with a (text "/"))) [
    | inl joined ↦ rw (bare, joined) (behind a (c ∷ b) refl)
    | inr other ↦ rw (bare, other) (behind (a ++ text "/") (c ∷ b) refl)
  ]
]
  where
    behind : (a b : Bytes) → is_empty b ≡ false → is_empty (a ++ b) ≡ false
    behind [] b h = h
    behind (x ∷ a) b h = refl

full-ne : (path : Bytes) → is_empty path ≡ false → path ≢ []
full-ne [] h e = cc
full-ne (c ∷ path) h e = cc

module _ {S : Type 0} (os : Files S) (users : Users S) (layout : RuntimeDirectoryLayout)
    (api_version : Bytes) where
  -- what both look-ups return
  target_of_lem :
      (missing : Bytes) (entry : Option Passwd) (s : S) {target : PodmanTarget} {t : S}
      → target_of users layout api_version missing entry s ≡ (ok target, t)
      → (pw : Passwd) × (target ≡ make_target pw.pw_uid pw.pw_name layout api_version)
  target_of_lem missing none s h = cc
  target_of_lem missing (some pw) s h = (pw, cc)

  resolved_lem :
      (uid : ℕ) (s : S) {target : PodmanTarget} {t : S}
      → resolve_uid users layout api_version uid s ≡ (ok target, t)
      → (pw : Passwd) × (target ≡ make_target pw.pw_uid pw.pw_name layout api_version)
  unfolding resolve_uid
  resolved_lem uid s h =
      let (entry, u, _, found) =
        >>=-eq-ok
          (attempt (uid_failure users layout api_version uid)
            (users.getpwuid_r uid (passwd_buffer_size users layout api_version)))
          (target_of users layout api_version
            (text "uid " ++ to_string uid ++ text " does not exist"))
          s h in
      target_of_lem (text "uid " ++ to_string uid ++ text " does not exist") entry u found

  made_lem :
      (uid : ℕ) (name : Bytes) (st : Stat)
      → IsPodmanSocket (make_target uid name layout api_version) (options_for layout) st
        ↔ ((st.kind ≡ socket_file) × (st.uid ≡ uid))
  unfolding make_target podman_socket_for text is_empty
  made_lem uid name st = (
    (λ good. (good.socket refl, good.owner refl)),
    (λ (socket, owner). record {
      given = full-ne _ (join-full _ _ refl);
      default_path = λ _. refl;
      no_link = λ _ link. cc;
      socket = λ _. socket;
      owner = λ _. owner;
    }),
  )

  -- A target that `resolve_uid` returned is accepted as `deploy` checks it exactly where `lstat`
  -- shows a socket of its user at the path that the layout has for them.
  pub resolve_uid-validate_podman_socket :
      (uid : ℕ) (target : PodmanTarget) (s t u v : S)
      → resolve_uid users layout api_version uid s ≡ (ok target, t)
      → (validate_podman_socket os target (options_for layout) u ≡ (ok tt, v)) ↔ (
          (st : Stat) × (os.lstat (podman_socket_for layout target.uid) u ≡ (returned st, v))
          × (st.kind ≡ socket_file)
          × (st.uid ≡ target.uid))
  unfolding make_target
  resolve_uid-validate_podman_socket uid target s t u v h =
      let (pw, same) = resolved_lem uid s h in
      let made = make_target pw.pw_uid pw.pw_name layout api_version in
      let (forth, back) = validate_podman_socket-IsPodmanSocket os made (options_for layout) u v in
      rw same (
        (λ accepted.
            let (st, seen, good) = forth accepted in
            let (socket, owner) = (made_lem pw.pw_uid pw.pw_name st).0 good in
            (st, seen, socket, owner)),
        (λ (st, seen, socket, owner).
            back (st, seen, (made_lem pw.pw_uid pw.pw_name st).1 (socket, owner))),
      )
