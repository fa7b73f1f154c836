-- ===== src/Quadlet/Policy/Promise.antt =====
-- What the policy keeps out of an accepted file, line by line.
use mathlib.Core.Bool.{false≢true}
use pod_installer.Base.{
  Bool, true, false, List, [], ◌∷◌, ◌≡◌, ◌≢◌, inl, inr, sym, ◌∙◌, Bytes, text, equal_iff, All,
  to_lower,
}
use pod_installer.Error.{ok}
use pod_installer.Quadlet.Strings.{trim, lower_ascii, equals_key}
use pod_installer.Quadlet.QuadletPolicy.{QuadletFile, QuadletPolicy}
use pod_installer.Quadlet.Parsed.{values}
use pod_installer.Quadlet.Parser.Lines.{lines}
use pod_installer.Quadlet.Parser.Meaning.{given, values-parse_quadlet}
use pod_installer.Quadlet.Keys.{dangerous_service_key}
use pod_installer.Quadlet.Keys.Allowed.{
  values-dangerous_service_key, validate_allowed_keys-AllowedSection,
}
use pod_installer.Quadlet.HostPath.{host_path_volume}
use pod_installer.Quadlet.HostPath.Named.{IsPlainName, volume_source, host_path_volume-IsPlainName}
use pod_installer.Quadlet.Policy.{validate_quadlet_policy}
use pod_installer.Quadlet.Policy.Loops.{Allows}
use pod_installer.Quadlet.Policy.Conforms.{Conforms, validate_quadlet_policy-Conforms}

-- the values that the lines of a file give to a key of its container
abbrev pub container_lines : QuadletFile → Bytes → List Bytes
container_lines file key = given (text "Container") key [] (lines file.contents)

-- No line of an accepted file, below any header, sets a key for which
-- `dangerous_service_key` holds, such as `ExecStart` or `User`.
pub given-dangerous_service_key :
    (file : QuadletFile) (rules : QuadletPolicy) (section key : Bytes)
    → validate_quadlet_policy file rules ≡ ok tt
    → dangerous_service_key key ≡ true
    → given section key [] (lines file.contents) ≡ []
given-dangerous_service_key file rules section key h dangerous =
    let c = (validate_quadlet_policy-Conforms file rules).0 h in
    sym (values-parse_quadlet file.contents c.parsed section key c.parses)
    ∙ values-dangerous_service_key c.parsed section key
        ((validate_allowed_keys-AllowedSection c.parsed).1 c.structured.keys) dangerous

All-map {ℓ κ} :
    {A : Type ℓ} (P Q : A → Type κ) → ((a : A) → P a → Q a) → (xs : List A) → All P xs → All Q xs
All-map P Q f [] h = tt
All-map P Q f (x ∷ xs) (hx, h) = (f x hx, All-map P Q f xs h)

denied-All :
    (allowed : Bool) (P : Bytes → Type 0) (vs : List Bytes)
    → allowed ≡ false
    → Allows allowed (All P vs)
    → All P vs
denied-All allowed P vs denied (inl e) = cc
denied-All allowed P vs denied (inr h) = h

module _ (file : QuadletFile) (rules : QuadletPolicy)
    (accepted : validate_quadlet_policy file rules ≡ ok tt) where
  -- the accepted file, as what it conforms to
  accepted_file : Conforms rules file
  accepted_file = (validate_quadlet_policy-Conforms file rules).0 accepted

  -- a statement about the parsed values is one about the lines
  All-lines :
      (key : Bytes) (P Q : Bytes → Type 0)
      → ((v : Bytes) → P v → Q v)
      → All P (values accepted_file.parsed (text "Container") key)
      → All Q (container_lines file key)
  All-lines key P Q f h =
      rw
        (← values-parse_quadlet file.contents accepted_file.parsed (text "Container") key
          accepted_file.parses)
        (All-map P Q f _ h)

-- the text is not "host", up to case and the blanks around it
abbrev pub IsNotHost : Bytes → Type 0
IsNotHost value = lower_ascii (trim value) ≢ text "host"

equals_key-IsNotHost : (value : Bytes) → equals_key value (text "host") ≡ false → IsNotHost value
unfolding equals_key text to_lower
equals_key-IsNotHost value h e =
    false≢true (sym h ∙ (equal_iff (lower_ascii (trim value)) (text "host")).1 e)

-- The container of an accepted file joins no network, process or user namespace of the host by
-- name where the policy allows none of the three: no `Network=`, `PID=` or `UserNS=` line of the
-- file says `host`, in any case or with blanks around it.
pub validate_quadlet_policy-IsNotHost :
    (file : QuadletFile) (rules : QuadletPolicy)
    → validate_quadlet_policy file rules ≡ ok tt
    → rules.allow_host_network ≡ false
    → rules.allow_host_pid ≡ false
    → rules.allow_host_userns ≡ false
    → All IsNotHost (container_lines file (text "Network"))
      × All IsNotHost (container_lines file (text "PID"))
      × All IsNotHost (container_lines file (text "UserNS"))
validate_quadlet_policy-IsNotHost file rules accepted net pid userns =
    let c = accepted_file file rules accepted in
    let lift = λ (key : Bytes).
      All-lines file rules accepted key (λ v. equals_key v (text "host") ≡ false) IsNotHost
        equals_key-IsNotHost in
    (
      lift (text "Network") (denied-All _ _ _ net c.contained.network),
      lift (text "PID") (denied-All _ _ _ pid c.contained.pid),
      lift (text "UserNS") (denied-All _ _ _ userns c.contained.userns),
    )

-- No `Volume=` line of an accepted file mounts a path of the host unless the policy allows it:
-- the source of each is a plain name, or empty.
pub validate_quadlet_policy-IsPlainName :
    (file : QuadletFile) (rules : QuadletPolicy)
    → validate_quadlet_policy file rules ≡ ok tt
    → rules.allow_root_mount ≡ false
    → All (λ v. IsPlainName (volume_source v)) (container_lines file (text "Volume"))
validate_quadlet_policy-IsPlainName file rules accepted denied =
    let c = accepted_file file rules accepted in
    All-lines file rules accepted (text "Volume") (λ v. host_path_volume v ≡ false) _
      host_path_volume-IsPlainName (denied-All _ _ _ denied c.contained.volume)
