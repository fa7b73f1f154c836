-- ===== src/Quadlet/Policy/Conforms.antt =====
-- Which files `validate_quadlet_policy` accepts.
use pod_installer.Base.{
  Bool, true, false, not, ◌&&◌, List, [], ◌∷◌, ◌≡◌, ◌≢◌, ◌↔◌, ◌⊎◌, refl, Bytes, text, is_empty, any,
  ◌==◌, All, inl, inr, if◌then◌else◌,
}
use pod_installer.Error.{
  ok, reject_if, reject_if-eq-ok, reject_if_iff, ↔-trans, >>-eq-ok, >>=-eq-ok, >>-iff,
}
use pod_installer.Quadlet.Strings.{trim, truthy, equals_key}
use pod_installer.Quadlet.QuadletPolicy.{QuadletFile, QuadletPolicy}
use pod_installer.Quadlet.FileName.{validate_quadlet_file_name}
use pod_installer.Quadlet.FileName.Accepted.{IsFileName, validate_quadlet_file_name-IsFileName}
use pod_installer.Quadlet.Parsed.{ParsedQuadlet, has_section}
use pod_installer.Quadlet.Parser.{parse_quadlet}
use pod_installer.Quadlet.Keys.Allowed.{AllowedSection, validate_allowed_keys-AllowedSection}
use pod_installer.Quadlet.Label.{validate_managed_label}
use pod_installer.Quadlet.Label.Managed.{HasManagedLabel, validate_managed_label-HasManagedLabel}
use pod_installer.Quadlet.HostPath.{host_path_volume, host_path_mount}
use pod_installer.Quadlet.PodmanArgs.{denied_podman_arg}
use pod_installer.Quadlet.Policy.{
  container_values, check_structure, check_values, validate_quadlet_policy,
}
use pod_installer.Quadlet.Policy.Loops.{Allows, reject_values-Allows, check_podman_args_iff}

module _ (rules : QuadletPolicy) (parsed : ParsedQuadlet) where
  -- the sections, the keys and the labels of a parsed file
  pub record IsStructured : Type 0 where
    pub container :
        (rules.require_container_section ≡ false) ⊎ (has_section parsed (text "Container") ≡ true)
    pub image : (rules.require_image ≡ false) ⊎ (container_values parsed "Image" ≢ [])
    pub keys : All AllowedSection parsed
    pub label :
        (rules.require_managed_label ≡ false)
        ⊎ HasManagedLabel rules (container_values parsed "Label")

  -- Every value of these keys is harmless, or the policy allows it.
  pub record IsContained : Type 0 where
    pub network :
        Allows rules.allow_host_network
          (All (λ v. equals_key v (text "host") ≡ false) (container_values parsed "Network"))
    pub pid :
        Allows rules.allow_host_pid
          (All (λ v. equals_key v (text "host") ≡ false) (container_values parsed "PID"))
    pub ipc :
        Allows rules.allow_host_ipc
          (All (λ v. truthy v ≡ false) (container_values parsed "IPCHost"))
    pub userns :
        Allows rules.allow_host_userns
          (All (λ v. equals_key v (text "host") ≡ false) (container_values parsed "UserNS"))
    pub device :
        Allows rules.allow_devices
          (All (λ v. not (is_empty (trim v)) ≡ false) (container_values parsed "Device"))
    pub add_device :
        Allows rules.allow_devices
          (All (λ v. not (is_empty (trim v)) ≡ false) (container_values parsed "AddDevice"))
    pub volume :
        Allows rules.allow_root_mount
          (All (λ v. host_path_volume v ≡ false) (container_values parsed "Volume"))
    pub mount :
        Allows rules.allow_root_mount
          (All (λ v. host_path_mount v ≡ false) (container_values parsed "Mount"))
    pub rootfs :
        Allows rules.allow_root_mount
          (All (λ v. not (is_empty (trim v)) ≡ false) (container_values parsed "Rootfs"))
    pub podman_args :
        All
          (λ v. (rules.allow_podman_args ≡ true) × (denied_podman_arg v rules ≡ false))
          (container_values parsed "PodmanArgs")

  check_values-IsContained : (check_values rules parsed ≡ ok tt) ↔ IsContained
  unfolding check_values
  check_values-IsContained =
      let chain = >>-iff _ _ (reject_values-Allows rules.allow_host_network _ _ _) (
        >>-iff _ _ (reject_values-Allows rules.allow_host_pid _ _ _) (
          >>-iff _ _ (reject_values-Allows rules.allow_host_ipc _ _ _) (
            >>-iff _ _ (reject_values-Allows rules.allow_host_userns _ _ _) (
              >>-iff _ _ (reject_values-Allows rules.allow_devices _ _ _) (
                >>-iff _ _ (reject_values-Allows rules.allow_devices _ _ _) (
                  >>-iff _ _ (reject_values-Allows rules.allow_root_mount _ _ _) (
                    >>-iff _ _ (reject_values-Allows rules.allow_root_mount _ _ _) (
                      >>-iff _ _ (reject_values-Allows rules.allow_root_mount _ _ _)
                        (check_podman_args_iff rules _))))))))) in
      (
        (λ h.
            let t = chain.0 h in
            record {
              network = t.0;
              pid = t.1.0;
              ipc = t.1.1.0;
              userns = t.1.1.1.0;
              device = t.1.1.1.1.0;
              add_device = t.1.1.1.1.1.0;
              volume = t.1.1.1.1.1.1.0;
              mount = t.1.1.1.1.1.1.1.0;
              rootfs = t.1.1.1.1.1.1.1.1.0;
              podman_args = t.1.1.1.1.1.1.1.1.1;
            }),
        (λ c. chain.1 (
          c.network,
          (
            c.pid,
            (
              c.ipc,
              (
                c.userns,
                (c.device, (c.add_device, (c.volume, (c.mount, (c.rootfs, c.podman_args))))),
              ),
            ),
          ),
        )),
      )

required_iff :
    (wanted found : Bool) → ((wanted && not found) ≡ false) ↔ ((wanted ≡ false) ⊎ (found ≡ true))
required_iff true true = ((λ _. inr refl), (λ _. refl))
required_iff true false = ((λ h. cc), elim [ inl e ↦ cc | inr e ↦ cc ])
required_iff false found = ((λ _. inl refl), (λ _. refl))

nonempty_iff :
    (wanted : Bool) (vs : List Bytes)
    → ((wanted && is_empty vs) ≡ false) ↔ ((wanted ≡ false) ⊎ (vs ≢ []))
nonempty_iff true [] = ((λ h. cc), elim [ inl e ↦ cc | inr ne ↦ absurd (ne refl) ])
nonempty_iff true (v ∷ vs) = ((λ _. inr (λ e. cc)), (λ _. refl))
nonempty_iff false vs = ((λ _. inl refl), (λ _. refl))

label_iff :
    (rules : QuadletPolicy) (parsed : ParsedQuadlet) (wanted : Bool)
    → ((if wanted then validate_managed_label parsed rules else ok tt) ≡ ok tt)
      ↔ ((wanted ≡ false) ⊎ HasManagedLabel rules (container_values parsed "Label"))
label_iff rules parsed true = (
  (λ h. inr ((validate_managed_label-HasManagedLabel parsed rules).0 h)),
  elim [ inl e ↦ cc | inr m ↦ (validate_managed_label-HasManagedLabel parsed rules).1 m ],
)
label_iff rules parsed false = ((λ _. inl refl), (λ _. refl))

module _ (rules : QuadletPolicy) (parsed : ParsedQuadlet) where
  check_structure-IsStructured : (check_structure rules parsed ≡ ok tt) ↔ IsStructured rules parsed
  unfolding check_structure
  check_structure-IsStructured =
      let chain =
        >>-iff _ _ (↔-trans (reject_if_iff _ _ _) (required_iff rules.require_container_section _))
          (>>-iff _ _ (↔-trans (reject_if_iff _ _ _) (nonempty_iff rules.require_image _)) (
            >>-iff _ _ (validate_allowed_keys-AllowedSection parsed)
              (label_iff rules parsed rules.require_managed_label))) in
      (
        (λ h.
            let t = chain.0 h in
            record { container = t.0; image = t.1.0; keys = t.1.1.0; label = t.1.1.1 }),
        (λ c. chain.1 (c.container, (c.image, (c.keys, c.label)))),
      )

-- The file has a proper name and some contents with no NUL byte, these parse, and what they
-- hold is structured and contained as the policy asks.
pub record Conforms (rules : QuadletPolicy) (file : QuadletFile) : Type 0 where
  pub name : IsFileName file.file_name
  pub some_bytes : is_empty file.contents ≡ false
  pub no_nul : any (λ c. c == 0) file.contents ≡ false
  pub parsed : ParsedQuadlet
  pub parses : parse_quadlet file.contents ≡ ok parsed
  pub structured : IsStructured rules parsed
  pub contained : IsContained rules parsed

-- A file is accepted exactly when it conforms to the policy: its name is
-- proper, its contents are not empty, hold no NUL byte and parse, and the
-- sections, keys, labels and values of what is parsed are those that
-- `IsStructured` and `IsContained` ask for.
pub validate_quadlet_policy-Conforms :
    (file : QuadletFile) (rules : QuadletPolicy)
    → (validate_quadlet_policy file rules ≡ ok tt) ↔ Conforms rules file
unfolding validate_quadlet_policy
validate_quadlet_policy-Conforms file rules = (
  (λ h.
      let (named, h1) = >>-eq-ok (validate_quadlet_file_name file.file_name) _ h in
      let (size, h2) = >>-eq-ok (reject_if (is_empty file.contents) _ _) _ h1 in
      let (nul, h3) = >>-eq-ok (reject_if (any (λ c. c == 0) file.contents) _ _) _ h2 in
      let (parsed, parses, h4) = >>=-eq-ok (parse_quadlet file.contents) _ h3 in
      let (structure, vs) = >>-eq-ok (check_structure rules parsed) _ h4 in
      record {
        name = (validate_quadlet_file_name-IsFileName file.file_name).0 named;
        some_bytes = reject_if-eq-ok _ _ _ size;
        no_nul = reject_if-eq-ok _ _ _ nul;
        parsed = parsed;
        parses = parses;
        structured = (check_structure-IsStructured rules parsed).0 structure;
        contained = (check_values-IsContained rules parsed).0 vs;
      }),
  (λ c.
      rw
        (
          (validate_quadlet_file_name-IsFileName file.file_name).1 c.name,
          c.some_bytes,
          c.no_nul,
          c.parses,
          (check_structure-IsStructured rules c.parsed).1 c.structured,
        )
        ((check_values-IsContained rules c.parsed).1 c.contained)),
)
