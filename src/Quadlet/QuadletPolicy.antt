-- ===== src/Quadlet/QuadletPolicy.antt =====
-- `QuadletPolicy` and `QuadletFile` of include/pod_installer/quadlet.hpp.
use pod_installer.Base.{Bool, true, false, Bytes, text}

pub record QuadletFile : Type 0 where
  pub file_name : Bytes
  pub contents : Bytes

pub record QuadletPolicy : Type 0 where
  pub require_container_section : Bool
  pub require_image : Bool
  pub require_managed_label : Bool
  pub managed_label_key : Bytes
  pub managed_label_value : Bytes
  pub allow_privileged : Bool
  pub allow_host_network : Bool
  pub allow_host_pid : Bool
  pub allow_host_ipc : Bool
  pub allow_host_userns : Bool
  pub allow_devices : Bool
  pub allow_root_mount : Bool
  pub allow_podman_args : Bool

-- the initialisers of the members
abbrev pub default_policy : QuadletPolicy
default_policy = record {
  require_container_section = true;
  require_image = true;
  require_managed_label = true;
  managed_label_key = text "com.example.pod-installer.managed";
  managed_label_value = text "true";
  allow_privileged = false;
  allow_host_network = false;
  allow_host_pid = false;
  allow_host_ipc = false;
  allow_host_userns = false;
  allow_devices = false;
  allow_root_mount = false;
  allow_podman_args = false;
}
