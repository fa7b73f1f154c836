-- ===== src/ContainerSpec.antt =====
-- include/pod_installer/container_spec.hpp and src/container_spec.cpp.
pub mod Json
pub mod Validate
pub mod Create
use pod_installer.Base.{Bool, true, List, [], ◌∷◌, Option, none, Bytes, text}
use pod_installer.Base.Int.{ℤ}
use pod_installer.Base.Maps.{Map}

pub record CpuLimits : Type 0 where
  pub period : Option ℤ
  pub quota : Option ℤ
  pub shares : Option ℤ
  pub cpus : Option Bytes

pub record MemoryLimits : Type 0 where
  pub limit : Option ℤ
  pub swap : Option ℤ

pub record PidsLimits : Type 0 where
  pub limit : Option ℤ

pub record ResourceLimits : Type 0 where
  pub cpu : Option CpuLimits
  pub memory : Option MemoryLimits
  pub pids : Option PidsLimits

pub record ContainerSpec : Type 0 where
  pub name : Bytes
  pub image : Bytes
  pub command : List Bytes
  pub env : Map Bytes
  pub labels : Map Bytes
  pub read_only_filesystem : Bool
  pub cap_drop : List Bytes
  pub security_opt : List Bytes
  pub resource_limits : Option ResourceLimits

-- the initialisers of the members
abbrev pub default_spec : ContainerSpec
default_spec = record {
  name = [];
  image = [];
  command = [];
  env = [];
  labels = [];
  read_only_filesystem = true;
  cap_drop = text "ALL" ∷ [];
  security_opt = text "no-new-privileges" ∷ [];
  resource_limits = none;
}
