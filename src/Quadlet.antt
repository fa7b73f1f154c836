-- ===== src/Quadlet.antt =====
-- src/quadlet.cpp and include/pod_installer/quadlet.hpp.
pub mod Strings
pub mod QuadletPolicy
pub mod FileName
pub mod Parsed
pub mod Parser
pub mod PodmanArgs
pub mod HostPath
pub mod Keys
pub mod Label
pub mod Policy
pub mod Installer
pub mod Files
pub mod Disk
pub mod Store
