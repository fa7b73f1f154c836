-- ===== src/Deployment.antt =====
-- include/pod_installer/deployment.hpp and src/deployment.cpp: a bundle, its checks, and the
-- orchestrator that deploys it.
pub mod Bundle
pub mod Services
pub mod StagedPath
pub mod Staging
pub mod Rollback
pub mod Orchestrator
pub mod Installer
pub mod Assembled
