-- ===== src/Tests.antt =====
-- Sample files and requests, runs of the models on them, and the theorems at such inputs.
mod DiskMachine
pub mod QuadletTests
mod HttpTests
mod SpecTests
mod SystemdTests
pub mod DeploymentTests
mod ControllerTests
mod FilesTests
pub mod StoreTests
pub mod StagingTests
mod PodmanTests
mod UploadTests
mod BusTests
mod ServiceTests
mod AssembledTests
