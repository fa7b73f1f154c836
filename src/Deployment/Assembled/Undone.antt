-- ===== src/Deployment/Assembled/Undone.antt =====
-- A deployment on the system calls alone, where it fails.
use pod_installer.Error.{Error}
use pod_installer.Quadlet.Disk.{Disk}
use pod_installer.Deployment.Services.{Services}
use pod_installer.Deployment.Assembled.Quiet.{Quiet}
