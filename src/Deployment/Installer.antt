-- ===== src/Deployment/Installer.antt =====
-- The installer as `DeploymentOrchestrator` has it, a member beside the services, and that it keeps
-- the laws that are assumed of it there.
use mathlib.Core.Path.{subst}
use pod_installer.Base.{ℕ, Option, ◌≡◌, ◌⊎◌, Bytes}
use pod_installer.System.{Files}
use pod_installer.Quadlet.QuadletPolicy.{QuadletFile, QuadletPolicy}
use pod_installer.Quadlet.Installer.{saved, QuadletInstallLayout, user_directory}
use pod_installer.Quadlet.Disk.{View, Disk}
use pod_installer.Quadlet.Store.{snapshot_for_user, restore_for_user, install_for_user}
use pod_installer.Quadlet.Store.Atomic.{Becomes}
use pod_installer.Quadlet.Store.Keeping.{snapshot_for_user-Keeps}
use pod_installer.Quadlet.Store.Installed.{Replaces, install_for_user-Replaces}
use pod_installer.Quadlet.Store.Restored.{Saved, snapshot_for_user-Saved, restore_for_user-Becomes}
use pod_installer.Systemd.Controller.{UserSystemdController}
use pod_installer.Deployment.Services.{Services}
use pod_installer.Deployment.Orchestrator.Views.{Bystanders, Laws}

module _ {S : Type 0} (os : Files S) (layout : QuadletInstallLayout) (rules : QuadletPolicy) where
  -- the services with the calls of `installer_`
  abbrev pub with_installer : Services S → Services S
  with_installer services = record services {
    snapshot_for_user = snapshot_for_user os layout rules;
    restore_for_user = restore_for_user os layout rules;
    install_for_user = install_for_user os layout rules;
  }

  module _ (view : View S) (uid : ℕ) (disk : Disk view os (user_directory layout uid))
      (quadlet : QuadletFile) where
    abbrev file : S → Option Bytes
    file = view.file quadlet.file_name

    -- Where the system calls keep what POSIX documents, the installer keeps the laws of a deployment.
    pub with_installer-Laws :
        (services : Services S) (controller : UserSystemdController S)
        → Bystanders file services controller uid
        → Laws file (with_installer services) controller uid quadlet
    with_installer-Laws services controller others = record {
      others = record {
        resolve_uid = others.resolve_uid;
        opens = others.opens;
        close = others.close;
        lock = others.lock;
        unlock = others.unlock;
        socket = others.socket;
        ping = others.ping;
        load = others.load;
        reload = others.reload;
        restart = others.restart;
        status = others.status;
      };
      snapshot = λ s.
          snapshot_for_user-Keeps os view (user_directory layout uid) disk layout rules uid
            quadlet.file_name s quadlet.file_name;
      snapshot_saved = λ s t snapshot h.
          subst (Saved os view layout rules uid disk quadlet.file_name s) h
            (snapshot_for_user-Saved os view layout rules uid disk quadlet.file_name s);
      installed = λ s t installed h.
          (subst (Replaces os view layout rules uid disk quadlet.file_name quadlet.contents s) h
            (install_for_user-Replaces os view layout rules uid disk quadlet s)).0;
      not_installed = λ s t e h.
          (subst (Replaces os view layout rules uid disk quadlet.file_name quadlet.contents s) h
            (install_for_user-Replaces os view layout rules uid disk quadlet s)).0;
      restored = λ s t snapshot same h.
          subst (λ n. view.file n t ≡ saved snapshot) same
            (subst
              (Becomes os view (user_directory layout uid) disk snapshot.file_name (saved snapshot)
                s)
              h (restore_for_user-Becomes os view layout rules uid disk snapshot s)).0;
      not_restored = λ s t snapshot e same h.
          subst (λ n. (view.file n t ≡ view.file n s) ⊎ (view.file n t ≡ saved snapshot)) same
            (subst
              (Becomes os view (user_directory layout uid) disk snapshot.file_name (saved snapshot)
                s)
              h (restore_for_user-Becomes os view layout rules uid disk snapshot s)).0;
    }
