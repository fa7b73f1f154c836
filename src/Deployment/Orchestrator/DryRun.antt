-- ===== src/Deployment/Orchestrator/DryRun.antt =====
-- What a dry run calls.
use pod_installer.Base.{true, some, ◌≡◌, refl}
use pod_installer.Deployment.Bundle.{DeploymentBundle}
use pod_installer.Deployment.Services.{Services}
use pod_installer.Systemd.Controller.{UserSystemdController}
use pod_installer.Deployment.Orchestrator.{Settings, deploy_opened, deploy}

-- the settings with the flag for a dry run
abbrev pub dry : Settings → Settings
dry settings = record settings { options = record settings.options { dry_run = true } }

-- the services of the first record that look up the user and open and close the archive, and
-- all others of the second
abbrev pub looking_by : {S : Type 0} → Services S → Services S → Services S
looking_by services others = record others {
  resolve_uid = services.resolve_uid;
  open_staged_image_archive = services.open_staged_image_archive;
  close_archive = services.close_archive;
}

-- A dry run calls nothing but the user database and the opening and closing of the archive:
-- whatever the controller, the lock, the socket check, the Podman client and the installer do
-- instead, its result and the state that it leaves are the same.
pub deploy-dry :
    {S : Type 0} (services others : Services S) (controller other : UserSystemdController S)
    (settings : Settings) (bundle : DeploymentBundle) (s : S)
    → deploy services (dry settings) (some controller) bundle s
      ≡ deploy (looking_by services others) (dry settings) (some other) bundle s
unfolding deploy deploy_opened
deploy-dry services others controller other settings bundle s = refl
