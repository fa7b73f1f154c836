-- ===== src/Service/Handler.antt =====
-- The handlers of examples/orchestrator_service.cpp: what a request has done, and its answer.
use pod_installer.Base.{
  ℕ, ◌-◌, ◌*◌, Bool, not, ◌&&◌, [], ◌++◌, Option, none, some, Bytes, text, length, take, equal,
  if◌then◌else◌,
}
use pod_installer.Error.{Error, Result, ok, err, invalid_argument, fail}
use pod_installer.World.{Action, give, finally, ◌>>=◌}
use pod_installer.System.{Files}
use pod_installer.FilePath.{joined}
use pod_installer.Target.{filename, PodmanTarget}
use pod_installer.Quadlet.QuadletPolicy.{default_policy}
use pod_installer.Quadlet.Installer.{default_install_layout}
use pod_installer.Quadlet.FileName.{service_unit_name_from_quadlet}
use pod_installer.Systemd.Controller.{UserSystemdController}
use pod_installer.Deployment.Bundle.{
  ImageArchive, DeploymentBundle, DeploymentOptions, DeploymentResult, default_options,
}
use pod_installer.Deployment.Services.{Services}
use pod_installer.Deployment.Orchestrator.{Settings, deploy}
use pod_installer.Service.{
  Config, HttpRequestLine, Query, one, parse_request_line, parse_query, json_escape, response,
}
use pod_installer.Service.Staged.{StagedFiles, open_staged_regular_file, read_staged_regular_file}

abbrev pub without_suffix : Result Bytes → Result Bytes
without_suffix (ok unit) = ok (take (length unit - length (text ".service")) unit)
without_suffix (err e) = err e

unfoldable pub service_name_from_quadlet_path : Bytes → Result Bytes
service_name_from_quadlet_path path =
    without_suffix (service_unit_name_from_quadlet (filename path))

abbrev pub value_or : Option Bytes → Bytes → Bytes
value_or none other = other
value_or (some value) other = value

-- `query.one(key).value_or("true") != "false"`
abbrev pub is_on : Query → Bytes → Bool
is_on query key = not (equal (value_or (one query key) (text "true")) (text "false"))

-- `bundle.image_archive` and the options of the orchestrator
abbrev pub bundle_of :
    Query → PodmanTarget → Bytes → Bytes → Bytes → Option ImageArchive → DeploymentBundle
bundle_of query target quadlet_path contents inferred archive = record {
  target_uid = target.uid;
  service_name = value_or (one query (text "service")) inferred;
  image_archive = archive;
  quadlet = record { file_name = filename quadlet_path; contents = contents };
  revision = value_or (one query (text "revision")) [];
}

abbrev pub options_of : Config → Query → DeploymentOptions
options_of config query = record default_options {
  api_version = config.api_version;
  validate_socket = config.validate_socket;
  image_archive_root = some config.staging_root;
  load_image_archive = is_on query (text "loadImage");
  restart_unit = is_on query (text "restart");
  dry_run = config.dry_run;
}

abbrev pub settings_of : Config → Query → Settings
settings_of config query = record {
  layout = default_install_layout;
  rules = default_policy;
  options = options_of config query;
}

unfoldable pub report_of : PodmanTarget → DeploymentResult → Bytes
report_of target deployed =
    text "{\"dryRun\":"
    ++ (if deployed.dry_run then text "true" else text "false")
    ++ text ",\"targetUser\":"
    ++ json_escape target.user_name
    ++ text ",\"installedQuadletPath\":"
    ++ json_escape deployed.installed_quadlet_path
    ++ text ",\"systemdUnit\":"
    ++ json_escape deployed.systemd_unit
    ++ text ",\"jobPath\":"
    ++ json_escape (value_or deployed.job_path [])
    ++ text ",\"statusError\":"
    ++ json_escape (value_or deployed.status_error [])
    ++ text "}\n"

-- What the handlers call: the files, the look-up of a user by name with the default layout, and
-- the services of the orchestrator with the controller for `systemctl`.
pub record Surroundings (S : Type 0) : Type 0 where
  pub files : Files S
  pub staged : StagedFiles S
  pub resolve_user : Bytes → Bytes → Action S PodmanTarget
  pub services : Services S
  pub controller : Bool → UserSystemdController S

module _ {S : Type 0} (around : Surroundings S) (config : Config) (query : Query) where
  -- `8ULL * 1024ULL * 1024ULL * 1024ULL`
  abbrev pub max_archive : ℕ
  max_archive = 8 * 1024 * 1024 * 1024

  -- the archive is opened to see its path, and closed
  abbrev pub staged_archive : Option Bytes → Action S (Option ImageArchive)
  staged_archive none = give (ok none)
  staged_archive (some image_archive) =
      open_staged_regular_file around.files around.staged config.staging_root image_archive
        max_archive
      >>= λ file.
          finally (around.files.close file.fd)
            (give (ok (some (record { path = joined file.relative_path; expected_sha256 = [] }))))

  abbrev pub deploy_staged : Bytes → Bytes → Action S Bytes
  deploy_staged user quadlet_path = do
    target ← around.resolve_user user config.api_version
    contents ←
        read_staged_regular_file around.files around.staged config.staging_root quadlet_path
          config.max_quadlet_size
    inferred ← give (service_name_from_quadlet_path quadlet_path)
    archive ← staged_archive (one query (text "imageArchive"))
    deployed ←
        deploy around.services (settings_of config query) (some (around.controller config.dry_run))
          (bundle_of query target quadlet_path contents inferred archive)
    give (ok (report_of target deployed))

  abbrev pub with_parameters : Option Bytes → Option Bytes → Action S Bytes
  with_parameters (some user) (some quadlet_path) = deploy_staged user quadlet_path
  with_parameters (some user) none =
      give (
        fail invalid_argument (text "deploy-bundle requires user and quadletPath query parameters"))
  with_parameters none quadlet_path =
      give (
        fail invalid_argument (text "deploy-bundle requires user and quadletPath query parameters"))

  unfoldable pub handle_deploy_bundle : Action S Bytes
  handle_deploy_bundle = with_parameters (one query (text "user")) (one query (text "quadletPath"))

abbrev pub error_body : Error → Bytes
error_body e = text "{\"error\":" ++ json_escape e.message ++ text "}\n"

-- `method == m && path == p` of a request
abbrev pub asks : HttpRequestLine → Query → Bytes → Bytes → Bool
asks line query method path = equal line.method method && equal query.path path

module _ {S : Type 0} (around : Surroundings S) (config : Config) where
  abbrev pub deploy_answer : Result Bytes × S → Bytes × S
  deploy_answer (ok body, s) = (response (if config.dry_run then 200 else 202) body, s)
  deploy_answer (err e, s) = (response 400 (error_body e), s)

  abbrev pub answer : HttpRequestLine → Result Query → S → Bytes × S
  answer line (err e) s = (response 400 (error_body e), s)
  answer line (ok query) s =
      if asks line query (text "GET") (text "/healthz")
      then (response 200 (text "{\"status\":\"ok\"}\n"), s)
      else if asks line query (text "POST") (text "/v1/deploy-bundle")
      then deploy_answer (handle_deploy_bundle around config query s)
      else (response 404 (text "{\"error\":\"not found\"}\n"), s)

  abbrev pub answer_line : Result HttpRequestLine → S → Bytes × S
  answer_line (err e) s = (response 400 (error_body e), s)
  answer_line (ok line) s = answer line (parse_query line.target) s

  unfoldable pub handle_request : Bytes → S → Bytes × S
  unfolding handle_deploy_bundle
  handle_request raw s = answer_line (parse_request_line raw) s
