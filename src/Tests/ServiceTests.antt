-- ===== src/Tests/ServiceTests.antt =====
-- Requests to the example service, and its arguments.
use pod_installer.Base.{
  ◌≤◌, true, false, List, [], ◌∷◌, ◌++◌, ◌≡◌, refl, ◌⊎◌, arith, Bytes, Lacks, text, find, equal,
  is_space, starts_with, is_alnum,
}
use pod_installer.Error.{ok, fail, policy}
use pod_installer.World.{give}
use pod_installer.FilePath.{elements, joined, is_absolute, lexically_normal, append_element}
use pod_installer.Target.{make_target, default_layout}
use pod_installer.Service.{
  Config, default_config, Query, many, parse_request_line, parse_query, json_escape, response,
}
use pod_installer.Service.Arguments.{configured, thrown, flag_of, stoul, parse_args}
use pod_installer.Service.Arguments.Defaults.{given, parse_args-Grounded}
use pod_installer.Service.Params.{Pair, AreBytes, query_text, values_for, many-parse_query}
use pod_installer.Service.Staged.{StagedFiles, component_is_safe, staged_relative_path}
use pod_installer.Service.Handler.{Surroundings, handle_request}
use pod_installer.Service.Answers.{IsDeployRequest, handle_request-IsDeployRequest}
use pod_installer.Tests.StagingTests.{Machine, os, others, units}

abbrev args : List Bytes
args =
    text "--listen"
    ∷ text "0.0.0.0:80"
    ∷ text "--execute"
    ∷ text "--staging-root"
    ∷ text "/srv"
    ∷ []

abbrev executing : Config
executing = record default_config {
  host = text "0.0.0.0";
  port = 80;
  dry_run = false;
  staging_root = text "/srv";
}

sample_arguments : parse_args args ≡ configured executing
unfolding text parse_args flag_of stoul equal is_space is_alnum
sample_arguments = refl

parse_args-Grounded_example :
    (false ≡ false → given (text "--execute") args ≡ true)
    × (true ≡ false → given (text "--no-socket-validation") args ≡ true)
    × (1 ≤ 80)
    × (80 ≤ 65535)
parse_args-Grounded_example = parse_args-Grounded args executing sample_arguments

sample_thrown : parse_args (text "--listen" ∷ text "localhost:http" ∷ []) ≡ thrown
unfolding text parse_args flag_of stoul equal is_space is_alnum
sample_thrown = refl

abbrev pairs : List Pair
pairs = (text "user", text "a&b=c") ∷ (text "x y", []) ∷ (text "user", text "d") ∷ []

pairs-AreBytes : AreBytes pairs
unfolding text
pairs-AreBytes = ground arith

deploy_path : Lacks b'?' (text "/v1/deploy-bundle")
unfolding text
deploy_path = ground arith

many-parse_query_example :
    (query : Query) × (parse_query (text "/v1/deploy-bundle" ++ b'?' ∷ query_text pairs) ≡ ok query)
    × (query.path ≡ text "/v1/deploy-bundle")
    × ((key : Bytes) → many query key ≡ values_for key pairs)
many-parse_query_example =
    many-parse_query (text "/v1/deploy-bundle") pairs deploy_path pairs-AreBytes

abbrev staged : StagedFiles Machine
staged = record {
  open_directory_at = λ fd name. os.open_directory name;
  open_file_at = λ fd name. os.open_directory name;
}

abbrev around : Surroundings Machine
around = record {
  files = os;
  staged = staged;
  resolve_user = λ name version. give (ok (make_target 1000 name default_layout version));
  services = others;
  controller = λ dry_run. units;
}

abbrev health : Bytes
health = text "GET /healthz HTTP/1.1\r\nHost: x\r\n\r\n"

sample_health :
    handle_request around default_config health (7 ∷ [])
    ≡ (response 200 (text "{\"status\":\"ok\"}\n"), 7 ∷ [])
unfolding text handle_request parse_request_line parse_query is_space starts_with find equal
sample_health = refl

handle_request-IsDeployRequest_example :
    ((handle_request around default_config health (7 ∷ [])).1 ≡ 7 ∷ []) ⊎ IsDeployRequest health
handle_request-IsDeployRequest_example =
    handle_request-IsDeployRequest around default_config health (7 ∷ [])

sample_paths :
    (staged_relative_path (text "/srv") (text "/srv/./a/../b") ≡ ok (text "b" ∷ []))
    × (staged_relative_path (text "/srv") (text "../b")
        ≡ fail policy (text "staged file path must not contain '.' or '..': ../b"))
    × (staged_relative_path (text "/srv/") (text "/srv/b")
        ≡ fail policy (text "staged file is outside staging root: /srv/b"))
    × (staged_relative_path (text "/srv") (text "/srv/")
        ≡ fail policy (text "staged file path is empty"))
unfolding text staged_relative_path component_is_safe elements lexically_normal is_absolute
    append_element joined equal
sample_paths = (refl, refl, refl, refl)

-- a control character is passed on as it is
sample_escape : json_escape (1 ∷ []) ≡ b'"' ∷ 1 ∷ b'"' ∷ []
unfolding text json_escape
sample_escape = refl
