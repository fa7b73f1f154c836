-- ===== src/Lib.antt =====
-- pod-installer: a model of the C++ library that installs Podman Quadlets for users.
--
-- The library takes a deployment bundle, checks the Quadlet file in it against a policy, writes
-- it below the administrator's directory of a user, and has systemd and Podman act on it. This
-- development models the parts that decide what is accepted and what is sent.
--
-- Base: the native numbers, lists, and `Bytes`, the lists of bytes that stand for `std::string`;
--   the calls of the C++ standard library that the sources make (`find`, `starts_with`,
--   `std::getline` as `pieces`, `std::to_string`, `std::isalnum` and its kin in the "C" locale),
--   `std::map` as a list of keys and values in key order.
-- Error: include/pod_installer/error.hpp and src/error.cpp. `std::expected<T, Error>` is `Result
--   T`, and `if (!r) return std::unexpected(r.error())` is its `do` block.
-- Http: include/pod_installer/http.hpp and src/http.cpp.
-- ContainerSpec: include/pod_installer/container_spec.hpp and src/container_spec.cpp. Validate
--   has the checks, Json the writers of strings, arrays and maps, Create the request body. Json
--   values and their print stand in Json.Value, a reader of string literals in Json.Escape.
-- FilePath: `std::filesystem::path` as the list of its elements, and `lexically_normal` on it.
-- System: what a system call returns, and the calls on files, as a record over the state.
-- Quadlet: include/pod_installer/quadlet.hpp and src/quadlet.cpp. Strings has the text helpers,
--   FileName the check of a file's name and its unit, Parsed the class `ParsedQuadlet`, Parser
--   `parse_quadlet`, Keys, Label, HostPath and PodmanArgs the checks of one kind of line each,
--   Policy `validate_quadlet_policy`, which calls them all. Installer has the layout and
--   `expected_install`, Files the directory checks and `write_all`, Store the atomic write, the
--   read, the removal and the operations of `QuadletInstaller`, over the calls of System. Disk
--   says what POSIX documents of these calls on the directory of one user.
-- Target: include/pod_installer/target.hpp and src/target.cpp: paths, as texts with the `/` of
--   `std::filesystem::path`, and the target of a user. Users has `resolve_user` and `resolve_uid`,
--   over the database of users as a parameter.
-- SocketValidation: include/pod_installer/socket_validation.hpp and src/socket_validation.cpp,
--   over `lstat`.
-- Systemd: include/pod_installer/systemd.hpp and src/systemd.cpp: Unit has the checks on values
--   and units and the arguments of `systemctl --user`, Slice those of `systemctl set-property`,
--   Status the reader of `systemctl show`, Process the runs of a process over the system calls as
--   parameters, Controller the systemctl controllers. Bus is src/systemd_sdbus.cpp, the controller
--   over sdbus-c++, which is the record `Bus`.
-- World: a call that changes the state of the system, as a function of the state to a `Result`
--   and the state behind it; `handle` has both ways on, `finally` is a destructor.
-- Podman: src/podman_client.cpp: the requests of `PodmanClient` and what becomes of a response;
--   libcurl is a parameter, as the record `Curl`. Requests is what a server reads in a path,
--   Fields the headers that are kept of a response. Upload has `read_fd_upload`, which libcurl
--   calls back, and `load_image_archive`; whatever libcurl does, it is one function of this
--   callback.
-- Deployment: include/pod_installer/deployment.hpp and src/deployment.cpp. Bundle has the types
--   and the check of a bundle, Services what the orchestrator calls, Rollback `rollback_error`,
--   Orchestrator `deploy`. The abstract class `UserSystemdController` is a record of calls, and so
--   are the installer, the user database, the archive, the lock, the socket check and the Podman
--   client, in the record `Services`; the state of the system is a parameter. The laws of the
--   services, in Orchestrator.Views, are a hypothesis of what is proved of `deploy`. StagedPath
--   has `relative_staged_path`, Staging the archive and the lock, each descriptor of which is
--   closed by `finally` at the end of its scope. Deployment.Installer has the installer of
--   Quadlet.Store as a member of `Services`, and `with_staging` and `with_socket_validation` have
--   the archive, the lock and the socket check so. In Deployment.Assembled every member is a
--   model, over the system calls, the database of users and libcurl.
-- Service: examples/orchestrator_service.cpp, a service over HTTP. Service has what it reads and
--   writes, Arguments `parse_args`, Staged the files that it opens, Handler what a request has
--   done; `resolve_user` and the services of the orchestrator are parameters there. `std::stoul`
--   may throw, which ends the program, and `--help` does: `Parsed` has both.
-- Tests: sample inputs, runs on them, and the results below at such inputs.
--
-- A function of the sources keeps its name, and its tests keep their order. A loop over an index
-- is recursion on the list; `parse_loop` runs on fuel, the size of the contents, which is enough
-- since each round takes a byte at least. `write_all` runs on the size of the contents and the
-- interruptions to come; `read_loop` likewise. The loops of Systemd over waitpid and read run on
-- one round more than the calls that the state says are to be interrupted or to return bytes,
-- and so do those over flock and pread. A variable changed in a loop is an argument or a field
-- of a record (`Splitter`, `Progress`, `LabelCount`, `Open`). `int64_t` limits are integers
-- without a bound, since no arithmetic is done on them.
--
-- Not modelled: the listening socket and the accept loop of the example service, which are pure
-- I/O, and the tests.
pub mod Base
pub mod Error
pub mod World
pub mod System
pub mod FilePath
pub mod Http
pub mod ContainerSpec
pub mod Quadlet
pub mod Target
pub mod Systemd
pub mod Podman
pub mod Deployment
pub mod SocketValidation
pub mod Service
mod Tests
