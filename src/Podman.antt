-- ===== src/Podman.antt =====
-- src/podman_client.cpp and include/pod_installer/podman_client.hpp: the requests to the Podman
-- service and how their responses are judged. libcurl is a parameter: `perform` makes one
-- transfer, and returns what it passes to the callbacks, or its code and its text for it.
pub mod Requests
pub mod Fields
pub mod Upload
use pod_installer.Base.{
  ℕ, ◌+◌, Bool, true, false, ◌&&◌, ◌||◌, not, List, [], ◌∷◌, ◌++◌, map, reverse, Option, none, some,
  Bytes, text, take, take_while, drop, drop_while, find, equal, is_empty, starts_with, ltb, leb,
  ◌==◌, suc, if◌then◌else◌,
}
use pod_installer.Base.Decimal.{to_string}
use pod_installer.Base.Int.{ℤ, pos, negsuc}
use pod_installer.Error.{
  Error, Result, ok, err, fail, make_error, invalid_argument, transport, http,
}
use pod_installer.World.{Action, Effect, give, finally, ◌>>=◌}
use pod_installer.Http.{HttpRequest, HttpResponse, url_encode_component}
use pod_installer.Target.{PodmanTarget}
use pod_installer.ContainerSpec.{ContainerSpec}
use pod_installer.ContainerSpec.Create.{to_podman_create_json}

-- `timeout` is in milliseconds.
pub record ClientOptions : Type 0 where
  pub timeout : ℕ
  pub base_url : Bytes

abbrev pub client_defaults : ClientOptions
client_defaults = record { timeout = 5000; base_url = text "http://d" }

abbrev pub is_header_blank : ℕ → Bool
is_header_blank c = c == b' ' || c == b'\t'

abbrev pub is_header_end : ℕ → Bool
is_header_end c = c == b'\r' || c == b'\n' || c == b' ' || c == b'\t'

unfoldable pub trim_header_value : Bytes → Bytes
trim_header_value value =
    reverse (drop_while is_header_end (reverse (drop_while is_header_blank value)))

-- what `std::pair` is appended where the line has its first colon
abbrev pub with_pair : List (Bytes × Bytes) → Bytes → Option ℕ → List (Bytes × Bytes)
with_pair headers line (some colon) =
    headers ++ (take colon line, trim_header_value (drop (suc colon) line)) ∷ []
with_pair headers line none = headers

-- `write_header` for one line
unfoldable pub write_header : List (Bytes × Bytes) → Bytes → List (Bytes × Bytes)
write_header headers line = with_pair headers line (find b':' line)

-- the options that `request` sets, as the C strings that libcurl reads
pub record Transfer : Type 0 where
  pub socket_path : Bytes
  pub url : Bytes
  pub method : Bytes
  pub timeout_ms : ℕ
  pub headers : List Bytes
  pub no_body : Bool
  pub body : Option Bytes

-- the code that is behind a transfer, with its text, or the status, and the calls of
-- `write_body` and of `write_header`
pub data Performed : Type 0 where
  curl_ok : ℕ → List Bytes → List Bytes → Performed
  curl_code : ℕ → Bytes → Performed

pub record Curl (S : Type 0) : Type 0 where
  pub easy_init : S → Bool × S
  pub easy_perform : Transfer → S → Performed × S
  pub easy_cleanup : Effect S

-- `s.c_str()`, as it is read up to its NUL byte
unfoldable pub c_str : Bytes → Bytes
c_str = take_while (λ c. not (c == 0))

abbrev pub add_headers : List (Bytes × Bytes) → List Bytes → List (Bytes × Bytes)
add_headers headers [] = headers
add_headers headers (line ∷ lines) = add_headers (write_header headers line) lines

-- the body that the calls of `write_body` leave
abbrev pub joined_body : List Bytes → Bytes
joined_body [] = []
joined_body (chunk ∷ chunks) = chunk ++ joined_body chunks

unfoldable pub finish_perform : Performed → Result HttpResponse
finish_perform (curl_ok status chunks lines) =
    ok (record { status = status; body = joined_body chunks; headers = add_headers [] lines })
finish_perform (curl_code code message) =
    err (record (make_error transport (text "curl request failed: " ++ message)) {
      transport_code = code;
    })

unfoldable pub require_success : Result HttpResponse → Bytes → Result HttpResponse
require_success (err e) operation = err e
require_success (ok response) operation =
    if ltb response.status 200 || leb 300 response.status
    then err
        (record (make_error http (
          operation
          ++ text " failed with HTTP "
          ++ to_string response.status
          ++ text ": "
          ++ response.body)) { http_status = response.status })
    else ok response

-- the inner loop of `filters_query`
abbrev pub escape_filter : Bytes → Bytes
escape_filter [] = []
escape_filter (c ∷ filter) =
    let rest = escape_filter filter in
    if c == b'"' || c == b'\\' then b'\\' ∷ c ∷ rest else c ∷ rest

-- the outer loop, with its flag `first`
abbrev pub filters_json : Bool → List Bytes → Bytes
filters_json first [] = []
filters_json first (filter ∷ filters) =
    (if first then [] else text ",")
    ++ text "\""
    ++ escape_filter filter
    ++ text "\""
    ++ filters_json false filters

unfoldable pub filters_query : List Bytes → Bytes
filters_query [] = []
filters_query (filter ∷ filters) =
    text "&filters="
    ++ url_encode_component
        (text "{\"label\":[" ++ filters_json true (filter ∷ filters) ++ text "]}")

-- the version with no `v` in front
abbrev pub bare_version : Bytes → Bytes
bare_version [] = []
bare_version (c ∷ version) = if c == b'v' then version else c ∷ version

unfoldable pub versioned_path : PodmanTarget → Bytes → Bytes
versioned_path target libpod_path =
    let version = bare_version target.api_version in
    (if is_empty version then [] else text "/v" ++ version)
    ++ (if starts_with libpod_path (text "/") then [] else text "/")
    ++ libpod_path

-- a request with no header and no body
abbrev pub bare_request : Bytes → Bytes → HttpRequest
bare_request method path = record { method = method; path = path; headers = []; body = none }

unfoldable pub list_request : PodmanTarget → Bool → List Bytes → HttpRequest
list_request target all_of label_filters = bare_request (text "GET") (
    versioned_path target (text "/libpod/containers/json")
    ++ (if all_of then text "?all=true" else text "?all=false")
    ++ filters_query label_filters)

unfoldable pub create_request : PodmanTarget → Bytes → HttpRequest
create_request target body = record {
  method = text "POST";
  path = versioned_path target (text "/libpod/containers/create");
  headers = text "Content-Type: application/json" ∷ [];
  body = some body;
}

unfoldable pub start_request : PodmanTarget → Bytes → HttpRequest
start_request target name = bare_request (text "POST") (
    versioned_path target
      (text "/libpod/containers/" ++ url_encode_component name ++ text "/start"))

unfoldable pub stop_request : PodmanTarget → Bytes → ℕ → HttpRequest
stop_request target name timeout_seconds = bare_request (text "POST") (
    versioned_path target (
      text "/libpod/containers/"
      ++ url_encode_component name
      ++ text "/stop?timeout="
      ++ to_string timeout_seconds))

unfoldable pub remove_request : PodmanTarget → Bytes → Bool → HttpRequest
remove_request target name force = bare_request (text "DELETE") (
    versioned_path target (
      text "/libpod/containers/"
      ++ url_encode_component name
      ++ text "?force="
      ++ (if force then text "true" else text "false")))

module _ {S : Type 0} (curl : Curl S) (target : PodmanTarget) (options : ClientOptions) where
  unfoldable pub transfer_of : HttpRequest → Transfer
  transfer_of req = record {
    socket_path = c_str target.socket_path;
    url = c_str (options.base_url ++ req.path);
    method = c_str req.method;
    timeout_ms = options.timeout;
    headers = map c_str req.headers;
    no_body = equal req.method (text "HEAD");
    body = req.body;
  }

  unfoldable pub perform_transfer : HttpRequest → Action S HttpResponse
  perform_transfer req s =
      let (performed, t) = curl.easy_perform (transfer_of req) s in (finish_perform performed, t)

  abbrev pub with_handle : HttpRequest → Bool × S → Result HttpResponse × S
  with_handle req (true, s) = finally curl.easy_cleanup (perform_transfer req) s
  with_handle req (false, s) = (fail transport (text "curl_easy_init failed"), s)

  unfoldable pub request : HttpRequest → Action S HttpResponse
  unfolding perform_transfer transfer_of
  request req s = with_handle req (curl.easy_init s)

  -- `return require_success(request(req), operation);`
  unfoldable pub checked_request : HttpRequest → Bytes → Action S HttpResponse
  checked_request req operation s =
      let (response, t) = request req s in (require_success response operation, t)

  unfoldable pub ping : Action S HttpResponse
  ping = checked_request (bare_request (text "GET") (text "/_ping")) (text "podman ping")

  unfoldable pub info : Action S HttpResponse
  info =
      checked_request (bare_request (text "GET") (versioned_path target (text "/libpod/info")))
        (text "podman info")

  unfoldable pub list_containers : Bool → List Bytes → Action S HttpResponse
  list_containers all_of label_filters =
      checked_request (list_request target all_of label_filters) (text "list containers")

  unfoldable pub create_container : ContainerSpec → Action S HttpResponse
  create_container spec = give (to_podman_create_json spec) >>= λ body.
      checked_request (create_request target body) (text "create container")

  unfoldable pub start_container : Bytes → Action S HttpResponse
  start_container name = checked_request (start_request target name) (text "start container")

  unfoldable pub stop_container : Bytes → ℤ → Action S HttpResponse
  stop_container name (pos timeout_seconds) =
      checked_request (stop_request target name timeout_seconds) (text "stop container")
  stop_container name (negsuc n) =
      give (fail invalid_argument (text "stop timeout must be non-negative"))

  unfoldable pub remove_container : Bytes → Bool → Action S HttpResponse
  remove_container name force =
      checked_request (remove_request target name force) (text "remove container")
