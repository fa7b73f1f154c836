-- ===== src/Tests/PodmanTests.antt =====
-- A container with odd bytes in its name, and a libcurl that keeps the requests it gets.
use pod_installer.Base.{
  true, List, [], ◌∷◌, ◌++◌, ◌≡◌, refl, Bytes, text, IsBytes, arith, starts_with, find, equal,
  if◌then◌else◌,
}
use pod_installer.Base.Decimal.{to_string}
use pod_installer.Base.Int.{negsuc}
use pod_installer.Error.{ok, fail, invalid_argument}
use pod_installer.Http.{is_unreserved, encode_byte, url_encode_component}
use pod_installer.Target.{make_target, default_layout, PodmanTarget}
use pod_installer.Podman.{
  Performed, curl_ok, curl_code, Curl, client_defaults, trim_header_value, write_header, c_str,
  finish_perform, require_success, filters_query, versioned_path, start_request, stop_request,
  remove_request, request, checked_request, start_container, stop_container,
}
use pod_installer.Podman.Fields.{Field, IsField}
use pod_installer.Podman.Requests.{Addresses, container_requests-Addresses}
use pod_installer.Podman.Requests.Segments.{segments, resolved}

abbrev web_target : PodmanTarget
web_target = make_target 1000 (text "web") default_layout (text "v5.0.0")

abbrev sly_name : Bytes
sly_name = text "../a/b?force=true"

sly_name-IsBytes : IsBytes sly_name
unfolding text
sly_name-IsBytes = ground arith

-- answers each transfer, and keeps its URL
abbrev recording : Performed → Curl (List Bytes)
recording answer = record {
  easy_init = λ urls. (true, urls);
  easy_perform = λ transfer urls. (answer, transfer.url ∷ urls);
  easy_cleanup = λ urls. urls;
}

sample_start :
    (start_container
        (recording (curl_ok 204 [] (text "Server: Libpod \r\n" ∷ [])))
        web_target
        client_defaults
        (text "a/b")
        []
      ≡ (
        ok (record { status = 204; body = []; headers = (text "Server", text "Libpod") ∷ [] }),
        text "http://d/v5.0.0/libpod/containers/a%2Fb/start" ∷ [],
      ))
    × (stop_container
          (recording (curl_code 7 []))
          web_target
          client_defaults
          (text "a")
          (negsuc 0)
          []
        ≡ (fail invalid_argument (text "stop timeout must be non-negative"), []))
unfolding start_container stop_container checked_request request start_request versioned_path
    make_target text starts_with c_str finish_perform require_success write_header find
    trim_header_value url_encode_component is_unreserved encode_byte
sample_start = (refl, refl)

sample_filters :
    filters_query (text "a\"b" ∷ text "c" ∷ [])
    ≡ text "&filters=%7B%22label%22%3A%5B%22a%5C%22b%22%2C%22c%22%5D%7D"
unfolding filters_query text url_encode_component is_unreserved encode_byte
sample_filters = refl

container_requests-Addresses_example :
    Addresses web_target
      (start_request web_target sly_name).path
      sly_name
      (text "/start")
      (text "start" ∷ [])
    × Addresses web_target
        (stop_request web_target sly_name 10).path
        sly_name
        (text "/stop?timeout=" ++ to_string 10)
        (text "stop" ∷ [])
    × Addresses web_target
        (remove_request web_target sly_name true).path
        sly_name
        (text "?force=" ++ (if true then text "true" else text "false"))
        []
unfolding text equal
container_requests-Addresses_example =
    container_requests-Addresses web_target sly_name sly_name-IsBytes refl 10 true

-- two dots for a name lead out of the containers
sample_dots :
    resolved [] (segments (start_request web_target (text "..")).path)
    ≡ text "start" ∷ text "libpod" ∷ text "v5.0.0" ∷ []
unfolding resolved segments start_request versioned_path make_target text starts_with equal
    url_encode_component is_unreserved encode_byte
sample_dots = refl

abbrev server_field : Field
server_field = record {
  name = text "Server";
  front = text " ";
  value = text "Libpod/5 (linux)";
  back = text " \t";
}

server_field-IsField : IsField server_field
unfolding text
server_field-IsField = record {
  plain_name = ground arith;
  front_blank = ground arith;
  back_blank = ground arith;
  first = b'L';
  rest = text "ibpod/5 (linux)";
  begins = refl;
  first_kept = ground arith;
  last = b')';
  before = text "xunil( 5/dopbiL";
  stops = refl;
  last_kept = ground arith;
}
