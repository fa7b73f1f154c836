-- ===== src/Service.antt =====
-- examples/orchestrator_service.cpp: a service over HTTP that has staged files deployed. Here are
-- its types, and what it reads and writes; the arguments, the files and the handlers are below.
pub mod Arguments
pub mod Params
pub mod Staged
pub mod Reading
pub mod Handler
pub mod Answers
use pod_installer.Base.{
  ℕ, ◌*◌, Bool, true, false, not, ◌||◌, ◌==◌, List, [], ◌∷◌, ◌++◌, Option, none, some, Bytes, text,
  length, take, drop, suc, take_while, drop_while, find, equal, is_empty, is_space, starts_with,
  pieces, if◌then◌else◌,
}
use pod_installer.Base.Decimal.{to_string}
use pod_installer.Base.Maps.{Map, lookup, modify}
use pod_installer.Error.{Error, Result, ok, err, invalid_argument, fail, ◌>>=◌}
use pod_installer.Http.{url_decode_component}

pub record Config : Type 0 where
  pub host : Bytes
  pub port : ℕ
  pub api_version : Bytes
  pub staging_root : Bytes
  pub max_quadlet_size : ℕ
  pub dry_run : Bool
  pub validate_socket : Bool

-- the initialisers of the members
abbrev pub default_config : Config
default_config = record {
  host = text "127.0.0.1";
  port = 9090;
  api_version = text "5.0.0";
  staging_root = text "/var/lib/pod-installer/staging";
  max_quadlet_size = 1024 * 1024;
  dry_run = true;
  validate_socket = true;
}

pub record HttpRequestLine : Type 0 where
  pub method : Bytes
  pub target : Bytes

pub record Query : Type 0 where
  pub path : Bytes
  pub params : Map (List Bytes)

abbrev pub first_of : Option (List Bytes) → Option Bytes
first_of none = none
first_of (some []) = none
first_of (some (value ∷ values)) = some value

abbrev pub all_of : Option (List Bytes) → List Bytes
all_of none = []
all_of (some values) = values

-- `Query::one` and `Query::many`
unfoldable pub one : Query → Bytes → Option Bytes
one query key = first_of (lookup key query.params)

unfoldable pub many : Query → Bytes → List Bytes
many query key = all_of (lookup key query.params)

-- what is in front of the first "\r\n"
pub before_crlf : Bytes → Option Bytes
before_crlf [] = none
before_crlf (c ∷ []) = none
before_crlf (c ∷ d ∷ rest) =
    let later = before_crlf (d ∷ rest) in
    if c == b'\r' then (if d == b'\n' then some [] else with_byte c later) else with_byte c later
  where
    with_byte : ℕ → Option Bytes → Option Bytes
    with_byte c none = none
    with_byte c (some line) = some (c ∷ line)

-- `in >> word`, and what is left
abbrev pub next_word : Bytes → Bytes × Bytes
next_word input =
    let rest = drop_while is_space input in
    (take_while (λ c. not (is_space c)) rest, drop_while (λ c. not (is_space c)) rest)

abbrev pub request_line_of : Option Bytes → Result HttpRequestLine
request_line_of none = fail invalid_argument (text "request line is missing CRLF")
request_line_of (some input) =
    let (method, behind_method) = next_word input in
    let (target, behind_target) = next_word behind_method in
    let (version, rest) = next_word behind_target in
    if is_empty method || is_empty target || not (starts_with version (text "HTTP/"))
    then fail invalid_argument (text "malformed HTTP request line")
    else ok (record { method = method; target = target })

unfoldable pub parse_request_line : Bytes → Result HttpRequestLine
unfolding before_crlf
parse_request_line request = request_line_of (before_crlf request)

-- a part in front of its `=`, and behind it
abbrev pub query_key : Bytes → Option ℕ → Bytes
query_key part none = part
query_key part (some eq) = take eq part

abbrev pub query_value : Bytes → Option ℕ → Bytes
query_value part none = []
query_value part (some eq) = drop (suc eq) part

abbrev pub push_back : Bytes → List Bytes → List Bytes
push_back value values = values ++ value ∷ []

-- a round of the loop over the parts
abbrev pub add_part : Bytes → Map (List Bytes) → Result (Map (List Bytes))
add_part part params = url_decode_component (query_key part (find b'=' part)) true >>= λ key.
    url_decode_component (query_value part (find b'=' part)) true >>= λ value.
    ok (modify key [] (push_back value) params)

pub add_parts : List Bytes → Map (List Bytes) → Result (Map (List Bytes))
add_parts [] params = ok params
add_parts (part ∷ parts) params = add_part part params >>= add_parts parts

abbrev pub query_of : Bytes → Option ℕ → Result Query
query_of target none = ok (record { path = target; params = [] })
query_of target (some question) =
    add_parts (pieces b'&' (drop (suc question) target)) [] >>= λ params.
    ok (record { path = take question target; params = params })

unfoldable pub parse_query : Bytes → Result Query
unfolding add_parts
parse_query target = query_of target (find b'?' target)

abbrev pub escape_json : Bytes → Bytes
escape_json [] = []
escape_json (c ∷ value) =
    let rest = escape_json value in
    if c == b'"' || c == b'\\'
    then b'\\' ∷ c ∷ rest
    else if c == b'\n'
    then text "\\n" ++ rest
    else if c == b'\r'
    then text "\\r" ++ rest
    else if c == b'\t'
    then text "\\t" ++ rest
    else c ∷ rest

unfoldable pub json_escape : Bytes → Bytes
json_escape value = text "\"" ++ escape_json value ++ text "\""

abbrev pub reason_of : ℕ → Bytes
reason_of status =
    if status == 202
    then text "Accepted"
    else if status == 400
    then text "Bad Request"
    else if status == 404
    then text "Not Found"
    else if status == 500
    then text "Internal Server Error"
    else text "OK"

-- `response` with its default type
unfoldable pub response : ℕ → Bytes → Bytes
response status body =
    text "HTTP/1.1 "
    ++ to_string status
    ++ text " "
    ++ reason_of status
    ++ text "\r\n"
    ++ (text "Content-Type: application/json\r\n"
        ++ (text "Content-Length: "
            ++ to_string (length body)
            ++ text "\r\n"
            ++ text "Connection: close\r\n\r\n"
            ++ body))
