-- ===== src/Service/Arguments.antt =====
-- `parse_args` of examples/orchestrator_service.cpp.
pub mod Defaults
use pod_installer.Base.{
  ℕ, zero, suc, ◌+◌, ◌-◌, ◌*◌, ◌%◌, ◌<◌, Bool, true, false, not, ◌||◌, ◌==◌, ltb, List, [], ◌∷◌,
  ◌++◌, reverse, Option, none, some, ◌≡◌, refl, ◌⊎◌, inl, inr, arith, Bytes, text, length, take,
  take_while, drop_while, equal, equal_iff, is_empty, is_space, is_digit, Bool-cases, if◌then◌else◌,
}
use pod_installer.Base.Decimal.{value}
use pod_installer.Error.{Error, make_error, invalid_argument}
use pod_installer.Service.{Config, default_config}

-- a configuration, an error, the exit behind `--help`, or an exception that nobody catches
pub data Parsed : Type 0 where
  configured : Config → Parsed
  refused : Error → Parsed
  helped : Parsed
  thrown : Parsed

pub data Flag : Type 0 where
  help execute no_socket_validation listen api_version staging_root unknown : Flag

unfoldable pub flag_of : Bytes → Flag
flag_of arg =
    if equal arg (text "--help")
    then help
    else if equal arg (text "--execute")
    then execute
    else if equal arg (text "--no-socket-validation")
    then no_socket_validation
    else if equal arg (text "--listen")
    then listen
    else if equal arg (text "--api-version")
    then api_version
    else if equal arg (text "--staging-root")
    then staging_root
    else unknown

abbrev pub invalid : Bytes → Parsed
invalid message = refused (make_error invalid_argument message)

-- `std::stoul`: the digits behind blanks and a sign; none where it throws
abbrev pub unsigned_of : Bytes → Option ℕ
unsigned_of digits =
    if is_empty digits || ltb 18446744073709551615 (value 0 digits)
    then none
    else some (value 0 digits)

abbrev pub negated : Option ℕ → Option ℕ
negated none = none
negated (some n) = some ((18446744073709551616 - n) % 18446744073709551616)

abbrev pub signed_of : Bytes → Option ℕ
signed_of [] = none
signed_of (c ∷ rest) =
    if c == b'-'
    then negated (unsigned_of (take_while is_digit rest))
    else if c == b'+'
    then unsigned_of (take_while is_digit rest)
    else unsigned_of (take_while is_digit (c ∷ rest))

unfoldable pub stoul : Bytes → Option ℕ
stoul input = signed_of (drop_while is_space input)

abbrev pub with_port : Config → Bytes → Option ℕ → Parsed
with_port config host none = thrown
with_port config host (some port) =
    if port == 0 || ltb 65535 port
    then invalid (text "listen port is out of range")
    else configured (record config { host = host; port = port })

-- `value` around its last `:`; the part behind it is cut off backwards
abbrev pub listen_at : Config → Bytes → Parsed
listen_at config address =
    let port = reverse (take_while (λ c. not (c == b':')) (reverse address)) in
    if length port == length address
    then invalid (text "--listen must be HOST:PORT")
    else with_port config (take (length address - suc (length port)) address) (stoul port)

abbrev pub and_then : Parsed → (Config → Parsed) → Parsed
and_then (configured config) next = next config
and_then (refused e) next = refused e
and_then helped next = helped
and_then thrown next = thrown

abbrev pub missing : Bytes → Parsed
missing arg = invalid (arg ++ text " requires a value")

abbrev pub not_known : Bytes → Parsed
not_known arg = invalid (text "unknown argument: " ++ arg)

-- the loop over the arguments behind the name of the program
pub argument_loop : List Bytes → Config → Parsed
argument_loop [] config = configured config
argument_loop (arg ∷ []) config = elim (flag_of arg) [
  | help ↦ helped
  | execute ↦ configured (record config { dry_run = false })
  | no_socket_validation ↦ configured (record config { validate_socket = false })
  | listen ↦ missing arg
  | api_version ↦ missing arg
  | staging_root ↦ missing arg
  | unknown ↦ not_known arg
]
argument_loop (arg ∷ next ∷ args) config = elim (flag_of arg) [
  | help ↦ helped
  | execute ↦ argument_loop (next ∷ args) (record config { dry_run = false })
  | no_socket_validation ↦ argument_loop (next ∷ args) (record config { validate_socket = false })
  | listen ↦ and_then (listen_at config next) (argument_loop args)
  | api_version ↦ argument_loop args (record config { api_version = next })
  | staging_root ↦ argument_loop args (record config { staging_root = next })
  | unknown ↦ not_known arg
]

unfoldable pub parse_args : List Bytes → Parsed
unfolding argument_loop
parse_args args = argument_loop args default_config
