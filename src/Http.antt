-- ===== src/Http.antt =====
-- src/http.cpp and include/pod_installer/http.hpp: requests and responses, header lookup and
-- the percent encoding of URL components.
pub mod Header
pub mod Encode
pub mod Decode
pub mod RoundTrip
use pod_installer.Base.{
  ℕ, ◌+◌, ◌-◌, ◌*◌, ◌/◌, ◌%◌, Bool, true, false, not, ◌&&◌, ◌||◌, List, [], ◌∷◌, ◌++◌, map, Option,
  none, some, Bytes, text, equal, ltb, ◌==◌, if◌then◌else◌, is_alnum, to_lower, within,
}
use pod_installer.Error.{Result, ok, err, fail, invalid_argument}

pub record HttpRequest : Type 0 where
  pub method : Bytes
  pub path : Bytes
  pub headers : List Bytes
  pub body : Option Bytes

pub record HttpResponse : Type 0 where
  pub status : ℕ
  pub body : Bytes
  pub headers : List (Bytes × Bytes)

-- `lower_ascii`
abbrev pub lower_ascii : Bytes → Bytes
lower_ascii = map to_lower

-- the loop of `HttpResponse::header`
unfoldable pub find_header : Bytes → List (Bytes × Bytes) → Option Bytes
find_header wanted [] = none
find_header wanted ((key, value) ∷ rest) =
    if equal (lower_ascii key) wanted then some value else find_header wanted rest

-- `HttpResponse::header`
unfoldable pub header : HttpResponse → Bytes → Option Bytes
unfolding find_header
header response name = find_header (lower_ascii name) response.headers

unfoldable pub is_unreserved : ℕ → Bool
unfolding is_alnum
is_unreserved c = is_alnum c || c == b'-' || c == b'_' || c == b'.' || c == b'~'

-- one digit of `std::hex << std::uppercase`
abbrev pub hex_digit : ℕ → ℕ
hex_digit d = if ltb d 10 then b'0' + d else b'A' + (d - 10)

-- what `url_encode_component` writes for a byte
unfoldable pub encode_byte : ℕ → Bytes
unfolding is_unreserved
encode_byte c =
    if is_unreserved c then c ∷ [] else b'%' ∷ hex_digit (c / 16) ∷ hex_digit (c % 16) ∷ []

encode_loop : Bytes → Bytes → Bytes
encode_loop [] out = out
encode_loop (c ∷ input) out = encode_loop input (out ++ encode_byte c)

unfoldable pub url_encode_component : Bytes → Bytes
unfolding encode_loop encode_byte
url_encode_component input = encode_loop input []

-- `none` is the -1 of the source
unfoldable pub hex_value : ℕ → Option ℕ
hex_value c =
    if within b'0' b'9' c
    then some (c - b'0')
    else if within b'a' b'f' c
    then some (c - b'a' + 10)
    else if within b'A' b'F' c
    then some (c - b'A' + 10)
    else none

-- the byte of an escape, `(hi << 4) | lo`
pub escaped_byte : Option ℕ → Option ℕ → Option ℕ
escaped_byte (some hi) (some lo) = some (hi * 16 + lo)
escaped_byte _ _ = none

-- the byte that is appended where `c` starts no escape
pub copied_byte : Bool → ℕ → Option ℕ
copied_byte plus_as_space c =
    if c == b'+' && plus_as_space then some b' ' else if not (c == b'%') then some c else none

abbrev incomplete : Result Bytes
incomplete = fail invalid_argument (text "incomplete percent escape in URL component")

abbrev invalid : Result Bytes
invalid = fail invalid_argument (text "invalid percent escape in URL component")

-- The loop over `input[i]`. An escape needs the two bytes behind it, and skips them.
pub decode_loop : Bool → Bytes → Bytes → Result Bytes
decode_loop plus [] out = ok out
decode_loop plus (c ∷ []) out = elim (copied_byte plus c) [
  | some d ↦ ok (out ++ d ∷ [])
  | none ↦ incomplete
]
decode_loop plus (c ∷ h ∷ []) out = elim (copied_byte plus c) [
  | some d ↦ decode_loop plus (h ∷ []) (out ++ d ∷ [])
  | none ↦ incomplete
]
decode_loop plus (c ∷ h ∷ l ∷ rest) out = elim (copied_byte plus c) [
  | some d ↦ decode_loop plus (h ∷ l ∷ rest) (out ++ d ∷ [])
  | none ↦ elim (escaped_byte (hex_value h) (hex_value l)) [
    | some d ↦ decode_loop plus rest (out ++ d ∷ [])
    | none ↦ invalid
  ]
]

unfoldable pub url_decode_component : Bytes → Bool → Result Bytes
unfolding decode_loop copied_byte hex_value escaped_byte
url_decode_component input plus_as_space = decode_loop plus_as_space input []
