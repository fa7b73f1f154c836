-- ===== src/Http/Encode.antt =====
-- What `url_encode_component` writes.
use pod_installer.Base.{
  ℕ, ◌/◌, ◌%◌, ◌<◌, Bool, true, ◌||◌, [], ◌∷◌, ◌++◌, ◌≡◌, sym, arith, Bytes, IsBytes, ◌==◌, All,
  All-append, append_assoc, append-nil,
}
use pod_installer.Http.{is_unreserved, encode_byte, encode_loop, url_encode_component, hex_digit}

-- the encoding with no accumulator
abbrev pub encoded : Bytes → Bytes
encoded [] = []
encoded (c ∷ input) = encode_byte c ++ encoded input

encode_loop-encoded : (input out : Bytes) → encode_loop input out ≡ out ++ encoded input
unfolding encode_loop
encode_loop-encoded [] out = sym (append-nil out)
encode_loop-encoded (c ∷ input) out = simp (encode_loop-encoded input, append_assoc)

pub url_encode_component-encoded : (input : Bytes) → url_encode_component input ≡ encoded input
unfolding url_encode_component
url_encode_component-encoded input = encode_loop-encoded input []

-- a byte with no meaning to a URL but its own, or the start of an escape
abbrev pub is_component_byte : ℕ → Bool
is_component_byte c = is_unreserved c || c == b'%'

hex_digit-is_unreserved : (d : ℕ) → d < 16 → is_unreserved (hex_digit d) ≡ true
unfolding is_unreserved
hex_digit-is_unreserved d h = ground arith

encode_byte-is_component_byte :
    (c : ℕ) → c < 256 → All (λ x. is_component_byte x ≡ true) (encode_byte c)
unfolding encode_byte
encode_byte-is_component_byte c h = ground (
  arith,
  hex_digit-is_unreserved (c / 16) (omega arith),
  hex_digit-is_unreserved (c % 16) (omega arith),
)

encoded-is_component_byte :
    (input : Bytes) → IsBytes input → All (λ x. is_component_byte x ≡ true) (encoded input)
encoded-is_component_byte [] h = tt
encoded-is_component_byte (c ∷ input) (hc, h) =
    All-append _ (encode_byte c) (encoded input) (encode_byte-is_component_byte c hc)
      (encoded-is_component_byte input h)

-- The encoding of any bytes holds unreserved characters and '%' alone: no '/', '?', '#', '&',
-- '=', quote, blank or control character of a name reaches the path of a request.
pub url_encode_component-is_component_byte :
    (input : Bytes)
    → IsBytes input
    → All (λ x. is_component_byte x ≡ true) (url_encode_component input)
url_encode_component-is_component_byte input h =
    rw url_encode_component-encoded (encoded-is_component_byte input h)
