-- ===== src/Http/RoundTrip.antt =====
-- `url_decode_component` undoes `url_encode_component`.
use pod_installer.Base.{
  ℕ, ◌/◌, ◌%◌, ◌<◌, Bool, true, [], ◌∷◌, ◌++◌, none, some, ◌≡◌, ap, ◌∙◌, arith, Bytes, IsBytes,
  Bool-cases, inl, inr, append_assoc, append-nil,
}
use pod_installer.Error.{ok}
use pod_installer.Http.{
  is_unreserved, encode_byte, url_encode_component, hex_digit, hex_value, escaped_byte, copied_byte,
  decode_loop, url_decode_component,
}
use pod_installer.Http.Encode.{encoded, url_encode_component-encoded}
use pod_installer.Http.Decode.{decode_loop-copied, decode_loop-escaped}

hex_value-hex_digit : (d : ℕ) → d < 16 → hex_value (hex_digit d) ≡ some d
unfolding hex_value
hex_value-hex_digit d h = ground arith

copied_byte-is_unreserved :
    (plus : Bool) (c : ℕ) → is_unreserved c ≡ true → copied_byte plus c ≡ some c
unfolding copied_byte is_unreserved
copied_byte-is_unreserved plus c h = ground arith

copied_byte-percent : (plus : Bool) → copied_byte plus b'%' ≡ none
unfolding copied_byte
copied_byte-percent plus = ground arith

escaped_byte-hex_digit :
    (c : ℕ)
    → c < 256
    → escaped_byte (hex_value (hex_digit (c / 16))) (hex_value (hex_digit (c % 16))) ≡ some c
unfolding escaped_byte
escaped_byte-hex_digit c h =
    rw (hex_value-hex_digit (c / 16) (omega arith), hex_value-hex_digit (c % 16) (omega arith))
      (ap some (omega arith))

decode_loop-encode_byte :
    (plus : Bool) (c : ℕ) (rest out : Bytes)
    → c < 256
    → decode_loop plus (encode_byte c ++ rest) out ≡ decode_loop plus rest (out ++ c ∷ [])
unfolding encode_byte
decode_loop-encode_byte plus c rest out h = elim (Bool-cases (is_unreserved c)) [
  | inl free ↦ rw free (decode_loop-copied plus c rest out (copied_byte-is_unreserved plus c free))
  | inr reserved ↦ rw reserved (
      decode_loop-escaped plus b'%' _ _ rest out (copied_byte-percent plus)
        (escaped_byte-hex_digit c h))
]

decode_loop-encoded :
    (plus : Bool) (input out : Bytes)
    → IsBytes input
    → decode_loop plus (encoded input) out ≡ ok (out ++ input)
decode_loop-encoded plus [] out h = unfold decode_loop in rw append-nil
decode_loop-encoded plus (c ∷ input) out (hc, h) =
    decode_loop-encode_byte plus c (encoded input) out hc
    ∙ decode_loop-encoded plus input (out ++ c ∷ []) h
    ∙ rw append_assoc

-- Whatever bytes are encoded, decoding gives them back, whether or not '+' stands for a blank.
pub url_decode_component-url_encode_component :
    (input : Bytes) (plus_as_space : Bool)
    → IsBytes input
    → url_decode_component (url_encode_component input) plus_as_space ≡ ok input
unfolding url_decode_component
url_decode_component-url_encode_component input plus h =
    rw url_encode_component-encoded (decode_loop-encoded plus input [] h)
