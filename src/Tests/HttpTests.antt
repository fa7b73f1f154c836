-- ===== src/Tests/HttpTests.antt =====
-- Requests for a path with odd bytes in it, and responses with several headers.
use pod_installer.Base.{
  true, false, [], ◌∷◌, some, ◌≡◌, ◌↔◌, refl, Bytes, text, equal, IsBytes, is_alnum, is_digit,
  to_lower, less, arith,
}
use pod_installer.Error.{ok, err, make_error, invalid_argument}
use pod_installer.Http.{
  HttpResponse, header, is_unreserved, encode_byte, url_encode_component, hex_value,
  url_decode_component,
}
use pod_installer.Http.Decode.{Decodes, url_decode_component-Decodes}
use pod_installer.Http.RoundTrip.{url_decode_component-url_encode_component}

abbrev odd_name : Bytes
odd_name = 0 ∷ b'/' ∷ b'a' ∷ b' ' ∷ b'%' ∷ 255 ∷ []

odd_name-IsBytes : IsBytes odd_name
odd_name-IsBytes =
    (omega arith, (omega arith, (omega arith, (omega arith, (omega arith, (omega arith, tt))))))

sample_encodings :
    (url_encode_component odd_name ≡ text "%00%2Fa%20%25%FF")
    × (url_decode_component (text "a%2fb+c") true ≡ ok (text "a/b c"))
    × (url_decode_component (text "a%2") true
        ≡ err (make_error invalid_argument (text "incomplete percent escape in URL component")))
    × (url_decode_component (text "%%41") false
        ≡ err (make_error invalid_argument (text "invalid percent escape in URL component")))
unfolding url_encode_component url_decode_component is_unreserved encode_byte hex_value text
    is_alnum is_digit
sample_encodings = (refl, refl, refl, refl)

url_decode_component-url_encode_component_example :
    url_decode_component (url_encode_component odd_name) true ≡ ok odd_name
url_decode_component-url_encode_component_example =
    url_decode_component-url_encode_component odd_name true odd_name-IsBytes

url_decode_component-Decodes_example :
    (url_decode_component (text "a%2fb+c") true ≡ ok (text "a/b c"))
    ↔ Decodes true (text "a%2fb+c") (text "a/b c")
url_decode_component-Decodes_example =
    url_decode_component-Decodes (text "a%2fb+c") true (text "a/b c")

abbrev sample_response : HttpResponse
sample_response = record {
  status = 200;
  body = text "{}";
  headers =
      (text "Libpod-API-Version", text "5.0.0")
      ∷ (text "Content-Type", text "application/json")
      ∷ (text "CONTENT-TYPE", text "text/plain")
      ∷ [];
}

sample_header : header sample_response (text "content-type") ≡ some (text "application/json")
unfolding header text equal to_lower less
sample_header = refl
