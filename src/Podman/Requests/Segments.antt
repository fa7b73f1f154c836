-- ===== src/Podman/Requests/Segments.antt =====
-- The segments of a path in a URL, and which of them a server or a client removes.
use pod_installer.Base.{
  ℕ, Bool, true, false, not, ◌||◌, List, [], ◌∷◌, ◌++◌, ◌≡◌, refl, arith, Bool-cases, inl, inr,
  is_empty, equal_iff, Bytes, All, IsBytes, ◌==◌, if◌then◌else◌,
}
use pod_installer.Error.{ok}
use pod_installer.FilePath.{cons_byte, is_dot, is_dot_dot}
use pod_installer.FilePath.Normal.{is_plain}
use pod_installer.Http.{url_encode_component, url_decode_component}
use pod_installer.Http.RoundTrip.{url_decode_component-url_encode_component}

-- A segment of a path ends at a slash, at the query or at the fragment.
abbrev pub is_segment_byte : ℕ → Bool
is_segment_byte c = not (c == b'/' || c == b'?' || c == b'#')

-- the segments of a path, up to the query or the fragment
unfoldable pub segments : Bytes → List Bytes
segments [] = [] ∷ []
segments (c ∷ path) =
    let rest = segments path in
    if c == b'/' then [] ∷ rest else if is_segment_byte c then cons_byte c rest else [] ∷ []

abbrev pub parent : List Bytes → List Bytes
parent [] = []
parent (name ∷ above) = above

-- one segment below others, the last of which comes first
abbrev pub below_segment : List Bytes → Bytes → List Bytes
below_segment above name =
    if is_empty name || is_dot name
    then above
    else if is_dot_dot name
    then parent above
    else name ∷ above

-- What a server or a client that removes the dot segments of RFC 3986 and the empty ones makes of
-- the segments below others, the last segment first.
unfoldable pub resolved : List Bytes → List Bytes → List Bytes
resolved above [] = above
resolved above (name ∷ names) = resolved (below_segment above name) names

abbrev pub behind_segment : ℕ → Bytes → List Bytes
behind_segment y rest = if y == b'/' then segments rest else []

pub segments-stops :
    (segment : Bytes) (y : ℕ) (rest : Bytes)
    → All (λ c. is_segment_byte c ≡ true) segment
    → is_segment_byte y ≡ false
    → segments (segment ++ y ∷ rest) ≡ segment ∷ behind_segment y rest
unfolding segments
segments-stops [] y rest h end = ground arith
segments-stops (c ∷ segment) y rest (hc, h) end =
    let inner : (c == b'/') ≡ false = ground arith in
    let query : (c == b'?') ≡ false = ground arith in
    let fragment : (c == b'#') ≡ false = ground arith in
    rw (segments-stops segment y rest h end, inner, query, fragment) refl

dots-decoded :
    (url_decode_component [] false ≡ ok [])
    × (url_decode_component (b'.' ∷ []) false ≡ ok (b'.' ∷ []))
    × (url_decode_component (b'.' ∷ b'.' ∷ []) false ≡ ok (b'.' ∷ b'.' ∷ []))
unfolding url_decode_component
dots-decoded = (refl, refl, refl)

-- an empty segment and a dot segment decode to themselves
removed-decoded :
    (segment : Bytes) → is_plain segment ≡ false → url_decode_component segment false ≡ ok segment
removed-decoded [] h = dots-decoded.0
removed-decoded (c ∷ segment) h = elim (Bool-cases (is_dot (c ∷ segment))) [
  | inl dot ↦ rw ((equal_iff (c ∷ segment) (b'.' ∷ [])).0 dot) dots-decoded.1
  | inr other ↦
      let dots : is_dot_dot (c ∷ segment) ≡ true = ground arith in
      rw ((equal_iff (c ∷ segment) (b'.' ∷ b'.' ∷ [])).0 dots) dots-decoded.2
]

-- what is written for a name is neither empty nor a dot segment, where the name is not
pub encoded-plain :
    (name : Bytes)
    → IsBytes name
    → is_plain name ≡ true
    → is_plain (url_encode_component name) ≡ true
encoded-plain name h plain = elim (Bool-cases (is_plain (url_encode_component name))) [
  | inl kept ↦ kept
  | inr removed ↦
      let itself = removed-decoded (url_encode_component name) removed in
      let back = url_decode_component-url_encode_component name false h in
      let same : url_encode_component name ≡ name = cc in rw same plain
]

pub below_segment-plain :
    (above : List Bytes) (name : Bytes)
    → is_plain name ≡ true
    → below_segment above name ≡ name ∷ above
below_segment-plain above name h = ground arith
