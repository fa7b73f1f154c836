-- ===== src/Service/Params.antt =====
-- A query that is put together of encoded parameters is read back as these.
use mathlib.Core.Option.{get_or}
use pod_installer.Base.{
  ℕ, true, false, ◌==◌, List, [], ◌∷◌, ◌++◌, map, Option, none, some, ◌≡◌, refl, sym, ap, ◌∙◌,
  arith, Bytes, IsBytes, take-append_length, drop-append_cons, find-append, equal, equal_iff,
  pieces, pieces-append, pieces-Lacks, All, All-map, All-append, Lacks, append_assoc, append-nil,
  is_alnum, Bool-cases, inl, inr, if◌then◌else◌,
}
use pod_installer.Base.Maps.{Map, lookup, modify, lookup-modify}
use pod_installer.Error.{ok}
use pod_installer.Http.{is_unreserved, url_encode_component}
use pod_installer.Http.Encode.{is_component_byte, url_encode_component-is_component_byte}
use pod_installer.Http.RoundTrip.{url_decode_component-url_encode_component}
use pod_installer.Service.{Query, all_of, many, push_back, add_part, add_parts, parse_query}

abbrev pub Pair : Type 0
Pair = Bytes × Bytes

unfoldable pub part_of : Pair → Bytes
part_of (key, value) = url_encode_component key ++ b'=' ∷ url_encode_component value

unfoldable pub query_text : List Pair → Bytes
query_text [] = []
query_text (pair ∷ []) = part_of pair
query_text (pair ∷ next ∷ pairs) = part_of pair ++ b'&' ∷ query_text (next ∷ pairs)

-- the values of a key, in order
unfoldable pub values_for : Bytes → List Pair → List Bytes
values_for key [] = []
values_for key ((k, v) ∷ pairs) =
    let rest = values_for key pairs in if equal k key then v ∷ rest else rest

abbrev pub AreBytes : List Pair → Type 0
AreBytes = All (λ pair. IsBytes pair.0 × IsBytes pair.1)

encoded-Lacks :
    (c : ℕ) (input : Bytes)
    → is_component_byte c ≡ false
    → IsBytes input
    → Lacks c (url_encode_component input)
encoded-Lacks c input special h =
    All-map (λ x. is_component_byte x ≡ true) (λ x. (x == c) ≡ false) (url_encode_component input)
      (λ x fine. ground arith) (url_encode_component-is_component_byte input h)

add_part-part_of :
    (pair : Pair) (params : Map (List Bytes))
    → IsBytes pair.0
    → IsBytes pair.1
    → add_part (part_of pair) params ≡ ok (modify pair.0 [] (push_back pair.1) params)
unfolding part_of is_unreserved
add_part-part_of (key, value) params hk hv =
    let front = url_encode_component key in
    let back = url_encode_component value in
    rw (
      find-append b'=' front back (encoded-Lacks b'=' key (unfold is_alnum in refl) hk),
      take-append_length front (b'=' ∷ back),
      drop-append_cons front back b'=',
      url_decode_component-url_encode_component key true hk,
      url_decode_component-url_encode_component value true hv,
    )

part_of-Lacks :
    (pair : Pair) (c : ℕ)
    → is_component_byte c ≡ false
    → (b'=' == c) ≡ false
    → IsBytes pair.0
    → IsBytes pair.1
    → Lacks c (part_of pair)
unfolding part_of
part_of-Lacks (key, value) c special apart hk hv =
    All-append (λ x. (x == c) ≡ false) (url_encode_component key)
      (b'=' ∷ url_encode_component value) (encoded-Lacks c key special hk)
      (apart, encoded-Lacks c value special hv)

whole_piece :
    (front back : Bytes)
    → Lacks b'&' (front ++ b'=' ∷ back)
    → pieces b'&' (front ++ b'=' ∷ back) ≡ (front ++ b'=' ∷ back) ∷ []
whole_piece [] back h = pieces-Lacks b'&' b'=' back h
whole_piece (c ∷ front) back h = pieces-Lacks b'&' c (front ++ b'=' ∷ back) h

pieces-query_text :
    (pairs : List Pair) → AreBytes pairs → pieces b'&' (query_text pairs) ≡ map part_of pairs
unfolding query_text part_of
pieces-query_text [] h = refl
pieces-query_text ((k, v) ∷ []) ((hk, hv), _) =
    whole_piece (url_encode_component k) (url_encode_component v)
      (part_of-Lacks (k, v) b'&' (unfold is_unreserved is_alnum in refl) refl hk hv)
pieces-query_text (pair ∷ next ∷ pairs) ((hk, hv), h) =
    pieces-append b'&' (part_of pair) (query_text (next ∷ pairs))
      (part_of-Lacks pair b'&' (unfold is_unreserved is_alnum in refl) refl hk hv)
    ∙ ap (◌∷◌ (part_of pair)) (pieces-query_text (next ∷ pairs) h)

all_of-push_back :
    (value : Bytes) (o : Option (List Bytes))
    → push_back value (get_or o []) ≡ all_of o ++ value ∷ []
all_of-push_back value none = refl
all_of-push_back value (some values) = refl

all_of-modify :
    (key k value : Bytes) (params : Map (List Bytes))
    → all_of (lookup key (modify k [] (push_back value) params)) ≡ (
        if equal k key
        then all_of (lookup key params) ++ value ∷ []
        else all_of (lookup key params))
all_of-modify key k value params = elim (Bool-cases (equal k key)) [
  | inl same ↦
      rw (lookup-modify key k [] (push_back value) params, same, (equal_iff k key).0 same)
        (all_of-push_back value (lookup key params))
  | inr other ↦ rw (lookup-modify key k [] (push_back value) params, other)
]

one_more :
    (key k v : Bytes) (pairs : List Pair) (params : Map (List Bytes))
    → all_of (lookup key (modify k [] (push_back v) params)) ++ values_for key pairs
      ≡ all_of (lookup key params) ++ values_for key ((k, v) ∷ pairs)
unfolding values_for
one_more key k v pairs params = elim (Bool-cases (equal k key)) [
  | inl same ↦
      rw (all_of-modify key k v params, same)
        (append_assoc (all_of (lookup key params)) (v ∷ []) (values_for key pairs))
  | inr other ↦ rw (all_of-modify key k v params, other)
]

add_parts-values_for :
    (pairs : List Pair) (params : Map (List Bytes))
    → AreBytes pairs
    → (after : Map (List Bytes)) × (add_parts (map part_of pairs) params ≡ ok after)
      × ((key : Bytes)
          → all_of (lookup key after) ≡ all_of (lookup key params) ++ values_for key pairs)
unfolding add_parts values_for
add_parts-values_for [] params h = (params, refl, λ key. sym (append-nil _))
add_parts-values_for ((k, v) ∷ pairs) params ((hk, hv), h) =
    let next = modify k [] (push_back v) params in
    let (after, added, held) = add_parts-values_for pairs next h in
    (
      after,
      rw (add_part-part_of (k, v) params hk hv) added,
      λ key. held key ∙ one_more key k v pairs params,
    )

-- A target of a path, '?' and encoded parameters, joined by '=' and '&', is read as this path
-- and, for each key, the values that were given for it, in order, whatever bytes they hold.
pub many-parse_query :
    (path : Bytes) (pairs : List Pair)
    → Lacks b'?' path
    → AreBytes pairs
    → (query : Query) × (parse_query (path ++ b'?' ∷ query_text pairs) ≡ ok query)
      × (query.path ≡ path)
      × ((key : Bytes) → many query key ≡ values_for key pairs)
unfolding parse_query many
many-parse_query path pairs bare h =
    let (params, added, held) = add_parts-values_for pairs [] h in
    (
      record { path = path; params = params },
      rw (
        find-append b'?' path (query_text pairs) bare,
        drop-append_cons path (query_text pairs) b'?',
        take-append_length path (b'?' ∷ query_text pairs),
        pieces-query_text pairs h,
        added,
      ),
      refl,
      λ key. held key ∙ unfold lookup in refl,
    )
