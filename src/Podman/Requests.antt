-- ===== src/Podman/Requests.antt =====
-- Which container the requests of `start_container`, `stop_container` and `remove_container`
-- name to a server that splits their path.
pub mod Segments
use pod_installer.Base.{
  All-map, take_while-stops, drop_while-stops, ℕ, Bool, true, false, not, ◌||◌, List, [], ◌∷◌, ◌++◌,
  ◌≡◌, refl, sym, ap, ◌∙◌, arith, Bool-cases, inl, inr, is_empty, equal, equal_iff, Bytes, text,
  All, IsBytes, ◌==◌, length, drop, take_while, drop_while, drop-append_length, starts_with,
  starts_with-append, append_assoc, if◌then◌else◌,
}
use pod_installer.Base.Decimal.{to_string}
use pod_installer.Error.{ok}
use pod_installer.FilePath.{cons_byte, is_dot, is_dot_dot}
use pod_installer.FilePath.Normal.{is_plain}
use pod_installer.Http.{url_encode_component, url_decode_component, is_unreserved}
use pod_installer.Http.Encode.{is_component_byte, url_encode_component-is_component_byte}
use pod_installer.Http.RoundTrip.{url_decode_component-url_encode_component}
use pod_installer.Podman.Requests.Segments.{
  is_segment_byte, segments, below_segment, resolved, behind_segment, segments-stops, encoded-plain,
  below_segment-plain,
}
use pod_installer.Target.{PodmanTarget}
use pod_installer.Podman.{versioned_path, start_request, stop_request, remove_request}

-- the path of all containers
abbrev pub containers : PodmanTarget → Bytes
containers target = versioned_path target (text "/libpod/containers/")

-- `path` is below `containers`, its next segment decodes to `name`, and `rest` is behind it.
-- Whatever is above, no segment of the path is removed: it ends in that segment and `action`.
pub record Addresses (target : PodmanTarget) (path name rest : Bytes) (action : List Bytes)
    : Type 0 where
  pub below : starts_with path (containers target) ≡ true
  pub named :
      url_decode_component
        (take_while is_segment_byte (drop (length (containers target)) path))
        false
      ≡ ok name
  pub behind : drop_while is_segment_byte (drop (length (containers target)) path) ≡ rest
  pub kept :
      (above : List Bytes)
      → resolved above (segments (drop (length (containers target)) path))
        ≡ action ++ take_while is_segment_byte (drop (length (containers target)) path) ∷ above

component_byte-is_segment_byte : (c : ℕ) → is_component_byte c ≡ true → is_segment_byte c ≡ true
unfolding is_unreserved
component_byte-is_segment_byte c h = ground arith

-- what is written for a name stays in one segment
encoded-segment :
    (name : Bytes) → IsBytes name → All (λ c. is_segment_byte c ≡ true) (url_encode_component name)
encoded-segment name h =
    All-map _ _ (url_encode_component name) component_byte-is_segment_byte
      (url_encode_component-is_component_byte name h)

-- a path below another
versioned_path-append :
    (target : PodmanTarget) (path : Bytes)
    → versioned_path target (text "/libpod/containers/" ++ path) ≡ containers target ++ path
unfolding versioned_path text starts_with
versioned_path-append target path = sym (append_assoc _ (text "/libpod/containers/") path)

below_containers :
    (target : PodmanTarget) {p q : Bytes}
    → p ≡ q
    → versioned_path target (text "/libpod/containers/" ++ p)
      ≡ versioned_path target (text "/libpod/containers/" ++ q)
below_containers target h = ap (λ p. versioned_path target (text "/libpod/containers/" ++ p)) h

module _ (target : PodmanTarget) (name : Bytes) (bytes : IsBytes name)
    (plain : is_plain name ≡ true) where
  kept_lem :
      (rest : Bytes) (y : ℕ) (action above : List Bytes)
      → is_segment_byte y ≡ false
      → ((above : List Bytes) → resolved above (behind_segment y rest) ≡ action ++ above)
      → resolved above (segments (url_encode_component name ++ y ∷ rest))
        ≡ action ++ url_encode_component name ∷ above
  unfolding resolved
  kept_lem rest y action above end last =
      let segment = url_encode_component name in
      ap (resolved above) (segments-stops segment y rest (encoded-segment name bytes) end)
      ∙ ap (λ names. resolved names (behind_segment y rest))
          (below_segment-plain above segment (encoded-plain name bytes plain))
      ∙ last (segment ∷ above)

  addressed :
      (rest path : Bytes) (y : ℕ) (action : List Bytes)
      → is_segment_byte y ≡ false
      → ((above : List Bytes) → resolved above (behind_segment y rest) ≡ action ++ above)
      → path
        ≡ versioned_path target
            (text "/libpod/containers/" ++ (url_encode_component name ++ y ∷ rest))
      → Addresses target path name (y ∷ rest) action
  addressed rest path y action end last shape =
      let free = encoded-segment name bytes in
      let stops = take_while-stops is_segment_byte (url_encode_component name) y rest free end in
      rw (shape, versioned_path-append)
        (record {
          below = starts_with-append (containers target) (url_encode_component name ++ y ∷ rest);
          named =
              rw (drop-append_length, stops)
                (url_decode_component-url_encode_component name false bytes);
          behind =
              rw drop-append_length
                (drop_while-stops is_segment_byte (url_encode_component name) y rest free end);
          kept = λ above. rw (drop-append_length, stops) (kept_lem rest y action above end last);
        })

  -- The requests to start, stop and remove a container name just this container, whatever bytes
  -- its name has, if it is neither empty nor "." or "..": the segment behind the path of all
  -- containers decodes to the name, and behind it stands the rest that the source writes. Where
  -- empty and dot segments are removed from the path, all these segments are kept, whatever is
  -- above, so no such name reaches another path or adds to the query.
  pub container_requests-Addresses :
      (timeout_seconds : ℕ) (force : Bool)
      → Addresses target (start_request target name).path name (text "/start") (text "start" ∷ [])
        × Addresses target
            (stop_request target name timeout_seconds).path
            name
            (text "/stop?timeout=" ++ to_string timeout_seconds)
            (text "stop" ∷ [])
        × Addresses target
            (remove_request target name force).path
            name
            (text "?force=" ++ (if force then text "true" else text "false"))
            []
  unfolding start_request stop_request remove_request text resolved segments equal
  container_requests-Addresses timeout_seconds force = (
    addressed _ _ b'/' (text "start" ∷ []) (ground arith) (λ above. refl) refl,
    addressed _ _ b'/' (text "stop" ∷ []) (ground arith) (λ above. refl)
        (below_containers target
          (append_assoc (url_encode_component name) (text "/stop?timeout=") _)),
    addressed _ _ b'?' [] (ground arith) (λ above. refl)
        (below_containers target (append_assoc (url_encode_component name) (text "?force=") _)),
  )
