-- ===== src/Podman/Fields.antt =====
-- The lines of a response that `write_header` gets, and the headers that it keeps of them.
use mathlib.Core.List.{reverse-append, reverse-reverse}
use pod_installer.Base.{
  All-reverse, drop_while-append, ℕ, true, false, suc, List, [], ◌∷◌, ◌++◌, map, reverse, some, ◌≡◌,
  sym, ap, ◌∙◌, arith, Bytes, All, Lacks, length, take, drop, drop_while, find, find-append,
  find-Lacks, take-append_length, drop-append_cons, append_assoc, append-nil,
}
use pod_installer.Error.{ok}
use pod_installer.Podman.{
  with_pair, is_header_blank, is_header_end, trim_header_value, write_header, add_headers,
  joined_body, curl_ok, finish_perform,
}

-- a field of a response, with the blanks around its value
pub record Field : Type 0 where
  pub name : Bytes
  pub front : Bytes
  pub value : Bytes
  pub back : Bytes

abbrev crlf : Bytes
crlf = b'\r' ∷ b'\n' ∷ []

-- `name: value` and the end of the line
abbrev pub field_line : Field → Bytes
field_line field = field.name ++ b':' ∷ (field.front ++ (field.value ++ (field.back ++ crlf)))

abbrev pub field_pair : Field → Bytes × Bytes
field_pair field = (field.name, field.value)

-- The name has no colon, and the value begins with no blank and ends with neither a blank nor
-- the end of a line.
pub record IsField (field : Field) : Type 0 where
  pub plain_name : Lacks b':' field.name
  pub front_blank : All (λ c. is_header_blank c ≡ true) field.front
  pub back_blank : All (λ c. is_header_blank c ≡ true) field.back
  pub first : ℕ
  pub rest : Bytes
  pub begins : field.value ≡ first ∷ rest
  pub first_kept : is_header_blank first ≡ false
  pub last : ℕ
  pub before : Bytes
  pub stops : reverse field.value ≡ last ∷ before
  pub last_kept : is_header_end last ≡ false

blank-ends :
    (xs : Bytes)
    → All (λ c. is_header_blank c ≡ true) xs
    → All (λ c. is_header_end c ≡ true) (xs ++ crlf)
blank-ends [] h = (ground arith, (ground arith, tt))
blank-ends (x ∷ xs) (hx, h) = (ground arith, blank-ends xs h)

kept_front :
    (field : Field) (f : IsField field) (t : Bytes)
    → drop_while is_header_blank (field.value ++ t) ≡ field.value ++ t
kept_front field f t = rw (f.begins, f.first_kept)

kept_back :
    (field : Field)
    → IsField field
    → drop_while is_header_end (reverse field.value) ≡ reverse field.value
kept_back field f = rw (f.stops, f.last_kept)

trim_header_value-value :
    (field : Field)
    → IsField field
    → trim_header_value (field.front ++ (field.value ++ (field.back ++ crlf))) ≡ field.value
unfolding trim_header_value
trim_header_value-value field f =
    rw
      (
        drop_while-append is_header_blank field.front _ f.front_blank,
        kept_front field f (field.back ++ crlf),
        reverse-append field.value (field.back ++ crlf),
        drop_while-append is_header_end (reverse (field.back ++ crlf)) (reverse field.value)
            (All-reverse _ _ (blank-ends field.back f.back_blank)),
        kept_back field f,
      )
      (reverse-reverse field.value)

write_header-colon :
    (headers : List (Bytes × Bytes)) (line : Bytes) (n : ℕ)
    → find b':' line ≡ some n
    → write_header headers line
      ≡ headers ++ (take n line, trim_header_value (drop (suc n) line)) ∷ []
unfolding write_header
write_header-colon headers line n h = ap (with_pair headers line) h

write_header-Lacks :
    (headers : List (Bytes × Bytes)) (line : Bytes)
    → Lacks b':' line
    → write_header headers line ≡ headers
unfolding write_header
write_header-Lacks headers line h = ap (with_pair headers line) (find-Lacks b':' line h)

write_header-field_line :
    (headers : List (Bytes × Bytes)) (field : Field)
    → IsField field
    → write_header headers (field_line field) ≡ headers ++ field_pair field ∷ []
write_header-field_line headers field f =
    let tail = field.front ++ (field.value ++ (field.back ++ crlf)) in
    write_header-colon headers (field_line field) (length field.name)
      (find-append b':' field.name tail f.plain_name)
    ∙ rw
        (take-append_length, drop-append_cons field.name tail b':', trim_header_value-value field f)

add_headers-field_line :
    (fields : List Field) (headers : List (Bytes × Bytes))
    → All IsField fields
    → add_headers headers (map field_line fields ++ crlf ∷ []) ≡ headers ++ map field_pair fields
add_headers-field_line [] headers h =
    write_header-Lacks headers crlf (ground arith) ∙ sym (append-nil headers)
add_headers-field_line (field ∷ fields) headers (f, h) =
    ap (λ kept. add_headers kept (map field_line fields ++ crlf ∷ []))
      (write_header-field_line headers field f)
    ∙ add_headers-field_line fields _ h
    ∙ append_assoc headers (field_pair field ∷ []) (map field_pair fields)

-- Of a response whose status line has no colon, whose lines are then fields, and an empty line
-- at last, just the fields are kept, all of them in their order, each with its name, and its
-- value without the blanks around it.
pub finish_perform-field_line :
    (status : ℕ) (chunks : List Bytes) (status_line : Bytes) (fields : List Field)
    → Lacks b':' status_line
    → All IsField fields
    → finish_perform (curl_ok status chunks (status_line ∷ map field_line fields ++ crlf ∷ []))
      ≡ ok (record { status = status; body = joined_body chunks; headers = map field_pair fields })
unfolding finish_perform
finish_perform-field_line status chunks status_line fields plain h =
    ap (λ kept. ok (record { status = status; body = joined_body chunks; headers = kept }))
      (ap (λ kept. add_headers kept (map field_line fields ++ crlf ∷ []))
          (write_header-Lacks [] status_line plain)
        ∙ add_headers-field_line fields [] h)
