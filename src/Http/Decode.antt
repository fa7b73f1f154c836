-- ===== src/Http/Decode.antt =====
-- `url_decode_component` decides the grammar of percent-encoded text.
use pod_installer.Base.{
  ℕ, ◌+◌, ◌*◌, Bool, true, false, ◌&&◌, [], ◌∷◌, ◌++◌, Option, none, some, ◌≡◌, ◌≢◌, ◌↔◌, refl, sym,
  ap, ◌∙◌, arith, Bytes, ◌==◌, Bool-cases, Option-cases, append_assoc, append-nil, inl, inr,
}
use pod_installer.Error.{ok}
use pod_installer.Http.{hex_value, escaped_byte, copied_byte, decode_loop, url_decode_component}

-- `Decodes plus input output`: the input is plain bytes, escapes of two hexadecimal digits and,
-- with the flag, '+' for a blank; and the output is the bytes that these stand for.
pub data Decodes (plus : Bool) : Bytes → Bytes → Type 0 where
  done : Decodes plus [] []
  plain :
      {c : ℕ} {rest out : Bytes}
      → c ≢ b'%'
      → (plus ≡ true → c ≢ b'+')
      → Decodes plus rest out
      → Decodes plus (c ∷ rest) (c ∷ out)
  blank :
      {c d : ℕ} {rest out : Bytes}
      → plus ≡ true
      → c ≡ b'+'
      → d ≡ b' '
      → Decodes plus rest out
      → Decodes plus (c ∷ rest) (d ∷ out)
  escape :
      {c h l d : ℕ} {rest out : Bytes} (hi lo : ℕ)
      → c ≡ b'%'
      → hex_value h ≡ some hi
      → hex_value l ≡ some lo
      → d ≡ hi * 16 + lo
      → Decodes plus rest out
      → Decodes plus (c ∷ h ∷ l ∷ rest) (d ∷ out)

-- a byte that starts no escape is copied, whatever stands behind it
pub decode_loop-copied :
    (plus : Bool) (c : ℕ) (rest out : Bytes) {d : ℕ}
    → copied_byte plus c ≡ some d
    → decode_loop plus (c ∷ rest) out ≡ decode_loop plus rest (out ++ d ∷ [])
unfolding decode_loop
decode_loop-copied plus c [] out h = ground arith
decode_loop-copied plus c (x ∷ []) out h = ground arith
decode_loop-copied plus c (x ∷ y ∷ rest) out h = ground arith

pub decode_loop-escaped :
    (plus : Bool) (c h l : ℕ) (rest out : Bytes) {d : ℕ}
    → copied_byte plus c ≡ none
    → escaped_byte (hex_value h) (hex_value l) ≡ some d
    → decode_loop plus (c ∷ h ∷ l ∷ rest) out ≡ decode_loop plus rest (out ++ d ∷ [])
unfolding decode_loop
decode_loop-escaped plus c h l rest out copied escaped = ground arith

copied_byte-plain :
    (plus : Bool) (c : ℕ) → c ≢ b'%' → (plus ≡ true → c ≢ b'+') → copied_byte plus c ≡ some c
unfolding copied_byte
copied_byte-plain true c ne_percent ne_plus = ground (arith, ne_plus refl)
copied_byte-plain false c ne_percent ne_plus = ground arith

copied_byte-plus : (plus : Bool) (c : ℕ) → plus ≡ true → c ≡ b'+' → copied_byte plus c ≡ some b' '
unfolding copied_byte
copied_byte-plus plus c flag e = ground arith

copied_byte-percent : (plus : Bool) (c : ℕ) → c ≡ b'%' → copied_byte plus c ≡ none
unfolding copied_byte
copied_byte-percent plus c e = ground arith

-- the text read so far stands in front of what the rest decodes to
decode_loop_complete :
    (plus : Bool) {input output : Bytes} (out : Bytes)
    → Decodes plus input output
    → decode_loop plus input out ≡ ok (out ++ output)
decode_loop_complete plus out done = unfold decode_loop in rw append-nil
decode_loop_complete plus out (plain {c} {rest} ne_percent ne_plus r) =
    decode_loop-copied plus c rest out (copied_byte-plain plus c ne_percent ne_plus)
    ∙ decode_loop_complete plus (out ++ c ∷ []) r
    ∙ rw append_assoc
decode_loop_complete plus out (blank {c} {d} {rest} flag e f r) =
    decode_loop-copied plus c rest out (copied_byte-plus plus c flag e ∙ ap some (sym f))
    ∙ decode_loop_complete plus (out ++ d ∷ []) r
    ∙ rw append_assoc
decode_loop_complete plus out (escape {c} {h} {l} {d} {rest} hi lo e eh el f r) =
    decode_loop-escaped plus c h l rest out (copied_byte-percent plus c e)
      (rw (eh, el) (unfold escaped_byte in ap some (sym f)))
    ∙ decode_loop_complete plus (out ++ d ∷ []) r
    ∙ rw append_assoc

Decodes-copied :
    (plus : Bool) (c d : ℕ) {rest out : Bytes}
    → copied_byte plus c ≡ some d
    → Decodes plus rest out
    → Decodes plus (c ∷ rest) (d ∷ out)
unfolding copied_byte
Decodes-copied plus c d h r = elim (Bool-cases (c == b'+' && plus)) [
  | inl both ↦ blank (ground arith) (ground arith) (ground arith) r
  | inr other ↦
      let e : c ≡ d = ground arith in rw (← e) (plain (ground arith) (λ flag. ground arith) r)
]

escaped_byte-eq_some :
    (x y : Option ℕ) {d : ℕ}
    → escaped_byte x y ≡ some d
    → (hi : ℕ) × (lo : ℕ) × (x ≡ some hi) × (y ≡ some lo) × (d ≡ hi * 16 + lo)
unfolding escaped_byte
escaped_byte-eq_some (some hi) (some lo) h = (hi, lo, refl, refl, ground arith)
escaped_byte-eq_some (some hi) none h = cc
escaped_byte-eq_some none y h = cc

module _ (plus : Bool) where
  abbrev Reads : Bytes → Bytes → Bytes → Type 0
  Reads input out output = (more : Bytes) × (output ≡ out ++ more) × Decodes plus input more

  -- one byte read by a step, and then the rest
  Reads-cons :
      (d : ℕ) (input rest out output : Bytes)
      → ((more : Bytes) → Decodes plus rest more → Decodes plus input (d ∷ more))
      → Reads rest (out ++ d ∷ []) output
      → Reads input out output
  Reads-cons d input rest out output step (more, e, r) =
      (d ∷ more, e ∙ append_assoc out (d ∷ []) more, step more r)

  Reads-copied :
      (c d : ℕ) (rest out output : Bytes)
      → copied_byte plus c ≡ some d
      → (decode_loop plus rest (out ++ d ∷ []) ≡ ok output → Reads rest (out ++ d ∷ []) output)
      → decode_loop plus (c ∷ rest) out ≡ ok output
      → Reads (c ∷ rest) out output
  Reads-copied c d rest out output copied later h =
      Reads-cons d (c ∷ rest) rest out output (λ more r. Decodes-copied plus c d copied r)
        (later (sym (decode_loop-copied plus c rest out copied) ∙ h))

  Reads-escaped :
      (c x y d : ℕ) (rest out output : Bytes)
      → copied_byte plus c ≡ none
      → escaped_byte (hex_value x) (hex_value y) ≡ some d
      → (decode_loop plus rest (out ++ d ∷ []) ≡ ok output → Reads rest (out ++ d ∷ []) output)
      → decode_loop plus (c ∷ x ∷ y ∷ rest) out ≡ ok output
      → Reads (c ∷ x ∷ y ∷ rest) out output
  unfolding copied_byte
  Reads-escaped c x y d rest out output stop escaped later h =
      let (hi, lo, ex, ey, e) = escaped_byte-eq_some (hex_value x) (hex_value y) escaped in
      Reads-cons d (c ∷ x ∷ y ∷ rest) rest out output
        (λ more r. escape hi lo (ground arith) ex ey e r)
        (later (sym (decode_loop-escaped plus c x y rest out stop escaped) ∙ h))

  decode_loop_sound :
      (input out output : Bytes) → decode_loop plus input out ≡ ok output → Reads input out output
  unfolding decode_loop
  decode_loop_sound [] out output h = ([], ground (arith, append-nil out), done)
  decode_loop_sound (c ∷ []) out output h = elim (Option-cases (copied_byte plus c)) [
    | inl stop ↦ absurd (ground arith)
    | inr (d, copied) ↦
        Reads-copied c d [] out output copied (decode_loop_sound [] (out ++ d ∷ []) output) h
  ]
  decode_loop_sound (c ∷ x ∷ []) out output h = elim (Option-cases (copied_byte plus c)) [
    | inl stop ↦ absurd (ground arith)
    | inr (d, copied) ↦
        Reads-copied c d (x ∷ []) out output copied
          (decode_loop_sound (x ∷ []) (out ++ d ∷ []) output) h
  ]
  decode_loop_sound (c ∷ x ∷ y ∷ rest) out output h = elim (Option-cases (copied_byte plus c)) [
    | inr (d, copied) ↦
        Reads-copied c d (x ∷ y ∷ rest) out output copied
          (decode_loop_sound (x ∷ y ∷ rest) (out ++ d ∷ []) output) h
    | inl stop ↦ elim (Option-cases (escaped_byte (hex_value x) (hex_value y))) [
      | inl bad ↦ absurd (ground arith)
      | inr (d, escaped) ↦
          Reads-escaped c x y d rest out output stop escaped
            (decode_loop_sound rest (out ++ d ∷ []) output) h
    ]
  ]

-- The decoder returns a text exactly when the input is in the grammar, and then the text that
-- the grammar gives it; it refuses every other input.
pub url_decode_component-Decodes :
    (input : Bytes) (plus_as_space : Bool) (output : Bytes)
    → (url_decode_component input plus_as_space ≡ ok output) ↔ Decodes plus_as_space input output
unfolding url_decode_component
url_decode_component-Decodes input plus output = (
  (λ h. let (more, e, r) = decode_loop_sound plus input [] output h in rw e r),
  λ r. decode_loop_complete plus [] r,
)
