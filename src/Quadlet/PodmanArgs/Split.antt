-- ===== src/Quadlet/PodmanArgs/Split.antt =====
-- What `split_podman_args` returns.
use pod_installer.Base.{
  ℕ, Bool, true, false, List, [], ◌∷◌, ◌++◌, ◌≡◌, ◌≢◌, refl, ap, ◌∙◌, arith, Bytes, is_empty, All,
  All-append, append_assoc, append-nil, ◌⊎◌, inl, inr, Bool-cases,
}
use pod_installer.Quadlet.PodmanArgs.{
  Splitter, flush, split_step, split_loop, empty_splitter, split_finish, split_podman_args,
  keep_backslash,
}

abbrev pub NonEmpty : List Bytes → Type 0
NonEmpty = All (λ token. token ≢ [])

is_empty-ne_nil : (s : Bytes) → is_empty s ≡ false → s ≢ []
is_empty-ne_nil [] h = cc
is_empty-ne_nil (c ∷ s) h = cc

flush-NonEmpty : (s : Splitter) → NonEmpty s.tokens → NonEmpty (flush s).tokens
flush-NonEmpty s h = elim (Bool-cases (is_empty s.current)) [
  | inl none_yet ↦ rw none_yet h
  | inr some_bytes ↦
      rw some_bytes
        (All-append (λ token. token ≢ []) s.tokens _ h (is_empty-ne_nil s.current some_bytes, tt))
]

split_step-tokens :
    (s : Splitter) (c : ℕ)
    → ((split_step s c).tokens ≡ s.tokens) ⊎ ((split_step s c).tokens ≡ (flush s).tokens)
unfolding split_step
split_step-tokens s c = ground arith

split_step-NonEmpty : (s : Splitter) (c : ℕ) → NonEmpty s.tokens → NonEmpty (split_step s c).tokens
split_step-NonEmpty s c h = elim (split_step-tokens s c) [
  | inl same ↦ rw same h
  | inr flushed ↦ rw flushed (flush-NonEmpty s h)
]

split_loop-NonEmpty :
    (value : Bytes) (s : Splitter) → NonEmpty s.tokens → NonEmpty (split_loop s value).tokens
unfolding split_loop
split_loop-NonEmpty [] s h = h
split_loop-NonEmpty (c ∷ value) s h =
    split_loop-NonEmpty value (split_step s c) (split_step-NonEmpty s c h)

keep_backslash-tokens : (b : Bool) (s : Splitter) → (keep_backslash b s).tokens ≡ s.tokens
keep_backslash-tokens true s = refl
keep_backslash-tokens false s = refl

split_finish-NonEmpty : (s : Splitter) → NonEmpty s.tokens → NonEmpty (split_finish s)
split_finish-NonEmpty s h =
    flush-NonEmpty (keep_backslash s.escaped s) (rw (keep_backslash-tokens s.escaped s) h)

-- No token is empty, whatever the quoting: the test `part.empty()` of the caller never skips.
pub split_podman_args-NonEmpty : (value : Bytes) → NonEmpty (split_podman_args value)
unfolding split_podman_args
split_podman_args-NonEmpty value =
    split_finish-NonEmpty (split_loop empty_splitter value)
      (split_loop-NonEmpty value empty_splitter tt)

-- a backslash in front of every byte
abbrev backslashed : Bytes → Bytes
backslashed [] = []
backslashed (c ∷ s) = b'\\' ∷ c ∷ backslashed s

-- the tokens written for a `PodmanArgs=`: each byte behind a backslash, a blank behind each token
abbrev pub quoted : List Bytes → Bytes
quoted [] = []
quoted (token ∷ rest) = backslashed token ++ b' ' ∷ quoted rest

-- outside quotes, behind the tokens `ts` and the bytes `cur` of the next
abbrev outside : List Bytes → Bytes → Splitter
outside ts cur = record {
  tokens = ts;
  current = cur;
  in_single = false;
  in_double = false;
  escaped = false;
}

split_loop-backslash :
    (ts : List Bytes) (cur : Bytes) (c : ℕ) (rest : Bytes)
    → split_loop (outside ts cur) (b'\\' ∷ c ∷ rest) ≡ split_loop (outside ts (cur ++ c ∷ [])) rest
unfolding split_loop split_step
split_loop-backslash ts cur c rest = refl

split_loop-backslashed :
    (token : Bytes) (ts : List Bytes) (cur rest : Bytes)
    → split_loop (outside ts cur) (backslashed token ++ rest)
      ≡ split_loop (outside ts (cur ++ token)) rest
split_loop-backslashed [] ts cur rest = rw append-nil
split_loop-backslashed (c ∷ token) ts cur rest =
    split_loop-backslash ts cur c (backslashed token ++ rest)
    ∙ split_loop-backslashed token ts (cur ++ c ∷ []) rest
    ∙ rw append_assoc

split_loop-blank :
    (ts : List Bytes) (cur rest : Bytes)
    → cur ≢ []
    → split_loop (outside ts cur) (b' ' ∷ rest) ≡ split_loop (outside (ts ++ cur ∷ []) []) rest
unfolding split_loop split_step
split_loop-blank ts [] rest ne = absurd (ne refl)
split_loop-blank ts (c ∷ cur) rest ne = refl

split_loop-quoted :
    (tokens ts : List Bytes)
    → NonEmpty tokens
    → split_loop (outside ts []) (quoted tokens) ≡ outside (ts ++ tokens) []
split_loop-quoted [] ts h = unfold split_loop in rw append-nil
split_loop-quoted (token ∷ tokens) ts (ne, h) =
    split_loop-backslashed token ts [] (b' ' ∷ quoted tokens)
    ∙ split_loop-blank ts token (quoted tokens) ne
    ∙ split_loop-quoted tokens (ts ++ token ∷ []) h
    ∙ rw append_assoc

-- Any non-empty arguments, blanks, quotes and backslashes among their bytes, can be written as
-- one `PodmanArgs=` value that splits into just these arguments.
pub split_podman_args-quoted :
    (tokens : List Bytes) → NonEmpty tokens → split_podman_args (quoted tokens) ≡ tokens
unfolding split_podman_args
split_podman_args-quoted tokens h = ap split_finish (split_loop-quoted tokens [] h)
