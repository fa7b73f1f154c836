-- ===== src/Service/Arguments/Defaults.antt =====
-- What a service does that its arguments do not ask for.
use mathlib.Core.Path.{subst}
use pod_installer.Base.{
  ℕ, ◌≤◌, Bool, true, false, not, ◌||◌, ◌==◌, ltb, List, [], ◌∷◌, any, Option, none, some, ◌≡◌,
  refl, ◌∙◌, ◌⊎◌, inl, inr, arith, Bytes, text, equal, Bool-cases, reverse, take_while, length,
  take, suc, ◌-◌,
}
use pod_installer.Service.{Config, default_config}
use pod_installer.Service.Arguments.{
  Parsed, configured, refused, helped, thrown, Flag, help, execute, no_socket_validation, listen,
  api_version, staging_root, unknown, flag_of, stoul, with_port, listen_at, and_then, argument_loop,
  parse_args,
}

abbrev pub given : Bytes → List Bytes → Bool
given option args = any (λ arg. equal arg option) args

-- from one configuration to another, by these arguments
abbrev pub Grounded : List Bytes → Config → Config → Type 0
Grounded args config after =
    ((after.dry_run ≡ config.dry_run) ⊎ (given (text "--execute") args ≡ true))
    × ((after.validate_socket ≡ config.validate_socket)
        ⊎ (given (text "--no-socket-validation") args ≡ true))
    × ((1 ≤ config.port) → (config.port ≤ 65535) → (1 ≤ after.port) × (after.port ≤ 65535))

abbrev Holds : List Bytes → Config → Parsed → Type 0
Holds args config (configured after) = Grounded args config after
Holds args config (refused e) = Unit
Holds args config helped = Unit
Holds args config thrown = Unit

module _ (arg : Bytes) where
  asks_execute : flag_of arg ≡ execute → equal arg (text "--execute") ≡ true
  unfolding flag_of
  asks_execute h = ground arith

  asks_no_validation :
      flag_of arg ≡ no_socket_validation → equal arg (text "--no-socket-validation") ≡ true
  unfolding flag_of
  asks_no_validation h = ground arith

-- what an argument does to the configuration
abbrev Moves : Bytes → Config → Config → Type 0
Moves arg config next =
    ((next.dry_run ≡ config.dry_run) ⊎ (equal arg (text "--execute") ≡ true))
    × ((next.validate_socket ≡ config.validate_socket)
        ⊎ (equal arg (text "--no-socket-validation") ≡ true))
    × ((1 ≤ config.port) → (config.port ≤ 65535) → (1 ≤ next.port) × (next.port ≤ 65535))

same-Moves : (arg : Bytes) (config : Config) → Moves arg config config
same-Moves arg config = (inl refl, inl refl, λ low high. (low, high))

seen :
    (option arg : Bytes) (args : List Bytes) (b c d : Bool)
    → (c ≡ b) ⊎ (equal arg option ≡ true)
    → (d ≡ c) ⊎ (given option args ≡ true)
    → (d ≡ b) ⊎ (given option (arg ∷ args) ≡ true)
seen option arg args b c d (inl e) (inl f) = inl (f ∙ e)
seen option arg args b c d (inr h) f = inr (ground arith)
seen option arg args b c d (inl e) (inr k) = inr (ground arith)

later :
    (arg : Bytes) (args : List Bytes) (config next after : Config)
    → Moves arg config next
    → Grounded args next after
    → Grounded (arg ∷ args) config after
later arg args config next after (d, v, p) (d', v', p') = (
  seen (text "--execute") arg args config.dry_run next.dry_run after.dry_run d d',
  seen (text "--no-socket-validation") arg args config.validate_socket next.validate_socket
      after.validate_socket v v',
  λ low high. let (low', high') = p low high in p' low' high',
)

later-Holds :
    (arg : Bytes) (args : List Bytes) (config next : Config) (result : Parsed)
    → Moves arg config next
    → Holds args next result
    → Holds (arg ∷ args) config result
later-Holds arg args config next (configured after) m h = later arg args config next after m h
later-Holds arg args config next (refused e) m h = tt
later-Holds arg args config next helped m h = tt
later-Holds arg args config next thrown m h = tt

done : (config : Config) → Grounded [] config config
done config = (inl refl, inl refl, λ low high. (low, high))

with_port-Moves :
    (config : Config) (arg host : Bytes) (port : Option ℕ) (args : List Bytes)
    (next : Config → Parsed)
    → ((c : Config) → Holds args c (next c))
    → Holds (arg ∷ args) config (and_then (with_port config host port) next)
with_port-Moves config arg host none args next h = tt
with_port-Moves config arg host (some port) args next h =
    elim (Bool-cases (port == 0 || ltb 65535 port)) [
      | inl bad ↦ rw bad tt
      | inr fine ↦ rw fine (
          later-Holds arg args config (record config { host = host; port = port })
            (next (record config { host = host; port = port }))
            (inl refl, inl refl, λ low high. (ground arith, ground arith))
            (h (record config { host = host; port = port })))
    ]

listen_at-Moves :
    (config : Config) (arg address : Bytes) (args : List Bytes) (next : Config → Parsed)
    → ((c : Config) → Holds args c (next c))
    → Holds (arg ∷ args) config (and_then (listen_at config address) next)
listen_at-Moves config arg address args next h =
    let port = reverse (take_while (λ c. not (c == b':')) (reverse address)) in
    elim (Bool-cases (length port == length address)) [
      | inl bare ↦ rw bare tt
      | inr cut ↦ rw cut (
          with_port-Moves config arg (take (length address - suc (length port)) address)
            (stoul port) args next h)
    ]

module _ (config : Config) where
  executed-Moves :
      (arg : Bytes) → flag_of arg ≡ execute → Moves arg config (record config { dry_run = false })
  executed-Moves arg h = (inr (asks_execute arg h), inl refl, λ low high. (low, high))

  unchecked-Moves :
      (arg : Bytes)
      → flag_of arg ≡ no_socket_validation
      → Moves arg config (record config { validate_socket = false })
  unchecked-Moves arg h = (inl refl, inr (asks_no_validation arg h), λ low high. (low, high))

-- a round of the loop, by the flag that its argument is
module _ (config : Config) (arg : Bytes) where
  last_Holds :
      (flag : Flag) → flag_of arg ≡ flag → Holds (arg ∷ []) config (argument_loop (arg ∷ []) config)
  unfolding argument_loop
  last_Holds help h = rw (h, Holds) tt
  last_Holds execute h =
      rw (h, Holds)
        (later arg [] config (record config { dry_run = false }) (record config { dry_run = false })
          (executed-Moves config arg h) (done (record config { dry_run = false })))
  last_Holds no_socket_validation h =
      rw (h, Holds)
        (later arg [] config (record config { validate_socket = false })
          (record config { validate_socket = false }) (unchecked-Moves config arg h)
          (done (record config { validate_socket = false })))
  last_Holds listen h = rw (h, Holds) tt
  last_Holds api_version h = rw (h, Holds) tt
  last_Holds staging_root h = rw (h, Holds) tt
  last_Holds unknown h = rw (h, Holds) tt

  module _ (next : Bytes) (args : List Bytes)
      (again : (c : Config) → Holds (next ∷ args) c (argument_loop (next ∷ args) c))
      (behind : (c : Config) → Holds args c (argument_loop args c)) where
    -- a flag that takes the next argument along
    paired :
        (result : Parsed) (c : Config)
        → Moves arg config c
        → Holds args c result
        → Holds (arg ∷ next ∷ args) config result
    paired result c m h =
        later-Holds arg (next ∷ args) config c result m
          (later-Holds next args c c result (same-Moves next c) h)

    round_Holds :
        (flag : Flag)
        → flag_of arg ≡ flag
        → Holds (arg ∷ next ∷ args) config (argument_loop (arg ∷ next ∷ args) config)
    unfolding argument_loop
    round_Holds help h = rw (h, Holds) tt
    round_Holds execute h =
        rw (h, Holds)
          (later-Holds arg (next ∷ args) config (record config { dry_run = false }) _
            (executed-Moves config arg h) (again (record config { dry_run = false })))
    round_Holds no_socket_validation h =
        rw (h, Holds)
          (later-Holds arg (next ∷ args) config (record config { validate_socket = false }) _
            (unchecked-Moves config arg h) (again (record config { validate_socket = false })))
    round_Holds listen h =
        rw (h, Holds)
          (later-Holds arg (next ∷ args) config config _ (same-Moves arg config)
            (listen_at-Moves config next next args (argument_loop args) behind))
    round_Holds api_version h =
        rw (h, Holds)
          (paired _ (record config { api_version = next }) (same-Moves arg config)
            (behind (record config { api_version = next })))
    round_Holds staging_root h =
        rw (h, Holds)
          (paired _ (record config { staging_root = next }) (same-Moves arg config)
            (behind (record config { staging_root = next })))
    round_Holds unknown h = rw (h, Holds) tt

argument_loop-Holds :
    (args : List Bytes) (config : Config) → Holds args config (argument_loop args config)
unfolding argument_loop
argument_loop-Holds [] config = done config
argument_loop-Holds (arg ∷ []) config = last_Holds config arg (flag_of arg) refl
argument_loop-Holds (arg ∷ next ∷ args) config =
    round_Holds config arg next args (argument_loop-Holds (next ∷ args)) (argument_loop-Holds args)
      (flag_of arg) refl

-- A service leaves its dry-run mode only where "--execute" is among its arguments, it skips the
-- check of sockets only where "--no-socket-validation" is, and its port is one from 1 to 65535.
pub parse_args-Grounded :
    (args : List Bytes) (config : Config)
    → parse_args args ≡ configured config
    → (config.dry_run ≡ false → given (text "--execute") args ≡ true)
      × (config.validate_socket ≡ false → given (text "--no-socket-validation") args ≡ true)
      × (1 ≤ config.port)
      × (config.port ≤ 65535)
unfolding parse_args
parse_args-Grounded args config h =
    let (d, v, p) = held in
    let (low, high) = p (omega arith) (omega arith) in
    (
      asked (text "--execute") config.dry_run d,
      asked (text "--no-socket-validation") config.validate_socket v,
      low,
      high,
    )
  where
    held : Grounded args default_config config
    held = subst (Holds args default_config) h (argument_loop-Holds args default_config)

    asked :
        (option : Bytes) (b : Bool)
        → (b ≡ true) ⊎ (given option args ≡ true)
        → b ≡ false
        → given option args ≡ true
    asked option b (inl on) off = cc
    asked option b (inr e) off = e
