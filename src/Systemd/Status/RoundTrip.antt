-- ===== src/Systemd/Status/RoundTrip.antt =====
-- What `systemctl show` prints for three properties, read back.
use pod_installer.Base.{
  false, [], ◌∷◌, ◌++◌, String, ◌≡◌, refl, ap, ◌∙◌, Bytes, text, equal, find, pieces, pieces-append,
  Lacks, All-append, All-of_any_not, any, ◌==◌,
}
use pod_installer.Systemd.Status.{UnitStatus, set_state, read_states, parse_show_status}

-- one line `key=value`
abbrev pub shown_line : String → Bytes → Bytes
shown_line key value = text key ++ b'=' ∷ value

-- the documented output of `systemctl show` for the properties that are asked for
abbrev pub shown : UnitStatus → Bytes
shown status =
    shown_line "LoadState" status.load_state
    ++ (b'\n'
        ∷ (shown_line "ActiveState" status.active_state
            ++ (b'\n' ∷ (shown_line "SubState" status.sub_state ++ (b'\n' ∷ [])))))

-- the states hold no newline
pub record IsShowable (status : UnitStatus) : Type 0 where
  pub load_state : Lacks b'\n' status.load_state
  pub active_state : Lacks b'\n' status.active_state
  pub sub_state : Lacks b'\n' status.sub_state

-- Three lines, whatever their values, set the three states, and leave the unit.
read_states-shown :
    (status from : UnitStatus)
    → read_states
        (shown_line "LoadState" status.load_state
          ∷ shown_line "ActiveState" status.active_state
          ∷ shown_line "SubState" status.sub_state
          ∷ [])
        from
      ≡ record status { unit = from.unit }
unfolding read_states set_state text equal find
read_states-shown status from = refl

pieces-three :
    (a b c : Bytes)
    → Lacks b'\n' a
    → Lacks b'\n' b
    → Lacks b'\n' c
    → pieces b'\n' (a ++ (b'\n' ∷ (b ++ (b'\n' ∷ (c ++ (b'\n' ∷ [])))))) ≡ a ∷ b ∷ c ∷ []
pieces-three a b c ha hb hc =
    pieces-append b'\n' a (b ++ (b'\n' ∷ (c ++ (b'\n' ∷ [])))) ha
    ∙ ap (◌∷◌ a) (pieces-append b'\n' b (c ++ (b'\n' ∷ [])) hb)
    ∙ ap (λ ls. a ∷ b ∷ ls) (pieces-append b'\n' c [] hc)

all_lack : (key : String) → any (λ c. c == b'\n') (text key) ≡ false → Lacks b'\n' (text key)
all_lack key h = All-of_any_not (λ c. c == b'\n') (text key) h

Lacks-shown_line :
    (key : String) (value : Bytes)
    → Lacks b'\n' (text key)
    → Lacks b'\n' value
    → Lacks b'\n' (shown_line key value)
Lacks-shown_line key value k v = All-append _ (text key) (b'=' ∷ value) k (refl, v)

pieces-shown :
    (status : UnitStatus)
    → IsShowable status
    → pieces b'\n' (shown status)
      ≡ shown_line "LoadState" status.load_state
        ∷ shown_line "ActiveState" status.active_state
        ∷ shown_line "SubState" status.sub_state
        ∷ []
unfolding text
pieces-shown status s =
    let load =
      Lacks-shown_line "LoadState" status.load_state (all_lack "LoadState" refl) s.load_state in
    let active =
      Lacks-shown_line "ActiveState" status.active_state (all_lack "ActiveState" refl)
        s.active_state in
    let sub = Lacks-shown_line "SubState" status.sub_state (all_lack "SubState" refl) s.sub_state in
    pieces-three (shown_line "LoadState" status.load_state)
      (shown_line "ActiveState" status.active_state) (shown_line "SubState" status.sub_state) load
      active sub

-- What systemctl prints for the states of a unit, of which none holds a newline, is read back as
-- these states, under the unit that was asked for.
pub parse_show_status-shown :
    (unit : Bytes) (status : UnitStatus)
    → IsShowable status
    → parse_show_status unit (shown status) ≡ record status { unit = unit }
unfolding parse_show_status text
parse_show_status-shown unit status s =
    ap
      (λ lines.
        read_states lines
          (record { unit = unit; load_state = []; active_state = []; sub_state = [] }))
      (pieces-shown status s)
    ∙ read_states-shown status _
