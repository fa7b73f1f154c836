-- ===== src/Systemd/Status.antt =====
-- `UnitStatus` and `parse_show_status` of src/systemd.cpp.
pub mod RoundTrip
use pod_installer.Base.{
  ℕ, suc, List, [], ◌∷◌, Option, none, some, Bytes, text, equal, find, take, drop, pieces,
  if◌then◌else◌,
}

pub record UnitStatus : Type 0 where
  pub unit : Bytes
  pub load_state : Bytes
  pub active_state : Bytes
  pub sub_state : Bytes

pub record UnitOperationResult : Type 0 where
  pub job_path : Option Bytes
  pub final_status : UnitStatus

-- the statements that a line's key selects
unfoldable pub set_state : Bytes → Bytes → UnitStatus → UnitStatus
set_state key value status =
    if equal key (text "LoadState")
    then record status { load_state = value }
    else if equal key (text "ActiveState")
    then record status { active_state = value }
    else if equal key (text "SubState")
    then record status { sub_state = value }
    else status

-- the body of the loop, at the first '=' of the line
abbrev pub read_state_at : Bytes → Option ℕ → UnitStatus → UnitStatus
read_state_at line none status = status
read_state_at line (some eq) status = set_state (take eq line) (drop (suc eq) line) status

pub read_states : List Bytes → UnitStatus → UnitStatus
read_states [] status = status
read_states (line ∷ lines) status = read_states lines (read_state_at line (find b'=' line) status)

unfoldable pub parse_show_status : Bytes → Bytes → UnitStatus
unfolding read_states
parse_show_status unit output =
    read_states (pieces b'\n' output)
      (record { unit = unit; load_state = []; active_state = []; sub_state = [] })
