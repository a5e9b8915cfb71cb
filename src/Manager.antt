-- ===== src/Manager.antt =====
-- src/AutopilotManager.cpp: the requests over D-Bus, the start from a file, and one round of the main
-- loop.
use autopilot_manager.Common.{
  ℕ, ◌+◌, String, Bool, true, false, not, ◌&&◌, Option, none, some, List, Double, if◌then◌else◌,
}
use autopilot_manager.Manager.Config.{default_config}
use autopilot_manager.Manager.Message.{
  Arguments, ParsedMessage, Padding, init_from_message, append_to_message,
}
use autopilot_manager.Manager.File.{init_from_file, write_to_file}
use autopilot_manager.Manager.Memory.{
  ResponseCode, Members, flag, set_configuration, get_configuration,
}
pub mod Config
pub mod Message
pub mod Memory
pub mod File
pub mod Requests
pub mod Refinement
pub mod Heartbeat

pub data Request (W : Type 0) : Type 0 where
  get_config : Request W
  set_config : ParsedMessage W → Request W
  other : Request W

pub record Reply (W : Type 0) : Type 0 where
  pub arguments : Arguments W
  pub response_code : ResponseCode

-- The members, and the text of the file at `_config_path`.
pub record Manager (W : Type 0) : Type 0 where
  pub members : Members W
  pub file : Option String

module _ {W : Type 0} ⦃d : Double W⦄ where
  -- Whether the temporary file can be opened and renamed is asked when it is written. `padding` is that
  -- of the new configuration, which is not initialised. The result is `none` where a conversion throws.
  unfoldable pub handle_request :
      (opened renamed : Bool)
      → Padding
      → Request W
      → Manager W
      → Option (Manager W × Option (Reply W))
  handle_request opened renamed padding Request.get_config m =
      elim (init_from_file {W = W} m.file default_config) [
        | none ↦ none
        | some (config, _) ↦
            let (_, code) = get_configuration config m.members in
            some (
              m,
              some (record {
                arguments = append_to_message (config, padding);
                response_code = code;
              }),
            )
      ]
  handle_request opened renamed padding (Request.set_config message) m =
      let (object, parsed) = init_from_message message (default_config, padding) in
      let config = object.0 in
      let (members, code) = set_configuration config m.members in
      let (file, _) = write_to_file opened renamed config m.file in
      if parsed
      then some (
        record m { members = members; file = file },
        some (record { arguments = append_to_message object; response_code = code }),
      )
      else some (
        m,
        some (record { arguments = append_to_message object; response_code = ResponseCode.failed }),
      )
  handle_request opened renamed padding Request.other m = some (m, none)

  unfoldable pub initial_provisioning : Manager W → Option (Manager W)
  initial_provisioning m = elim (init_from_file {W = W} m.file default_config) [
    | none ↦ none
    | some (config, read) ↦
        let (members, _) = set_configuration config m.members in
        some (if read then record m { members = members } else m)
  ]

-- What the main loop reads and writes of the modules.
pub record Modules : Type 0 where
  pub obstacle_avoidance_enabled : Bool
  pub landing_oa_enabled : Bool
  pub sensor_oa_enabled : Bool
  pub heartbeats : ℕ

abbrev bool_eq : Bool → Bool → Bool
bool_eq true b = b
bool_eq false b = not b

-- `should_be_enabled` is the mission manager's answer.
unfoldable pub update_obstacle_avoidance_enabled : Bool → Modules → Modules
update_obstacle_avoidance_enabled should_be_enabled s =
    let should_change = not (bool_eq should_be_enabled s.obstacle_avoidance_enabled) in
    if not should_change then s else record s {
      obstacle_avoidance_enabled = should_be_enabled;
      landing_oa_enabled = should_be_enabled;
      sensor_oa_enabled = should_be_enabled;
    }

-- What one round of the loop reads.
pub record RoundInputs : Type 0 where
  pub should_be_enabled : Bool
  pub safe_landing_enabled : ℕ
  pub sm_healthy : Bool
  pub lm_healthy : Bool
  pub mm_healthy : Bool

unfoldable pub run_round : RoundInputs → Modules → Modules
run_round i s0 =
    let s = update_obstacle_avoidance_enabled i.should_be_enabled s0 in
    if flag i.safe_landing_enabled
    then (if (i.sm_healthy && i.lm_healthy) && i.mm_healthy
        then record s { heartbeats = s.heartbeats + 1 }
        else s)
    else s
