-- ===== src/Manager/Message.antt =====
-- src/AutopilotManagerConfig.cpp: the configuration and its D-Bus message, `InitFromMessage` and
-- `AppendToMessage`. A word has its lowest byte first in memory.
use autopilot_manager.Common.{
  ℕ, zero, suc, ◌+◌, ◌*◌, ◌/◌, ◌≡◌, refl, ◌%◌, String, Bool, true, false, List, [], ◌∷◌,
}
use autopilot_manager.Manager.Config.{AutopilotManagerConfig}

-- The arguments of a message that sets the configuration, and of one that reports it. A flag is a
-- `uint32_t` there.
pub record Arguments (W : Type 0) : Type 0 where
  pub autopilot_manager_enabled : ℕ
  pub decision_maker_input_type : String
  pub script_to_call : String
  pub api_call : String
  pub local_position_offset_x : W
  pub local_position_offset_y : W
  pub local_position_offset_z : W
  pub local_position_waypoint_x : W
  pub local_position_waypoint_y : W
  pub local_position_waypoint_z : W
  pub global_position_offset_lat : W
  pub global_position_offset_lon : W
  pub global_position_offset_alt_amsl : W
  pub global_position_waypoint_lat : W
  pub global_position_waypoint_lon : W
  pub global_position_waypoint_alt_amsl : W
  pub safe_landing_enabled : ℕ
  pub safe_landing_area_square_size : W
  pub safe_landing_distance_to_ground : W
  pub safe_landing_on_no_safe_land : String
  pub safe_landing_try_landing_after_action : ℕ
  pub landing_site_search_max_distance : W
  pub landing_site_search_min_height : W
  pub simple_collision_avoid_enabled : ℕ
  pub simple_collision_avoid_distance_threshold : W
  pub simple_collision_avoid_action_on_condition_true : String

-- What `dbus_message_get_args` makes of a message: all the arguments, or an error after it has stored the
-- first ones, by their number.
pub data ParsedMessage (W : Type 0) : Type 0 where
  parsed : Arguments W → ParsedMessage W
  failed : ℕ → Arguments W → ParsedMessage W

-- The three bytes of padding after each flag, as one number, the byte next to the flag being the lowest;
-- in a new object they are not initialised.
pub record Padding : Type 0 where
  pub autopilot_manager_enabled : ℕ
  pub safe_landing_enabled : ℕ
  pub safe_landing_try_landing_after_action : ℕ
  pub simple_collision_avoid_enabled : ℕ

-- An object of the class in memory.
abbrev pub Object : Type 0 → Type 0
Object W = AutopilotManagerConfig W × Padding

module _ {W : Type 0} where
  -- A string is stored in a local variable.
  abbrev in_local : Object W → Object W
  in_local o = o

  -- The stores of `dbus_message_get_args`, in their order. The four bytes of a flag's `uint32_t` are
  -- written at the address of a `uint8_t`: the lowest to the flag, the others to its padding.
  unfoldable pub stores : Arguments W → List (Object W → Object W)
  stores a =
      (λ o. (
        record o.0 { autopilot_manager_enabled = a.autopilot_manager_enabled % 256 },
        record o.1 { autopilot_manager_enabled = a.autopilot_manager_enabled / 256 },
      ))
      ∷ in_local
      ∷ in_local
      ∷ in_local
      ∷ (λ o. (record o.0 { local_position_offset_x = a.local_position_offset_x }, o.1))
      ∷ (λ o. (record o.0 { local_position_offset_y = a.local_position_offset_y }, o.1))
      ∷ (λ o. (record o.0 { local_position_offset_z = a.local_position_offset_z }, o.1))
      ∷ (λ o. (record o.0 { local_position_waypoint_x = a.local_position_waypoint_x }, o.1))
      ∷ (λ o. (record o.0 { local_position_waypoint_y = a.local_position_waypoint_y }, o.1))
      ∷ (λ o. (record o.0 { local_position_waypoint_z = a.local_position_waypoint_z }, o.1))
      ∷ (λ o. (record o.0 { global_position_offset_lat = a.global_position_offset_lat }, o.1))
      ∷ (λ o. (record o.0 { global_position_offset_lon = a.global_position_offset_lon }, o.1))
      ∷ (λ o.
          (record o.0 { global_position_offset_alt_amsl = a.global_position_offset_alt_amsl }, o.1))
      ∷ (λ o. (record o.0 { global_position_waypoint_lat = a.global_position_waypoint_lat }, o.1))
      ∷ (λ o. (record o.0 { global_position_waypoint_lon = a.global_position_waypoint_lon }, o.1))
      ∷ (λ o. (
        record o.0 { global_position_waypoint_alt_amsl = a.global_position_waypoint_alt_amsl },
        o.1,
      ))
      ∷ (λ o. (
        record o.0 { safe_landing_enabled = a.safe_landing_enabled % 256 },
        record o.1 { safe_landing_enabled = a.safe_landing_enabled / 256 },
      ))
      ∷ (λ o. (record o.0 { safe_landing_area_square_size = a.safe_landing_area_square_size }, o.1))
      ∷ (λ o.
          (record o.0 { safe_landing_distance_to_ground = a.safe_landing_distance_to_ground }, o.1))
      ∷ in_local
      ∷ (λ o. (
        record o.0 {
          safe_landing_try_landing_after_action = a.safe_landing_try_landing_after_action % 256;
        },
        record o.1 {
          safe_landing_try_landing_after_action = a.safe_landing_try_landing_after_action / 256;
        },
      ))
      ∷ (λ o. (
        record o.0 { landing_site_search_max_distance = a.landing_site_search_max_distance },
        o.1,
      ))
      ∷ (λ o.
          (record o.0 { landing_site_search_min_height = a.landing_site_search_min_height }, o.1))
      ∷ (λ o. (
        record o.0 { simple_collision_avoid_enabled = a.simple_collision_avoid_enabled % 256 },
        record o.1 { simple_collision_avoid_enabled = a.simple_collision_avoid_enabled / 256 },
      ))
      ∷ (λ o. (
        record o.0 {
          simple_collision_avoid_distance_threshold = a.simple_collision_avoid_distance_threshold;
        },
        o.1,
      ))
      ∷ in_local
      ∷ []

  unfoldable pub store_first : ℕ → List (Object W → Object W) → Object W → Object W
  store_first zero rest o = o
  store_first (suc n) [] o = o
  store_first (suc n) (store ∷ rest) o = store_first n rest (store o)

  -- After an error the members keep what was stored before it; the texts are only copied without one.
  unfoldable pub init_from_message : ParsedMessage W → Object W → Object W × Bool
  init_from_message (ParsedMessage.failed n a) o = (store_first n (stores a) o, false)
  init_from_message (ParsedMessage.parsed a) (c, p) = (
    (
      record c {
        autopilot_manager_enabled = a.autopilot_manager_enabled % 256;
        decision_maker_input_type = a.decision_maker_input_type;
        script_to_call = a.script_to_call;
        api_call = a.api_call;
        local_position_offset_x = a.local_position_offset_x;
        local_position_offset_y = a.local_position_offset_y;
        local_position_offset_z = a.local_position_offset_z;
        local_position_waypoint_x = a.local_position_waypoint_x;
        local_position_waypoint_y = a.local_position_waypoint_y;
        local_position_waypoint_z = a.local_position_waypoint_z;
        global_position_offset_lat = a.global_position_offset_lat;
        global_position_offset_lon = a.global_position_offset_lon;
        global_position_offset_alt_amsl = a.global_position_offset_alt_amsl;
        global_position_waypoint_lat = a.global_position_waypoint_lat;
        global_position_waypoint_lon = a.global_position_waypoint_lon;
        global_position_waypoint_alt_amsl = a.global_position_waypoint_alt_amsl;
        safe_landing_enabled = a.safe_landing_enabled % 256;
        safe_landing_area_square_size = a.safe_landing_area_square_size;
        safe_landing_distance_to_ground = a.safe_landing_distance_to_ground;
        safe_landing_on_no_safe_land = a.safe_landing_on_no_safe_land;
        safe_landing_try_landing_after_action = a.safe_landing_try_landing_after_action % 256;
        landing_site_search_max_distance = a.landing_site_search_max_distance;
        landing_site_search_min_height = a.landing_site_search_min_height;
        simple_collision_avoid_enabled = a.simple_collision_avoid_enabled % 256;
        simple_collision_avoid_distance_threshold = a.simple_collision_avoid_distance_threshold;
        simple_collision_avoid_action_on_condition_true =
            a.simple_collision_avoid_action_on_condition_true;
      },
      record {
        autopilot_manager_enabled = a.autopilot_manager_enabled / 256;
        safe_landing_enabled = a.safe_landing_enabled / 256;
        safe_landing_try_landing_after_action = a.safe_landing_try_landing_after_action / 256;
        simple_collision_avoid_enabled = a.simple_collision_avoid_enabled / 256;
      },
    ),
    true,
  )

  -- The stores, one after the other, with the copies of the texts, are the record above.
  init_from_message-stores :
      (a : Arguments W) (o : Object W)
      → init_from_message (ParsedMessage.parsed a) o ≡ (
        (
          record (store_first 26 (stores a) o).0 {
            decision_maker_input_type = a.decision_maker_input_type;
            script_to_call = a.script_to_call;
            api_call = a.api_call;
            safe_landing_on_no_safe_land = a.safe_landing_on_no_safe_land;
            simple_collision_avoid_action_on_condition_true =
                a.simple_collision_avoid_action_on_condition_true;
          },
          (store_first 26 (stores a) o).1,
        ),
        true,
      )
  unfolding init_from_message store_first stores
  init_from_message-stores a o = refl

  -- Each flag is read as a `uint32_t`, with its padding.
  unfoldable pub append_to_message : Object W → Arguments W
  append_to_message (c, p) = record {
    autopilot_manager_enabled = c.autopilot_manager_enabled + 256 * p.autopilot_manager_enabled;
    decision_maker_input_type = c.decision_maker_input_type;
    script_to_call = c.script_to_call;
    api_call = c.api_call;
    local_position_offset_x = c.local_position_offset_x;
    local_position_offset_y = c.local_position_offset_y;
    local_position_offset_z = c.local_position_offset_z;
    local_position_waypoint_x = c.local_position_waypoint_x;
    local_position_waypoint_y = c.local_position_waypoint_y;
    local_position_waypoint_z = c.local_position_waypoint_z;
    global_position_offset_lat = c.global_position_offset_lat;
    global_position_offset_lon = c.global_position_offset_lon;
    global_position_offset_alt_amsl = c.global_position_offset_alt_amsl;
    global_position_waypoint_lat = c.global_position_waypoint_lat;
    global_position_waypoint_lon = c.global_position_waypoint_lon;
    global_position_waypoint_alt_amsl = c.global_position_waypoint_alt_amsl;
    safe_landing_enabled = c.safe_landing_enabled + 256 * p.safe_landing_enabled;
    safe_landing_area_square_size = c.safe_landing_area_square_size;
    safe_landing_distance_to_ground = c.safe_landing_distance_to_ground;
    safe_landing_on_no_safe_land = c.safe_landing_on_no_safe_land;
    safe_landing_try_landing_after_action =
        c.safe_landing_try_landing_after_action + 256 * p.safe_landing_try_landing_after_action;
    landing_site_search_max_distance = c.landing_site_search_max_distance;
    landing_site_search_min_height = c.landing_site_search_min_height;
    simple_collision_avoid_enabled =
        c.simple_collision_avoid_enabled + 256 * p.simple_collision_avoid_enabled;
    simple_collision_avoid_distance_threshold = c.simple_collision_avoid_distance_threshold;
    simple_collision_avoid_action_on_condition_true =
        c.simple_collision_avoid_action_on_condition_true;
  }
