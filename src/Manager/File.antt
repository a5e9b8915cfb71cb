-- ===== src/Manager/File.antt =====
-- src/AutopilotManagerConfig.cpp: `WriteToFile` and `InitFromFile` on the text of the file.
use autopilot_manager.Common.{
  ℕ, ◌-◌, ◌%◌, String, Bool, true, false, ◌&&◌, Option, none, some, List, [], ◌∷◌, ℤ, pos, negsuc,
  Double, append, contains, after_equals, lines, stoi, show_int, if◌then◌else◌,
}
use autopilot_manager.Manager.Config.{Value, AutopilotManagerConfig, written_lines}
pub mod Lines
pub mod Whole
pub mod RoundTrip

-- An `int` that is assigned to a `uint8_t`.
abbrev pub to_u8 : ℤ → ℕ
to_u8 (pos n) = n % 256
to_u8 (negsuc n) = 255 - n % 256

-- How the member of a key is assigned: `std::string`, `std::stod`, `std::stoi` to a `uint8_t`, and
-- `std::stoi` to an `int`.
pub data Assign (W : Type 0) : Type 0 where
  text : (String → AutopilotManagerConfig W → AutopilotManagerConfig W) → Assign W
  real : (W → AutopilotManagerConfig W → AutopilotManagerConfig W) → Assign W
  flag : (ℕ → AutopilotManagerConfig W → AutopilotManagerConfig W) → Assign W
  integer : (ℤ → AutopilotManagerConfig W → AutopilotManagerConfig W) → Assign W

module _ {W : Type 0} where
  -- The tests of `InitFromFile`, in their order: what a line is searched for, and what it then sets.
  abbrev pub assignments : List (String × Assign W)
  assignments =
      ("autopilot_manager_enabled", Assign.flag (λ v c. record c { autopilot_manager_enabled = v }))
      ∷ (
        "decision_maker_input_type",
        Assign.text (λ v c. record c { decision_maker_input_type = v }),
      )
      ∷ ("script_to_call", Assign.text (λ v c. record c { script_to_call = v }))
      ∷ ("api_call", Assign.text (λ v c. record c { api_call = v }))
      ∷ ("local_position_offset_x", Assign.real (λ v c. record c { local_position_offset_x = v }))
      ∷ ("local_position_offset_y", Assign.real (λ v c. record c { local_position_offset_y = v }))
      ∷ ("local_position_offset_z", Assign.real (λ v c. record c { local_position_offset_z = v }))
      ∷ (
        "local_position_waypoint_x",
        Assign.real (λ v c. record c { local_position_waypoint_x = v }),
      )
      ∷ (
        "local_position_waypoint_y",
        Assign.real (λ v c. record c { local_position_waypoint_y = v }),
      )
      ∷ (
        "local_position_waypoint_z",
        Assign.real (λ v c. record c { local_position_waypoint_z = v }),
      )
      ∷ (
        "global_position_offset_lat",
        Assign.real (λ v c. record c { global_position_offset_lat = v }),
      )
      ∷ (
        "global_position_offset_lon",
        Assign.real (λ v c. record c { global_position_offset_lon = v }),
      )
      ∷ (
        "global_position_offset_alt_amsl",
        Assign.real (λ v c. record c { global_position_offset_alt_amsl = v }),
      )
      ∷ (
        "global_position_waypoint_lat",
        Assign.real (λ v c. record c { global_position_waypoint_lat = v }),
      )
      ∷ (
        "global_position_waypoint_lon",
        Assign.real (λ v c. record c { global_position_waypoint_lon = v }),
      )
      ∷ (
        "global_position_waypoint_alt_amsl",
        Assign.real (λ v c. record c { global_position_waypoint_alt_amsl = v }),
      )
      ∷ ("camera_offset_x", Assign.real (λ v c. record c { camera_offset_x = v }))
      ∷ ("camera_offset_y", Assign.real (λ v c. record c { camera_offset_y = v }))
      ∷ ("camera_yaw", Assign.real (λ v c. record c { camera_yaw = v }))
      ∷ ("safe_landing_enabled", Assign.flag (λ v c. record c { safe_landing_enabled = v }))
      ∷ (
        "safe_landing_area_square_size",
        Assign.real (λ v c. record c { safe_landing_area_square_size = v }),
      )
      ∷ (
        "safe_landing_distance_to_ground",
        Assign.real (λ v c. record c { safe_landing_distance_to_ground = v }),
      )
      ∷ (
        "safe_landing_on_no_safe_land",
        Assign.text (λ v c. record c { safe_landing_on_no_safe_land = v }),
      )
      ∷ (
        "safe_landing_try_landing_after_action",
        Assign.flag (λ v c. record c { safe_landing_try_landing_after_action = v }),
      )
      ∷ (
        "landing_site_search_speed",
        Assign.real (λ v c. record c { landing_site_search_speed = v }),
      )
      ∷ (
        "landing_site_search_max_distance",
        Assign.real (λ v c. record c { landing_site_search_max_distance = v }),
      )
      ∷ (
        "landing_site_search_min_height",
        Assign.real (λ v c. record c { landing_site_search_min_height = v }),
      )
      ∷ (
        "landing_site_search_min_distance_after_abort",
        Assign.real (λ v c. record c { landing_site_search_min_distance_after_abort = v }),
      )
      ∷ (
        "landing_site_search_arrival_radius",
        Assign.real (λ v c. record c { landing_site_search_arrival_radius = v }),
      )
      ∷ (
        "landing_site_search_assess_time",
        Assign.real (λ v c. record c { landing_site_search_assess_time = v }),
      )
      ∷ (
        "landing_site_search_strategy",
        Assign.text (λ v c. record c { landing_site_search_strategy = v }),
      )
      ∷ (
        "landing_site_search_spiral_spacing",
        Assign.real (λ v c. record c { landing_site_search_spiral_spacing = v }),
      )
      ∷ (
        "landing_site_search_spiral_points",
        Assign.integer (λ v c. record c { landing_site_search_spiral_points = v }),
      )
      ∷ (
        "simple_collision_avoid_enabled",
        Assign.flag (λ v c. record c { simple_collision_avoid_enabled = v }),
      )
      ∷ (
        "simple_collision_avoid_distance_threshold",
        Assign.real (λ v c. record c { simple_collision_avoid_distance_threshold = v }),
      )
      ∷ (
        "simple_collision_avoid_action_on_condition_true",
        Assign.text (λ v c. record c { simple_collision_avoid_action_on_condition_true = v }),
      )
      ∷ []

  -- `none` where the conversion of the text threw.
  abbrev pub put {ℓ} :
      {A : Type ℓ}
      → (A → AutopilotManagerConfig W → AutopilotManagerConfig W)
      → Option A
      → AutopilotManagerConfig W
      → Option (AutopilotManagerConfig W)
  put set none c = none
  put set (some a) c = some (set a c)

-- `line.substr(line.find("=") + 1)`: where there is no `=`, the whole line.
abbrev pub value_or_line : String → Option String → String
value_or_line line none = line
value_or_line line (some value) = value

abbrev pub value_of : String → String
value_of line = value_or_line line (after_equals line)

module _ {W : Type 0} ⦃d : Double W⦄ where
  abbrev pub assign :
      Assign W → String → AutopilotManagerConfig W → Option (AutopilotManagerConfig W)
  assign (Assign.text set) s c = some (set s c)
  assign (Assign.real set) s c = put set (d.stod s) c
  assign (Assign.flag set) s c = put (λ z. set (to_u8 z)) (stoi s) c
  assign (Assign.integer set) s c = put set (stoi s) c

  -- Every key that the line contains, in its key or in its value, sets its member to the value.
  unfoldable pub apply_line :
      List (String × Assign W)
      → String
      → String
      → AutopilotManagerConfig W
      → Option (AutopilotManagerConfig W)
  apply_line [] line value c = some c
  apply_line ((key, a) ∷ table) line value c =
      elim (if contains key line then assign a value c else some c) [
        | none ↦ none
        | some changed ↦ apply_line table line value changed
      ]

  unfoldable pub load : List String → AutopilotManagerConfig W → Option (AutopilotManagerConfig W)
  load [] c = some c
  load (line ∷ rest) c = elim (apply_line assignments line (value_of line) c) [
    | none ↦ none
    | some changed ↦ load rest changed
  ]

  -- The text of the file, or `none` where it cannot be opened; `none` as the result where a conversion
  -- throws, else the configuration and the result of the function.
  unfoldable pub init_from_file :
      Option String → AutopilotManagerConfig W → Option (AutopilotManagerConfig W × Bool)
  unfolding load
  init_from_file none c = some (c, false)
  init_from_file (some content) c = elim (load (lines content) c) [
    | none ↦ none
    | some changed ↦ some (changed, true)
  ]

  abbrev pub print : Value W → String
  print (Value.text s) = s
  print (Value.real w) = d.to_string w
  print (Value.integer z) = show_int z

  abbrev pub line_text : String × Value W → String
  line_text (key, value) = append key (String.◌∷◌ "=" (print value))

  unfoldable pub lines_text : List (String × Value W) → String
  lines_text [] = ""
  lines_text (entry ∷ entries) = append (line_text entry) (String.◌∷◌ "\n" (lines_text entries))

  unfoldable pub file_text : AutopilotManagerConfig W → String
  file_text c = append "[AutopilotManagerConfig]" (String.◌∷◌ "\n" (lines_text (written_lines c)))

  -- The text is written to a temporary file, which is then renamed: the file after the call, and its
  -- result, by whether the temporary file was opened and renamed.
  unfoldable pub write_to_file :
      Bool → Bool → AutopilotManagerConfig W → Option String → Option String × Bool
  write_to_file opened renamed c file =
      if opened
      then (if renamed then (some (file_text c), true) else (file, false))
      else (file, false)
