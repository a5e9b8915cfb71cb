-- ===== src/MapVisualizer/Vehicle.antt =====
-- The markers of the vehicle (src/modules/landing_manager/MapVisualizer.cpp, `publishVehicle`).
use autopilot_manager.Common.{ℕ, Bool, not, [], ◌∷◌, Double, if◌then◌else◌}
use autopilot_manager.MapVisualizer.{Marker, MarkerType, MarkerAction, Frame, MapVisualizer}

module _ {W : Type 0} ⦃d : Double W⦄ where
  open d use {lit, to_float, mul, neg}

  -- The sphere of the safety radius around the vehicle.
  abbrev safety_marker : W → Marker W
  safety_marker safety_radius =
      let size = mul (lit 2 0) safety_radius in
      record {
        frame = Frame.base_link;
        ns = "vehicle_safety_radius";
        id = 0;
        type = MarkerType.sphere;
        action = MarkerAction.add;
        scale = (size, size, size);
        color = (lit 1 0, lit 0 0, lit 0 0, to_float (lit 3 1));
        position = (lit 0 0, lit 0 0, lit 0 0);
        points = [];
        colors = [];
      }

  abbrev rotor_diameter : W
  rotor_diameter = lit 6 1

  abbrev rotor_distance : W
  rotor_distance = mul rotor_diameter (lit 55 2)

  abbrev rotor_marker : ℕ → W × W × W → W → W → Marker W
  rotor_marker id color x y = record {
    frame = Frame.base_link;
    ns = "vehicle";
    id = id;
    type = MarkerType.cylinder;
    action = MarkerAction.add;
    scale = (rotor_diameter, rotor_diameter, lit 5 2);
    color = (color.0, color.1, color.2, to_float (lit 3 1));
    position = (x, y, lit 0 0);
    points = [];
    colors = [];
  }

  abbrev orange : W × W × W
  orange = (lit 1 0, to_float (lit 6 1), lit 0 0)

  abbrev dark : W × W × W
  dark = (to_float (lit 1 1), to_float (lit 1 1), to_float (lit 1 1))

  -- The rotors front left, front right, rear left and rear right.
  unfoldable pub publish_vehicle : W → Bool → MapVisualizer W → MapVisualizer W
  publish_vehicle safety_radius enabled v = if not enabled then v else record v {
    landing_marker =
        (safety_marker safety_radius
          ∷ rotor_marker 1 orange rotor_distance (neg rotor_distance)
          ∷ rotor_marker 2 orange rotor_distance rotor_distance
          ∷ rotor_marker 3 dark (neg rotor_distance) (neg rotor_distance)
          ∷ rotor_marker 4 dark (neg rotor_distance) rotor_distance
          ∷ [])
        ∷ v.landing_marker;
  }
