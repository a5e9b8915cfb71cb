-- ===== src/MapVisualizer/Ground.antt =====
-- The marker of the ground plane (src/modules/landing_manager/MapVisualizer.hpp,
-- `visualizeGroundPlane`), and what the landing manager shows of the map and its statistics
-- (src/modules/landing_manager/LandingManager.cpp).
use autopilot_manager.Common.{Bool, not, List, [], ◌∷◌, ℤ, Double, if◌then◌else◌}
use autopilot_manager.Landing.Mapper.{Landing, is_enabled_in_config}
use autopilot_manager.MapVisualizer.{
  Marker, MarkerType, MarkerAction, Frame, HeightMap, MapVisualizer, visualize_height_map,
}

-- A marker with the orientation of its pose, as x, y, z and w.
pub record Posed (W : Type 0) : Type 0 where
  pub marker : Marker W
  pub orientation : W × W × W × W

-- `height_map::HeightMapStats`, of the library landing_mapper.
pub record HeightMapStats (W : Type 0) : Type 0 where
  pub valid_samples : ℤ
  pub samples : ℤ
  pub slope_deg : W
  pub above_plane_max_deviation_m : W
  pub below_plane_max_deviation_m : W
  pub std_dev_from_plane_m : W

module _ {W : Type 0} ⦃d : Double W⦄ where
  open d use {lit, of_int, to_float, mul, div, neg, sin, cos}

  -- `axis_of` is Eigen's `vertical.cross(normal).normalized()`, and `acos` the one of `float`. The result
  -- is what is published on the topic of the map.
  unfoldable pub visualize_ground_plane :
      (axis_of : W × W × W → W × W × W) (acos : W → W) (normal position : W × W × W)
      → W
      → Bool
      → List (Posed W)
      → List (Posed W)
  visualize_ground_plane axis_of acos normal position size enabled published =
      let axis = axis_of normal in
      let half = to_float (div (acos (neg normal.2)) (lit 2 0)) in
      let scaled = λ (a : W). to_float (mul a (to_float (sin half))) in
      if not enabled
      then published
      else record {
        marker = record {
          frame = Frame.ned;
          ns = "ground_plane";
          id = 0;
          type = MarkerType.cube;
          action = MarkerAction.add;
          scale = (size, size, lit 1 2);
          color = (lit 1 0, lit 1 0, lit 1 0, to_float (lit 6 1));
          position = position;
          points = [];
          colors = [];
        };
        orientation = (scaled axis.0, scaled axis.1, scaled axis.2, to_float (cos half));
      }
        ∷ published

  -- The values published, each on its topic: the percentage of valid samples, the slope, the deviations
  -- above and below the plane, and the standard deviation.
  unfoldable pub publish_height_stats : HeightMapStats W → W × W × W × W × W
  publish_height_stats s = (
    to_float (div (mul (of_int s.valid_samples) (lit 100 0)) (of_int s.samples)),
    to_float s.slope_deg,
    to_float s.above_plane_max_deviation_m,
    to_float s.below_plane_max_deviation_m,
    to_float s.std_dev_from_plane_m,
  )

module _ {W M : Type 0} ⦃d : Double W⦄ where
  -- `map_of` is `getHeightMap` of the landing mapper, and `visualize` the member of that name.
  unfoldable pub visualize_map :
      (M → HeightMap W) → Bool → Landing W M → MapVisualizer W → MapVisualizer W
  visualize_map map_of visualize l v =
      if not (is_enabled_in_config l)
      then v
      else visualize_height_map (map_of l.landing_mapper) visualize v
