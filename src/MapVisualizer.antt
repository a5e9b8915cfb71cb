-- ===== src/MapVisualizer.antt =====
-- src/modules/landing_manager/MapVisualizer.cpp and MapVisualizer.hpp, with `visualizeResult` of
-- src/modules/landing_manager/LandingManager.cpp: the markers and the point cloud that are published. The
-- time stamps of the markers are left out.
use autopilot_manager.Common.{
  ℕ, zero, suc, ◌+◌, ◌-◌, ℤ, pos, String, Bool, true, false, not, ◌&&◌, Option, none, some, List,
  [], ◌∷◌, ◌++◌, Double, if◌then◌else◌,
}
use autopilot_manager.Types.{MapperState, mapper_eq}
pub mod Cells
pub mod Vehicle
pub mod Ground

pub data MarkerType : Type 0 where
  cube cube_list sphere cylinder : MarkerType

pub data MarkerAction : Type 0 where
  add delete : MarkerAction

pub data Frame : Type 0 where
  ned base_link : Frame

-- A colour is red, green, blue and alpha.
pub record Marker (W : Type 0) : Type 0 where
  pub frame : Frame
  pub ns : String
  pub id : ℕ
  pub type : MarkerType
  pub action : MarkerAction
  pub scale : W × W × W
  pub color : W × W × W × W
  pub position : W × W × W
  pub points : List (W × W × W)
  pub colors : List (W × W × W × W)

-- The point cloud's message, with how many points it was prepared for and those written.
pub record PointCloud (W : Type 0) : Type 0 where
  pub stamp : ℤ
  pub width : ℕ
  pub height : ℕ
  pub points : List (W × W × W)

-- What was published on the three topics, newest first.
pub record MapVisualizer (W : Type 0) : Type 0 where
  pub landing_marker : List (List (Marker W))
  pub map_marker : List (List (Marker W))
  pub point_cloud : List (PointCloud W)
  pub cloud_ros2_msg : Option (PointCloud W)

-- `height_map::HeightMap`, of the library landing_mapper, by what the code reads of it.
pub record HeightMap (W : Type 0) : Type 0 where
  pub bin_edge_width : W
  pub centre_position : W × W
  pub rows : ℕ
  pub cols : ℕ
  pub heights : ℕ → ℕ → W

module _ {W : Type 0} where
  -- The stamp is set when the message is made, at the first call.
  unfoldable pub prepare_point_cloud_msg : ℤ → ℕ → ℕ → Bool → MapVisualizer W → MapVisualizer W
  prepare_point_cloud_msg timestamp_ns width height enabled v =
      if not enabled then v else elim v.cloud_ros2_msg [
        | none ↦ record v {
          cloud_ros2_msg =
              some (record { stamp = timestamp_ns; width = width; height = height; points = [] });
        }
        | some msg ↦ record v {
          cloud_ros2_msg = some (record msg { width = width; height = height; points = [] });
        }
      ]

  -- The iterators are undefined before the message is prepared.
  unfoldable pub add_point_to_point_cloud :
      W × W × W → Bool → MapVisualizer W → Option (MapVisualizer W)
  add_point_to_point_cloud point enabled v = if not enabled then some v else elim v.cloud_ros2_msg [
    | none ↦ none
    | some msg ↦
        some (record v { cloud_ros2_msg = some (record msg { points = msg.points ++ point ∷ [] }) })
  ]

  unfoldable pub visualize_point_cloud : Bool → MapVisualizer W → Option (MapVisualizer W)
  visualize_point_cloud enabled v = if not enabled then some v else elim v.cloud_ros2_msg [
    | none ↦ none
    | some msg ↦ some (record v { point_cloud = msg ∷ v.point_cloud })
  ]

module _ {W : Type 0} ⦃d : Double W⦄ where
  open d use {lit, of_int, to_float, le, lt, sub, mul, div, abs, fmod, eq, max_float}

  abbrev zero_position : W × W × W
  zero_position = (lit 0 0, lit 0 0, lit 0 0)

  unfoldable pub publish_cube :
      W × W × W → W × W × W × W → W × W × W → Bool → MapVisualizer W → MapVisualizer W
  publish_cube point color scale enabled v = if not enabled then v else record v {
    landing_marker =
        (record {
          frame = Frame.ned;
          ns = "goal_position";
          id = 0;
          type = MarkerType.cube;
          action = MarkerAction.add;
          scale = scale;
          color = color;
          position = point;
          points = [];
          colors = [];
        }
          ∷ [])
        ∷ v.landing_marker;
  }

  abbrev flat : W → W × W × W
  flat size = (size, size, lit 1 1)

  unfoldable pub publish_safe_land : W × W × W → W → Bool → MapVisualizer W → MapVisualizer W
  publish_safe_land point size =
      publish_cube point (lit 0 0, lit 1 0, lit 0 0, to_float (lit 75 2)) (flat size)

  unfoldable pub publish_close_ground : W × W × W → W → Bool → MapVisualizer W → MapVisualizer W
  publish_close_ground point size =
      publish_cube point (lit 1 0, lit 1 0, lit 0 0, to_float (lit 75 2)) (flat size)

  unfoldable pub publish_ground : W × W × W → W → Bool → MapVisualizer W → MapVisualizer W
  publish_ground point size =
      publish_cube point (lit 1 0, lit 0 0, lit 0 0, to_float (lit 75 2)) (flat size)

  -- Of the landing manager.
  unfoldable pub visualize_result :
      MapperState → W × W × W → W → Bool → MapVisualizer W → MapVisualizer W
  visualize_result state position window_size_m visualize v =
      let vis_position : W × W × W =
        (position.0, position.1, to_float (sub position.2 (lit 1 0))) in
      if mapper_eq state MapperState.can_land
      then publish_safe_land vis_position window_size_m visualize v
      else if mapper_eq state MapperState.close_to_ground
      then publish_close_ground vis_position window_size_m visualize v
      else publish_ground vis_position window_size_m visualize v

  abbrev between : W → W → W → Bool
  between a x b = le a x && lt x b

  -- The red, green and blue of a chroma and a second component, by the sector of the hue.
  abbrev sector : W → W → W → W × W × W
  sector h c x =
      if between (lit 0 0) h (lit 1 0)
      then (c, x, lit 0 0)
      else if between (lit 1 0) h (lit 2 0)
      then (x, c, lit 0 0)
      else if between (lit 2 0) h (lit 3 0)
      then (lit 0 0, c, x)
      else if between (lit 3 0) h (lit 4 0)
      then (lit 0 0, x, c)
      else if between (lit 4 0) h (lit 5 0)
      then (x, lit 0 0, c)
      else if between (lit 5 0) h (lit 6 0)
      then (c, lit 0 0, x)
      else (lit 0 0, lit 0 0, lit 0 0)

  unfoldable pub hsv_to_rgb : W × W × W → W × W × W
  hsv_to_rgb hsv =
      let c = to_float (mul hsv.2 hsv.1) in
      let h_prime = to_float (fmod (div hsv.0 (lit 60 0)) (lit 6 0)) in
      let x = to_float (mul c (sub (lit 1 0) (abs (sub (fmod h_prime (lit 2 0)) (lit 1 0))))) in
      let m = to_float (sub hsv.2 c) in
      let rgb = sector h_prime c x in
      (to_float (d.add rgb.0 m), to_float (d.add rgb.1 m), to_float (d.add rgb.2 m))

  abbrev pub is_mapped : HeightMap W → ℕ → ℕ → Bool
  is_mapped map x y = not (eq (map.heights x y) max_float)

  -- The coordinate of the cell with index `i` of `n`.
  abbrev coordinate : W → ℕ → ℕ → W → W
  coordinate cell_size i n centre =
      to_float
        (d.add (mul cell_size (sub (of_int (pos i)) (mul (of_int (pos n)) (lit 5 1)))) centre)

  abbrev pub height_pos : HeightMap W → ℕ → ℕ → W × W × W
  height_pos map x y =
      let cell_size = map.bin_edge_width in
      (
        coordinate cell_size x map.rows map.centre_position.0,
        coordinate cell_size y map.cols map.centre_position.1,
        to_float (d.add (map.heights x y) (mul cell_size (lit 5 1))),
      )

  abbrev pub height_color : W → W × W × W × W
  height_color z =
      let h = to_float (mul (abs (div (fmod z (lit 2 0)) (lit 2 0))) (lit 360 0)) in
      let rgb = hsv_to_rgb (h, lit 1 0, lit 1 0) in (rgb.0, rgb.1, rgb.2, lit 5 1)

  abbrev pub add_cell : HeightMap W → ℕ → ℕ → Marker W → Marker W
  add_cell map x y m =
      let p = height_pos map x y in
      if is_mapped map x y
      then record m { points = m.points ++ p ∷ []; colors = m.colors ++ height_color p.2 ∷ [] }
      else m

  -- The inner loop from `y`, with that many columns left; and the outer one.
  unfoldable pub add_columns : HeightMap W → ℕ → (y left : ℕ) → Marker W → Marker W
  add_columns map x y zero m = m
  add_columns map x y (suc left) m = add_columns map x (suc y) left (add_cell map x y m)

  unfoldable pub add_rows : HeightMap W → (x left : ℕ) → Marker W → Marker W
  add_rows map x zero m = m
  add_rows map x (suc left) m = add_rows map (suc x) left (add_columns map x 0 map.cols m)

  abbrev pub map_marker_of : HeightMap W → Marker W
  map_marker_of map = record {
    frame = Frame.ned;
    ns = "height_map";
    id = 0;
    type = MarkerType.cube_list;
    action = MarkerAction.add;
    scale = (map.bin_edge_width, map.bin_edge_width, map.bin_edge_width);
    color = (lit 1 0, lit 0 0, lit 0 0, lit 5 1);
    position = zero_position;
    points = [];
    colors = [];
  }

  abbrev pub delete_marker : Marker W
  delete_marker = record {
    frame = Frame.ned;
    ns = "height_map";
    id = 0;
    type = MarkerType.cube_list;
    action = MarkerAction.delete;
    scale = zero_position;
    color = (lit 0 0, lit 0 0, lit 0 0, lit 0 0);
    position = zero_position;
    points = [];
    colors = [];
  }

  unfoldable pub visualize_height_map : HeightMap W → Bool → MapVisualizer W → MapVisualizer W
  visualize_height_map map enabled v = if not enabled then v else record v {
    map_marker = (delete_marker ∷ add_rows map 0 map.rows (map_marker_of map) ∷ []) ∷ v.map_marker;
  }
