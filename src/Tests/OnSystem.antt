-- ===== src/Tests/OnSystem.antt =====
-- The D-Bus registration and the marker of the height map at concrete
-- inputs (src/DbusInterface.cpp and
-- src/modules/landing_manager/MapVisualizer.hpp).
use autopilot_manager.Common.{◌==◌, ◌≡◌, true, false, none, [], ◌∷◌, map, if◌then◌else◌}
use autopilot_manager.MapVisualizer.{
  HeightMap, MapVisualizer, height_color, map_marker_of, delete_marker, visualize_height_map,
}
use autopilot_manager.MapVisualizer.Cells.{map_cells, positions, height_map_points}
use autopilot_manager.Tests.Fixtures.{Milli, milli, metres}

abbrev two_by_two : HeightMap Milli
two_by_two = record {
  bin_edge_width = metres 1;
  centre_position = (metres 3, metres 4);
  rows = 2;
  cols = 2;
  heights = λ x y. if x == y then metres 2 else milli.max_float;
}

abbrev visualizer : MapVisualizer Milli
visualizer = record {
  landing_marker = [];
  map_marker = [];
  point_cloud = [];
  cloud_ros2_msg = none;
}

height_map_points_example :
    let ps = positions two_by_two (map_cells 0 2 2) in
    (visualize_height_map two_by_two true visualizer ≡ record visualizer {
      map_marker =
          (delete_marker
            ∷ record (map_marker_of two_by_two) {
              points = ps;
              colors = map (λ p. height_color p.2) ps;
            }
            ∷ [])
          ∷ [];
    })
    × (visualize_height_map two_by_two false visualizer ≡ visualizer)
height_map_points_example = height_map_points two_by_two visualizer
