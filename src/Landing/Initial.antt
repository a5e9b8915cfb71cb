-- ===== src/Landing/Initial.antt =====
-- src/modules/landing_manager/LandingManager.cpp: the constructor, `initParameters` and `init`.
use autopilot_manager.Common.{String, Bool, false, [], pos, Double}
use autopilot_manager.Types.{MapperState}
use autopilot_manager.Landing.Health.{HealthStatus}
use autopilot_manager.Landing.Parameters.{Configuration, Parameters, update_parameters}
use autopilot_manager.Landing.Mapper.{Landing}

-- `landing_mapper::LandingMapperParameter`, the members that the code sets.
pub record MapperParameter (W : Type 0) : Type 0 where
  pub sizes : Parameters W
  pub voxel_size_m : W
  pub slope_threshold_deg : W
  pub below_plane_deviation_thresh_m : W
  pub above_plane_deviation_thresh_m : W
  pub std_dev_from_plane_thresh_m : W
  pub percentage_of_valid_samples_in_window : W
  pub debug_print : Bool

-- The node's parameters: the value of a name, or else the alternative.
pub record NodeParameters (W : Type 0) : Type 0 where
  pub get_parameter_or : String → W → W
  pub get_flag_or : String → Bool → Bool

module _ {W : Type 0} ⦃d : Double W⦄ where
  open d use {lit, to_float}

  unfoldable pub init_parameters : NodeParameters W → MapperParameter W
  init_parameters n = record {
    sizes = record {
      max_search_altitude_m = n.get_parameter_or "max_search_altitude_m" (lit 8 0);
      max_window_size_m = n.get_parameter_or "max_window_size_m" (lit 8 0);
      search_altitude_m = to_float (lit 75 1);
      window_size_m = to_float (lit 2 0);
    };
    voxel_size_m = n.get_parameter_or "voxel_size_m" (to_float (lit 1 1));
    slope_threshold_deg = n.get_parameter_or "slope_threshold_deg" (to_float (lit 10 0));
    below_plane_deviation_thresh_m =
        n.get_parameter_or "below_plane_deviation_thresh_m" (to_float (lit 3 1));
    above_plane_deviation_thresh_m =
        n.get_parameter_or "above_plane_deviation_thresh_m" (to_float (lit 3 1));
    std_dev_from_plane_thresh_m =
        n.get_parameter_or "std_dev_from_plane_thresh_m" (to_float (lit 1 1));
    percentage_of_valid_samples_in_window =
        n.get_parameter_or "percentage_of_valid_samples_in_window" (to_float (lit 7 1));
    debug_print = n.get_flag_or "debug_mapper" false;
  }

module _ {W M : Type 0} ⦃d : Double W⦄ where
  -- The object after its constructor and `init`, which reads the configuration of the manager.
  -- `new_mapper` is the constructor of `landing_mapper::LandingMapper`.
  unfoldable pub new_landing :
      NodeParameters W → (MapperParameter W → M) → Configuration W → Landing W M
  new_landing n new_mapper config =
      let p = init_parameters n in
      let sizes = update_parameters config p.sizes in
      record {
        config = config;
        parameters = sizes;
        oa_enabled = false;
        health = record {
          count_image_null = 0;
          count_timestamp_old = 0;
          last_timestamp = pos 0;
          health_status = HealthStatus.healthy;
          reports = [];
        };
        state = MapperState.unknown;
        height_above_obstacle = d.to_float (d.lit 0 0);
        landing_mapper = new_mapper (record p { sizes = sizes });
        images_processed = 0;
        points_processed = 0;
        points_received = 0;
        published = [];
      }
