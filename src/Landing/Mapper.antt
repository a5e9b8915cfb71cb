-- ===== src/Landing/Mapper.antt =====
-- src/modules/landing_manager/LandingManager.cpp: one call of `mapper`, and `printStats`.
use autopilot_manager.Common.{
  ℕ, ℤ, ◌+◌, ◌*◌, Bool, ◌&&◌, not, Option, none, some, List, [], ◌∷◌, Double, ltb, length,
  if◌then◌else◌,
}
use autopilot_manager.Types.{MapperState, mapper_eq}
use autopilot_manager.Landing.Health.{Health, is_healthy, health_check}
use autopilot_manager.Landing.Parameters.{Configuration, Parameters, update_parameters}
use autopilot_manager.Landing.Cloud.{DepthPixel, DepthImage, scan}

-- `landing_mapper::LandingMapper`, a library of its own, and the arithmetic of Eigen.
pub record LandingMapper (W Q M : Type 0) : Type 0 where
  pub update_vehicle_position : W × W × W → M → M
  pub update_vehicle_orientation : Q → M → M
  pub update_cloud : List (W × W × W) → M → M
  pub set_image_height_estimate : W → M → M
  pub check_landing_area : M → MapperState × M
  pub get_height_above_obstacle : M → W
  pub to_world : DepthImage W Q → DepthPixel W → W × W × W
  pub float_max : W

pub record Landing (W M : Type 0) : Type 0 where
  pub config : Configuration W
  pub parameters : Parameters W
  pub oa_enabled : Bool
  pub health : Health
  pub state : MapperState
  pub height_above_obstacle : W
  pub landing_mapper : M
  pub images_processed : ℕ
  pub points_processed : ℕ
  pub points_received : ℕ
  -- The states published, the newest first.
  pub published : List MapperState

module _ {W M : Type 0} where
  unfoldable pub is_enabled_in_config : Landing W M → Bool
  is_enabled_in_config l = l.config.autopilot_manager_enabled && l.config.safe_landing_enabled

  -- The counters that a print of the statistics resets.
  unfoldable pub print_stats : Landing W M → Landing W M
  print_stats l = record l { images_processed = 0; points_processed = 0; points_received = 0 }

  abbrev pub unknown_unless_close : Landing W M → Landing W M
  unknown_unless_close l =
      if mapper_eq l.state MapperState.close_to_ground
      then l
      else record l { state = MapperState.unknown }

  abbrev pub publish_state : Landing W M → Landing W M
  publish_state l = record l { published = l.state ∷ l.published }

module _ {W Q : Type 0} where
  abbrev pub timestamp_of : Option (DepthImage W Q) → Option ℤ
  timestamp_of none = none
  timestamp_of (some image) = some image.timestamp_ns

module _ {W Q M : Type 0} ⦃d : Double W⦄ ⦃lm : LandingMapper W Q M⦄ where
  open lm use {
    update_vehicle_position, update_vehicle_orientation, update_cloud, set_image_height_estimate,
    check_landing_area, get_height_above_obstacle, to_world, float_max,
  }

  -- The branch for an image of a healthy input.
  unfoldable pub process_image : DepthImage W Q → Landing W M → Landing W M
  process_image image l =
      let m1 =
        update_vehicle_orientation image.orientation
          (update_vehicle_position image.position l.landing_mapper) in
      let (cloud, low) =
        scan (to_world image) image.position.2 image.depth_pixel_array ([], float_max) in
      let m2 = set_image_height_estimate low (update_cloud cloud m1) in
      let (checked, m3) = check_landing_area m2 in
      record l {
        landing_mapper = m3;
        images_processed = l.images_processed + 1;
        points_processed = l.points_processed + length cloud;
        points_received = l.points_received + image.rw_pixels * image.rh_pixels;
        state = checked;
        height_above_obstacle = get_height_above_obstacle m3;
      }

  -- The three branches on the depth message and the health of the input.
  unfoldable pub process_depth : Option (DepthImage W Q) → Landing W M → Landing W M
  process_depth none l =
      if not (is_healthy l.health)
      then record l { state = MapperState.unhealthy }
      else unknown_unless_close l
  process_depth (some image) l =
      let processed = process_image image l in
      if is_healthy l.health && ltb 0 (length image.depth_pixel_array)
      then processed
      else if not (is_healthy l.health)
      then record l { state = MapperState.unhealthy }
      else unknown_unless_close l

  unfoldable pub mapper : Configuration W → Option (DepthImage W Q) → Landing W M → Landing W M
  unfolding is_enabled_in_config process_depth
  mapper config depth_msg l0 =
      let l = record l0 { config = config; parameters = update_parameters config l0.parameters } in
      let checked = record l { health = health_check (timestamp_of depth_msg) l.health } in
      if is_enabled_in_config l && l.oa_enabled
      then publish_state (process_depth depth_msg checked)
      else l
