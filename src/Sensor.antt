-- ===== src/Sensor.antt =====
-- src/modules/sensor_manager/SensorManager.cpp: the reception of depth images and the health of the
-- sensors. Times are nanoseconds of the ROS clock.
use autopilot_manager.Common.{
  ℕ, ◌+◌, ℤ, pos, String, Bool, true, false, not, ◌&&◌, ◌||◌, Option, none, some, List, ◌∷◌, ltb,
  ◌==◌, str_eq, if◌then◌else◌,
}
use autopilot_manager.Landing.Cloud.{DepthPixel, DepthImage}
pub mod Reports
pub mod Images
pub mod Streams
pub mod Initial

pub data SensorHealth : Type 0 where
  healthy unhealthy_odometry unhealthy_images unhealthy_odometry_and_images : SensorHealth

abbrev pub health_code : SensorHealth → ℕ
health_code SensorHealth.healthy = 0
health_code SensorHealth.unhealthy_odometry = 1
health_code SensorHealth.unhealthy_images = 2
health_code SensorHealth.unhealthy_odometry_and_images = 3

-- `static_cast<HealthStatus>` of the sum, from whether the odometry and the images are healthy.
abbrev pub sensor_health : Bool → Bool → SensorHealth
sensor_health true true = SensorHealth.healthy
sensor_health false true = SensorHealth.unhealthy_odometry
sensor_health true false = SensorHealth.unhealthy_images
sensor_health false false = SensorHealth.unhealthy_odometry_and_images

-- What the code reads of `sensor_msgs::msg::Image`; `B` is the type of its data.
pub record Image (B : Type 0) : Type 0 where
  pub encoding : String
  pub width : ℕ
  pub height : ℕ
  pub data_bytes : B
  pub sec : ℕ
  pub nanosec : ℕ

pub record Intrinsics : Type 0 where
  pub rw_pixels : ℕ
  pub rh_pixels : ℕ

-- `ImageDownsamplerInterface`, of the library depth_data_tools. The first argument of `get_instance`
-- is whether the pixels are `float`s.
pub record ImageDownsampler (W B D : Type 0) : Type 0 where
  pub get_instance : Bool → ℕ → ℕ → D
  pub downsample : D → B → List (DepthPixel W) × D

-- The state; a message to the operator names the unhealthy parts, odometry and images.
pub record SensorManager (W Q D : Type 0) : Type 0 where
  pub image_downsampler : Option D
  pub intrinsics : Intrinsics
  pub downsampled_depth : Option (DepthImage W Q)
  pub time_start : Option ℕ
  pub time_last_odometry : ℕ
  pub time_last_image : ℕ
  pub health_status : SensorHealth
  pub should_report_status : Bool
  pub oa_enabled : Bool
  pub messages : List SensorHealth

module _ {W Q B D : Type 0} ⦃ids : ImageDownsampler W B D⦄ where
  unfoldable pub set_downsampler : Image B → SensorManager W Q D → SensorManager W Q D × Bool
  set_downsampler msg s = elim s.image_downsampler [
    | some _ ↦ (s, true)
    | none ↦
        if str_eq msg.encoding "16UC1"
        then (
          record s { image_downsampler = some (ids.get_instance false msg.width msg.height) },
          true,
        )
        else if str_eq msg.encoding "32FC1"
        then (
          record s { image_downsampler = some (ids.get_instance true msg.width msg.height) },
          true,
        )
        else (s, false)
  ]

  -- The image with the transform that was looked up, stored at the time `now`.
  unfoldable pub store_image :
      ℕ → Image B → (W × W × W) × Q → D → SensorManager W Q D → SensorManager W Q D
  store_image now msg transform downsampler s =
      let (pixels, used) = ids.downsample downsampler msg.data_bytes in
      record s {
        image_downsampler = some used;
        downsampled_depth = some (record {
          depth_pixel_array = pixels;
          rw_pixels = s.intrinsics.rw_pixels;
          rh_pixels = s.intrinsics.rh_pixels;
          position = transform.0;
          orientation = transform.1;
          timestamp_ns = pos msg.nanosec;
        });
        time_last_image = now;
      }

  -- Where the look-up of the transform fails the image is dropped, but has been downsampled.
  abbrev pub drop_image : Image B → D → SensorManager W Q D → SensorManager W Q D
  drop_image msg downsampler s = record s {
    image_downsampler = some (ids.downsample downsampler msg.data_bytes).1;
  }

  -- `transform` is what the look-up in the buffer of transforms gives, or `none` where it throws.
  abbrev pub use_image :
      ℕ → Image B → Option ((W × W × W) × Q) → SensorManager W Q D → SensorManager W Q D
  use_image now msg transform s =
      let intrinsic_plausible =
        not (s.intrinsics.rh_pixels == 0) && not (s.intrinsics.rw_pixels == 0) in
      elim s.image_downsampler [
        | none ↦ s
        | some downsampler ↦ if not intrinsic_plausible then s else elim transform [
          | none ↦ drop_image msg downsampler s
          | some found ↦ store_image now msg found downsampler s
        ]
      ]

  unfoldable pub handle_incoming_depth_image :
      ℕ → Image B → Option ((W × W × W) × Q) → SensorManager W Q D → SensorManager W Q D
  handle_incoming_depth_image now msg transform s0 =
      let (s, _) = set_downsampler msg s0 in use_image now msg transform s

abbrev pub is_recent : ℕ → ℕ → Bool
is_recent now time = ltb now (time + 2_500_000_000)

module _ {W Q D : Type 0} where
  -- The status by the ages of the last odometry and the last image, and whether it is to be reported.
  unfoldable pub update_health : ℕ → SensorManager W Q D → SensorManager W Q D
  update_health now s =
      let new_health_status =
        sensor_health (is_recent now s.time_last_odometry) (is_recent now s.time_last_image) in
      let status_changed = not (health_code new_health_status == health_code s.health_status) in
      record s {
        health_status = new_health_status;
        should_report_status = s.should_report_status || status_changed;
      }

  unfoldable pub report_status : SensorManager W Q D → SensorManager W Q D
  report_status s =
      if not s.should_report_status || not s.oa_enabled
      then s
      else record s { messages = s.health_status ∷ s.messages; should_report_status = false }

  abbrev pub check_since : Option ℕ → ℕ → SensorManager W Q D → SensorManager W Q D
  check_since none now s = record s { time_start = some now }
  check_since (some time_start) now s =
      if ltb now (time_start + 5_000_000_000) then s else report_status (update_health now s)

  -- In the first five seconds after its first call it does nothing else.
  unfoldable pub health_check : ℕ → SensorManager W Q D → SensorManager W Q D
  health_check now s = check_since s.time_start now s
