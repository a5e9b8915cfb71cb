-- ===== src/Sensor/Initial.antt =====
-- src/modules/sensor_manager/SensorManager.cpp: the constructor, the topics that `init` subscribes to,
-- and `set_camera_static_tf`.
use autopilot_manager.Common.{ℕ, String, Bool, true, false, none, [], Double, if◌then◌else◌}
use autopilot_manager.Sensor.{SensorHealth, Intrinsics, SensorManager}

module _ {W Q D : Type 0} where
  -- At the time `now`, with the initial value that its type gives to the camera's intrinsics.
  unfoldable pub new_sensor : ℕ → Intrinsics → SensorManager W Q D
  new_sensor now intrinsics = record {
    image_downsampler = none;
    intrinsics = intrinsics;
    downsampled_depth = none;
    time_start = none;
    time_last_odometry = now;
    time_last_image = now;
    health_status = SensorHealth.healthy;
    should_report_status = true;
    oa_enabled = false;
    messages = [];
  }

-- The topics of the depth images and of the camera's information, on the parameter `sim`.
unfoldable pub topics : Bool → String × String
topics sim = (
  if sim then "/camera/depth/image_raw" else "/camera/depth/image_rect_raw",
  "/camera/depth/camera_info",
)

-- The transform of the camera, with its rotation as w, x, y and z.
pub record StaticTransform (W : Type 0) : Type 0 where
  pub translation : W × W × W
  pub rotation : W × W × W × W
  pub stamp : ℕ
  pub frame_id : String
  pub child_frame_id : String

module _ {W : Type 0} ⦃d : Double W⦄ where
  open d use {lit, add, mul, div}

  -- `normalized_rpy` is tf2's `setRPY` with `normalize`.
  unfoldable pub set_camera_static_tf :
      (W → W → W → W × W × W × W) → ℕ → W → W → W → StaticTransform W
  set_camera_static_tf normalized_rpy now x y yaw_deg =
      let yaw_rad = div (mul yaw_deg (lit 314_159_265_358_979_323_846 20)) (lit 180 0) in
      record {
        translation = (x, y, lit 0 0);
        rotation =
            normalized_rpy (lit 0 0) (lit 0 0) (add yaw_rad (lit 157_079_632_679_489_661_923 20));
        stamp = now;
        frame_id = "base_link";
        child_frame_id = "camera_link";
      }
