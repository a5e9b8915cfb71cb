-- ===== src/Sensor/Streams.antt =====
-- src/modules/sensor_manager/SensorManager.cpp: the callbacks of `run`, of the camera's information and of
-- the clock's timer, and how the first images come to be used.
use autopilot_manager.Common.{
  ℕ, ◌*◌, ◌/◌, ◌%◌, ◌^◌, ℤ, pos, ◌≡◌, refl, ◌∙◌, ap, inl, inr, Bool-cases, Bool, true, false, not,
  ◌&&◌, ◌||◌, Option, none, some, List, [], ◌∷◌, ◌==◌, str_eq, Double, arith, if◌then◌else◌,
}
use autopilot_manager.Landing.Mapper.{timestamp_of}
use autopilot_manager.TimeSync.{TimeSync, sync_stamp}
use autopilot_manager.TimeSync.{run as run_time_sync}
use autopilot_manager.Sensor.{
  Intrinsics, Image, ImageDownsampler, SensorManager, set_downsampler, use_image, store_image,
  handle_incoming_depth_image,
}

-- `mavsdk::Telemetry::Odometry`, by what the code reads of it.
pub record Odometry (W : Type 0) : Type 0 where
  pub time_usec : ℕ
  pub position_body : W × W × W
  pub q : W × W × W × W

pub record Transform (W : Type 0) : Type 0 where
  pub stamp_ns : ℕ
  pub translation : W × W × W
  pub rotation : W × W × W × W

pub data ArmingState : Type 0 where
  armed standby : ArmingState

-- What the code reads of `sensor_msgs::msg::CameraInfo`.
pub record CameraInfo (W : Type 0) : Type 0 where
  pub fx : W
  pub fy : W
  pub cx : W
  pub cy : W
  pub width : ℕ
  pub height : ℕ

-- The sensor manager with its filter of the clocks and what it has broadcast and published, newest first.
pub record Streams (W Q D : Type 0) : Type 0 where
  pub manager : SensorManager W Q D
  pub time_sync : TimeSync W
  pub transforms : List (Transform W)
  pub vehicle_status : List ArmingState
  pub timesync_sent : List ℕ

-- `adapt` is `ImageDownsamplerInterface::adaptIntrinsics`, of the library depth_data_tools.
module _ {W Q D : Type 0} (adapt : D → CameraInfo W → Intrinsics → Intrinsics) where
  unfoldable pub handle_incoming_camera_info :
      CameraInfo W → SensorManager W Q D → SensorManager W Q D
  handle_incoming_camera_info info s = elim s.image_downsampler [
    | none ↦ s
    | some downsampler ↦ record s { intrinsics = adapt downsampler info s.intrinsics }
  ]

  unfoldable pub handle_infos : List (CameraInfo W) → SensorManager W Q D → SensorManager W Q D
  handle_infos [] s = s
  handle_infos (info ∷ infos) s = handle_infos infos (handle_incoming_camera_info info s)

module _ {W Q D : Type 0} ⦃d : Double W⦄ where
  -- The time is in nanoseconds of the ROS clock.
  unfoldable pub on_odometry : ℕ → Odometry W → Streams W Q D → Streams W Q D
  on_odometry now odometry s =
      let stamp = sync_stamp odometry.time_usec (now / 1000) s.time_sync in
      let manager = s.manager in
      record s {
        manager = record manager { time_last_odometry = now };
        transforms =
            record {
              stamp_ns = stamp * 1000 % 2 ^ 64;
              translation = odometry.position_body;
              rotation = odometry.q;
            }
            ∷ s.transforms;
      }

  unfoldable pub on_timesync : ℕ → ℤ × ℤ → Streams W Q D → Streams W Q D
  on_timesync now (ts1, tc1) s = record s {
    time_sync = run_time_sync ts1 tc1 (now / 1000) s.time_sync;
  }

module _ {W Q D : Type 0} where
  unfoldable pub on_armed : Bool → Streams W Q D → Streams W Q D
  on_armed is_armed s = record s {
    vehicle_status =
        (if is_armed then ArmingState.armed else ArmingState.standby) ∷ s.vehicle_status;
  }

  -- The `ts1` of the message; its `tc1` is not set.
  unfoldable pub publish_time_sync : ℕ → Streams W Q D → Streams W Q D
  publish_time_sync now s = record s { timesync_sent = now ∷ s.timesync_sent }

abbrev pub plausible : Intrinsics → Bool
plausible i = not (i.rh_pixels == 0) && not (i.rw_pixels == 0)

abbrev pub made : {W B D : Type 0} → ImageDownsampler W B D → Image B → D
made ids msg =
    if str_eq msg.encoding "16UC1"
    then ids.get_instance false msg.width msg.height
    else ids.get_instance true msg.width msg.height

abbrev pub is_known : {B : Type 0} → Image B → Bool
is_known msg = str_eq msg.encoding "16UC1" || str_eq msg.encoding "32FC1"

-- At the start there is no downsampler, and no height of an image.
abbrev pub at_start : {W Q D : Type 0} → ℕ → SensorManager W Q D → SensorManager W Q D
at_start width s = record s {
  image_downsampler = none;
  intrinsics = record { rw_pixels = width; rh_pixels = 0 };
}

module _ {W Q D : Type 0} (adapt : D → CameraInfo W → Intrinsics → Intrinsics) where
  infos_ignored :
      (infos : List (CameraInfo W)) (width : ℕ) (s : SensorManager W Q D)
      → handle_infos adapt infos (at_start width s) ≡ at_start width s
  unfolding handle_infos handle_incoming_camera_info
  infos_ignored [] width s = refl
  infos_ignored (info ∷ infos) width s = infos_ignored infos width s

other_encoding : (a b : Bool) → a ≡ false → a || b ≡ true → b ≡ true
other_encoding a b h e = ground arith

module _ {W Q B D : Type 0} ⦃ids : ImageDownsampler W B D⦄
    (adapt : D → CameraInfo W → Intrinsics → Intrinsics) where
  set_first :
      (first : Image B) (width : ℕ) (s : SensorManager W Q D)
      → is_known first ≡ true
      → set_downsampler first (at_start width s)
        ≡ (record (at_start width s) { image_downsampler = some (made ids first) }, true)
  unfolding set_downsampler
  set_first first width s known = elim (Bool-cases (str_eq first.encoding "16UC1")) [
    | inl is_16 ↦ rw (is_16, set_downsampler) refl
    | inr other ↦ rw (other, other_encoding _ _ other known, set_downsampler) refl
  ]

  first_dropped :
      (now : ℕ) (first : Image B) (transform : Option ((W × W × W) × Q)) (width : ℕ)
      (s : SensorManager W Q D)
      → is_known first ≡ true
      → handle_incoming_depth_image now first transform (at_start width s)
        ≡ record (at_start width s) { image_downsampler = some (made ids first) }
  unfolding handle_incoming_depth_image
  first_dropped now first transform width s known =
      ap (λ r. use_image now first transform r.0) (set_first first width s known)

  used :
      (info : CameraInfo W) (now : ℕ) (next : Image B) (found : (W × W × W) × Q)
      (s : SensorManager W Q D) (downsampler : D)
      → plausible (adapt downsampler info s.intrinsics) ≡ true
      → timestamp_of
          (handle_incoming_depth_image now next (some found) (
            handle_incoming_camera_info adapt info
              (record s { image_downsampler = some downsampler }))).downsampled_depth
        ≡ some (pos next.nanosec)
  unfolding handle_incoming_depth_image set_downsampler store_image handle_incoming_camera_info
  used info now next found s downsampler ok = rw (ok, handle_incoming_depth_image) refl

  -- At the start the camera's information is lost until an image has come, and so is the first image, if
  -- its encoding is known; with the camera's information after it, plausible once adapted, the next image
  -- whose transform is found is offered to the other managers.
  pub first_image_lost :
      (infos : List (CameraInfo W)) (info : CameraInfo W) (now : ℕ) (first next : Image B)
      (transform : Option ((W × W × W) × Q)) (found : (W × W × W) × Q) (width : ℕ)
      (s : SensorManager W Q D)
      → let s0 = at_start width s in
        let s1 = handle_incoming_depth_image now first transform (handle_infos adapt infos s0) in
        let s2 = handle_incoming_camera_info adapt info s1 in
        let s3 = handle_incoming_depth_image now next (some found) s2 in
        is_known first ≡ true
        → plausible (adapt (made ids first) info s0.intrinsics) ≡ true
        → (s1.downsampled_depth ≡ s.downsampled_depth)
          × (timestamp_of s3.downsampled_depth ≡ some (pos next.nanosec))
  first_image_lost infos info now first next transform found width s known ok =
      let s1_lem =
        ap (handle_incoming_depth_image now first transform) (infos_ignored adapt infos width s)
        ∙ first_dropped now first transform width s known in
      (
        ap (λ n. n.downsampled_depth) s1_lem,
        ap
              (λ n.
                timestamp_of
                  (handle_incoming_depth_image now next (some found)
                    (handle_incoming_camera_info adapt info n)).downsampled_depth)
              s1_lem
            ∙ used info now next found (at_start width s) (made ids first) ok,
      )
