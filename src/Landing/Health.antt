-- ===== src/Landing/Health.antt =====
-- src/modules/landing_manager/LandingManager.cpp: `healthCheck`, with the static counters of its
-- `HealthHandly`. An `int16_t` counter is held as its bit pattern, below 2 ^ 16.
use autopilot_manager.Common.{
  ℕ, ◌+◌, ◌%◌, Bool, true, false, ◌&&◌, not, Option, none, some, List, ◌∷◌, ℤ, ltb_ℤ, ltb, ◌==◌,
  if◌then◌else◌,
}

pub data HealthStatus : Type 0 where
  healthy unhealthy_null_images unhealthy_old_timestamps : HealthStatus
  unhealthy_null_images_and_old_timestamps : HealthStatus

-- `static_cast<HealthStatus>` of the sum of the two flags.
abbrev pub status_of : Bool → Bool → HealthStatus
status_of false false = HealthStatus.healthy
status_of true false = HealthStatus.unhealthy_null_images
status_of false true = HealthStatus.unhealthy_old_timestamps
status_of true true = HealthStatus.unhealthy_null_images_and_old_timestamps

abbrev pub status_code : HealthStatus → ℕ
status_code HealthStatus.healthy = 0
status_code HealthStatus.unhealthy_null_images = 1
status_code HealthStatus.unhealthy_old_timestamps = 2
status_code HealthStatus.unhealthy_null_images_and_old_timestamps = 3

abbrev pub max_null_image : ℕ
max_null_image = 5

abbrev pub max_old_timestamp : ℕ
max_old_timestamp = 50

-- An increment of an `int16_t`, and the test that it is above a bound that is not negative.
abbrev pub next_i16 : ℕ → ℕ
next_i16 n = (n + 1) % 65536

abbrev pub above_i16 : ℕ → ℕ → Bool
above_i16 bound n = ltb n 32768 && ltb bound n

-- A report to the operator, with the counters that it names.
pub record Report : Type 0 where
  pub null_images : Option ℕ
  pub old_timestamps : Option ℕ

pub record Health : Type 0 where
  pub count_image_null : ℕ
  pub count_timestamp_old : ℕ
  pub last_timestamp : ℤ
  pub health_status : HealthStatus
  pub reports : List Report

-- `isHealthy`, of the status.
unfoldable pub is_healthy : Health → Bool
is_healthy h = status_code h.health_status == 0

abbrev pub too_many_null_images : Health → Bool
too_many_null_images h = above_i16 max_null_image h.count_image_null

abbrev pub too_many_old_timestamps : Health → Bool
too_many_old_timestamps h = above_i16 max_old_timestamp h.count_timestamp_old

-- The counters after a depth message with this time stamp, or after none.
unfoldable pub count_image : Option ℤ → Health → Health
count_image none h = record h { count_image_null = next_i16 h.count_image_null }
count_image (some timestamp_ns) h =
    let is_timestamp_old = not (ltb_ℤ h.last_timestamp timestamp_ns) in
    record h {
      count_image_null = 0;
      last_timestamp = timestamp_ns;
      count_timestamp_old = if is_timestamp_old then next_i16 h.count_timestamp_old else 0;
    }

abbrev counted : Bool → ℕ → Option ℕ
counted true n = some n
counted false n = none

-- The status after the counters, reported when it is not healthy and has changed.
unfoldable pub health_check : Option ℤ → Health → Health
unfolding count_image is_healthy
health_check depth_msg h0 =
    let h = count_image depth_msg h0 in
    let nulls = too_many_null_images h in
    let olds = too_many_old_timestamps h in
    let new_status = status_of nulls olds in
    let status_changed = not (status_code new_status == status_code h.health_status) in
    let report : Report = record {
      null_images = counted nulls h.count_image_null;
      old_timestamps = counted olds h.count_timestamp_old;
    } in
    let checked = record h { health_status = new_status } in
    if not (is_healthy checked) && status_changed
    then record checked { reports = report ∷ checked.reports }
    else checked
