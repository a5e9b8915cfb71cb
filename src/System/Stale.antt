-- ===== src/System/Stale.antt =====
-- The distance to an obstacle while no image arrives (src/AutopilotManager.cpp and the modules that it
-- connects).
use autopilot_manager.Common.{
  ℕ, ◌≡◌, refl, ◌∙◌, ap, Bool, true, false, not, ◌&&◌, Option, none, some, Double, ltb, length,
  arith, if◌then◌else◌,
}
use autopilot_manager.Types.{MapperState}
use autopilot_manager.Mission.State.{LandingPlanner}
use autopilot_manager.Landing.Cloud.{DepthPixel, DepthImage}
use autopilot_manager.Landing.Mapper.{LandingMapper}
use autopilot_manager.Collision.{
  RoiSettings, CollisionAvoidance, region, filter_pixels_to_roi, min_element, store_distance,
  compute_distance_to_obstacle,
}
use autopilot_manager.Sensor.{
  ImageDownsampler, SensorManager, health_check, update_health, report_status,
}
use autopilot_manager.Manager.Memory.{CollisionConfiguration, collision_configuration}
use autopilot_manager.System.{
  System, mission_round, on_trajectory, landing_round, main_round, collision_round, Step, Reach,
}
use autopilot_manager.System.Obstacle.{Reach-IsMeasured}

pub split : (a b : Bool) → not a && b ≡ true → (a ≡ false) × (b ≡ true)
split a b h = (ground arith, ground arith)

abbrev pub is_enabled : CollisionConfiguration → Bool
is_enabled config = config.autopilot_manager_enabled && config.simple_collision_avoid_enabled

module _ {W : Type 0} where
  stored_again :
      (m : Option (DepthPixel W)) (s t n : CollisionAvoidance W)
      → store_distance m s ≡ some n
      → (k : CollisionAvoidance W) × (store_distance m t ≡ some k) × (k.depth ≡ n.depth)
  stored_again none s t n h = absurd (cc)
  stored_again (some p) s t n h = (_, refl, ground arith)

  image_again :
      (infinity : W) (some_pixels : Bool) (m m' : Option (DepthPixel W))
      (s t n : CollisionAvoidance W)
      → m' ≡ m
      → (if some_pixels then store_distance m s else some (record s { depth = infinity })) ≡ some n
      → (k : CollisionAvoidance W) × ((if some_pixels
            then store_distance m' t
            else some (record t { depth = infinity }))
          ≡ some k)
        × (k.depth ≡ n.depth)
  image_again infinity true m m' s t n e h =
      stored_again m' s t n (ap (λ x. store_distance x s) e ∙ h)
  image_again infinity false m m' s t n e h = (_, refl, ground arith)

module _ {W Q : Type 0} ⦃d : Double W⦄ where
  -- The distance depends on the image and on the region of interest only.
  same_distance :
      (infinity : W) (config later : CollisionConfiguration) (depth_msg : Option (DepthImage W Q))
      (s t n : CollisionAvoidance W)
      → is_enabled config ≡ true
      → is_enabled later ≡ true
      → t.roi_settings ≡ s.roi_settings
      → compute_distance_to_obstacle infinity config depth_msg s ≡ some n
      → (k : CollisionAvoidance W) × (compute_distance_to_obstacle infinity later depth_msg t
          ≡ some k)
        × (k.depth ≡ n.depth)
  unfolding compute_distance_to_obstacle
  same_distance infinity config later none s t n on still roi h =
      (record t { depth = infinity }, simp still, ground (arith, on))
  same_distance infinity config later (some image) s t n on still roi h =
      let pixels = λ (settings : RoiSettings W). min_element (
        filter_pixels_to_roi (region settings image.rw_pixels image.rh_pixels)
          image.depth_pixel_array) in
      simp still (
        image_again infinity (ltb 0 (length image.depth_pixel_array)) (pixels s.roi_settings)
          (pixels t.roi_settings) s t n (ap pixels roi) (simp on at h))

module _ {W Q D : Type 0} where
  health_check-depth :
      (now : ℕ) (s : SensorManager W Q D)
      → (health_check now s).downsampled_depth ≡ s.downsampled_depth
  unfolding health_check update_health report_status
  health_check-depth now s = ground arith

module _ {W P Q M D B : Type 0} ⦃d : Double W⦄ ⦃lp : LandingPlanner W P⦄ ⦃lm : LandingMapper W Q M⦄
    (ids : ImageDownsampler W B D) (infinity : W) (site : M → W → W → MapperState) where
  abbrev pub is_image : {s t : System W P Q M D} → Step ids infinity site s t → Bool
  is_image (Step.image now msg transform) = true
  is_image _ = false

  -- The steps after which the depth image may be another.
  abbrev pub no_images : {s t : System W P Q M D} → Reach ids infinity site s t → Bool
  no_images Reach.here = true
  no_images (Reach.next r st) = not (is_image st) && no_images r

  pub kept-step :
      {s t : System W P Q M D} (st : Step ids infinity site s t)
      → is_image st ≡ false
      → t.sensor.downsampled_depth ≡ s.sensor.downsampled_depth
  unfolding mission_round on_trajectory landing_round main_round
  kept-step (Step.image now msg transform) h = absurd (cc)
  kept-step {s = s} (Step.sensors now) h = health_check-depth now s.sensor
  kept-step (Step.collision c e) h = refl
  kept-step Step.landing h = refl
  kept-step (Step.decision o) h = refl
  kept-step (Step.event e) h = refl
  kept-step (Step.trajectory i) h = refl
  kept-step Step.main h = refl
  kept-step (Step.request opened renamed padding q n reply e) h = refl

  pub kept :
      {s t : System W P Q M D} (r : Reach ids infinity site s t)
      → no_images r ≡ true
      → t.sensor.downsampled_depth ≡ s.sensor.downsampled_depth
  kept Reach.here h = refl
  kept (Reach.next r st) h =
      let (other, before) = split (is_image st) (no_images r) h in
      kept-step st other ∙ kept r before

  -- If the collision avoidance is enabled and finds a distance in some state, then it finds the same
  -- distance in every later one in which it is enabled and up to which no image has arrived, whatever
  -- time passes and whatever the health check of the sensors says.
  pub distance_outlives_images :
      {s t : System W P Q M D} (r : Reach ids infinity site s t) (n : CollisionAvoidance W)
      → no_images r ≡ true
      → is_enabled (collision_configuration s.manager.members) ≡ true
      → is_enabled (collision_configuration t.manager.members) ≡ true
      → collision_round infinity s ≡ some n
      → (k : CollisionAvoidance W) × (collision_round infinity t ≡ some k) × (k.depth ≡ n.depth)
  unfolding collision_round
  distance_outlives_images {s = s} {t = t} r n quiet on still h =
      let roi = (Reach-IsMeasured ids infinity site r).0 in
      same_distance infinity (collision_configuration s.manager.members)
        (collision_configuration t.manager.members) t.sensor.downsampled_depth s.collision
        t.collision n on still roi
        (ap
            (λ m.
              compute_distance_to_obstacle infinity (collision_configuration s.manager.members) m
                s.collision)
            (kept r quiet)
          ∙ h)
