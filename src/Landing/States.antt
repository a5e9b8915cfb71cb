-- ===== src/Landing/States.antt =====
-- The landing state that one call of `mapper` leaves and publishes
-- (src/modules/landing_manager/LandingManager.cpp).
use autopilot_manager.Common.{
  ◌+◌, ◌≡◌, refl, ◌⊎◌, inl, inr, Bool-cases, Bool, true, false, ◌&&◌, Option, none, some, ltb,
  length, ◌∷◌, Double, arith, if◌then◌else◌,
}
use autopilot_manager.Types.{MapperState, mapper_eq}
use autopilot_manager.Landing.Health.{is_healthy, health_check}
use autopilot_manager.Landing.Parameters.{Configuration, update_parameters}
use autopilot_manager.Landing.Cloud.{DepthImage}
use autopilot_manager.Landing.Mapper.{
  LandingMapper, Landing, is_enabled_in_config, process_image, timestamp_of, process_depth, mapper,
}

abbrev pub has_pixels : {W Q : Type 0} → Option (DepthImage W Q) → Bool
has_pixels none = false
has_pixels (some image) = ltb 0 (length image.depth_pixel_array)

module _ {W Q M : Type 0} ⦃d : Double W⦄ ⦃lm : LandingMapper W Q M⦄ where
  -- While the manager, safe landing and obstacle avoidance are enabled, a call publishes exactly one
  -- state, the one that it leaves. That is `unhealthy` where the input is not healthy; where it is
  -- healthy and no pixel came, it is `unknown`, unless it was and stays `close_to_ground`; and where an
  -- image with pixels came, it is the landing mapper's answer, and the height above the obstacle is read
  -- from the mapper after that answer. Only the last counts an image.
  pub mapper_publishes :
      (config : Configuration W) (depth_msg : Option (DepthImage W Q)) (l : Landing W M)
      → config.autopilot_manager_enabled && config.safe_landing_enabled ≡ true
      → l.oa_enabled ≡ true
      → let n = mapper config depth_msg l in
        let healthy = is_healthy (health_check (timestamp_of depth_msg) l.health) in
        (n.published ≡ n.state ∷ l.published)
        × (((healthy ≡ false)
              × (n.state ≡ MapperState.unhealthy)
              × (n.images_processed ≡ l.images_processed))
            ⊎ (((healthy ≡ true)
                  × (has_pixels depth_msg ≡ false)
                  × (n.images_processed ≡ l.images_processed)
                  × (n.state ≡ (
                      if mapper_eq l.state MapperState.close_to_ground
                      then l.state
                      else MapperState.unknown)))
                ⊎ ((healthy ≡ true)
                    × (has_pixels depth_msg ≡ true)
                    × (n.images_processed ≡ l.images_processed + 1)
                    × ((m : M) × (lm.check_landing_area m ≡ (n.state, n.landing_mapper)))
                    × (n.height_above_obstacle ≡ lm.get_height_above_obstacle n.landing_mapper))))
  unfolding mapper process_depth process_image is_enabled_in_config
  mapper_publishes config none l on oa = ground arith
  mapper_publishes config (some image) l on oa =
      elim (Bool-cases (is_healthy (health_check (some image.timestamp_ns) l.health))) [
        | inl h ↦ elim (Bool-cases (ltb 0 (length image.depth_pixel_array))) [
          | inl p ↦ simp (on, oa, h, p) (refl, inr (inr (refl, refl, refl, (_, refl), refl)))
          | inr p ↦ ground arith
        ]
        | inr h ↦ ground arith
      ]

  pub mapper-health :
      (config : Configuration W) (depth_msg : Option (DepthImage W Q)) (l : Landing W M)
      → (config.autopilot_manager_enabled && config.safe_landing_enabled) && l.oa_enabled ≡ true
      → (mapper config depth_msg l).health ≡ health_check (timestamp_of depth_msg) l.health
  unfolding mapper process_depth process_image is_enabled_in_config
  mapper-health config none l on = ground arith
  mapper-health config (some image) l on = ground arith

  -- While one of the three is disabled, a call publishes nothing and leaves the state, the health
  -- counters and the landing mapper; the configuration and the parameters are updated all the same.
  pub mapper_disabled :
      (config : Configuration W) (depth_msg : Option (DepthImage W Q)) (l : Landing W M)
      → (config.autopilot_manager_enabled && config.safe_landing_enabled) && l.oa_enabled ≡ false
      → mapper config depth_msg l
        ≡ record l { config = config; parameters = update_parameters config l.parameters }
  unfolding mapper is_enabled_in_config
  mapper_disabled config depth_msg l off = simp off
