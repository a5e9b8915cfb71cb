-- ===== src/System/Obstacle.antt =====
-- From a pixel of a depth image to an action of the collision avoidance (src/AutopilotManager.cpp and
-- the modules that it connects).
use autopilot_manager.Common.{◌≢◌, subst, ◌≡◌, refl, sym, ◌∙◌, true, false, some, Double}
use autopilot_manager.Types.{MapperState}
use autopilot_manager.Mission.State.{LandingPlanner}
use autopilot_manager.Mission.Retry.{uses_collision_avoidance}
use autopilot_manager.Mission.Near.{round-IsNear}
use autopilot_manager.Landing.Cloud.{DepthPixel, DepthImage}
use autopilot_manager.Landing.Mapper.{LandingMapper}
use autopilot_manager.Collision.Source.{IsDepthOf, Source, compute_distance_source}
use autopilot_manager.Sensor.{ImageDownsampler}
use autopilot_manager.Manager.Memory.{mission_configuration, collision_configuration}
use autopilot_manager.System.{
  System, Outside, mission_inputs, mission_round, on_trajectory, landing_round, main_round,
  receive_image, collision_round, Step, Reach,
}

module _ {W P Q M D B : Type 0} ⦃d : Double W⦄ ⦃lp : LandingPlanner W P⦄ ⦃lm : LandingMapper W Q M⦄
    (ids : ImageDownsampler W B D) (infinity : W) (site : M → W → W → MapperState) where
  -- The sensor manager held the image in a state between the two.
  pub record Held (s t : System W P Q M D) (image : DepthImage W Q) : Type 0 where
    pub at : System W P Q M D
    pub from_first : Reach ids infinity site s at
    pub to_last : Reach ids infinity site at t
    pub holds : at.sensor.downsampled_depth ≡ some image

  -- The distance is the one from before, infinity, or that of a pixel in the region of interest of an
  -- image that was held.
  pub data Measured (s t : System W P Q M D) (depth : W) : Type 0 where
    initial : depth ≡ s.collision.depth → Measured s t depth
    nothing : depth ≡ infinity → Measured s t depth
    pixel :
        (image : DepthImage W Q) (p : DepthPixel W)
        → Held s t image
        → IsDepthOf s.collision.roi_settings image depth p
        → Measured s t depth

  Held-longer :
      {s t u : System W P Q M D} {image : DepthImage W Q}
      → Held s t image
      → Step ids infinity site t u
      → Held s u image
  Held-longer h st = record {
    at = h.at;
    from_first = h.from_first;
    to_last = Reach.next h.to_last st;
    holds = h.holds;
  }

  measured_longer :
      {s t u : System W P Q M D} {depth : W}
      → Measured s t depth
      → Step ids infinity site t u
      → Measured s u depth
  measured_longer (Measured.initial e) st = Measured.initial e
  measured_longer (Measured.nothing e) st = Measured.nothing e
  measured_longer (Measured.pixel image p h e) st = Measured.pixel image p (Held-longer h st) e

  -- The invariant of the collision avoidance within the program.
  abbrev pub IsMeasured : System W P Q M D → System W P Q M D → Type 0
  IsMeasured s t =
      (t.collision.roi_settings ≡ s.collision.roi_settings) × Measured s t t.collision.depth

  source_measured :
      {s t u : System W P Q M D} {depth : W}
      → Reach ids infinity site s t
      → Step ids infinity site t u
      → IsMeasured s t
      → Source infinity t.sensor.downsampled_depth t.collision depth
      → Measured s u depth
  source_measured r st (roi, m) (Source.before _ e) =
      measured_longer (subst (Measured _ _) (sym e) m) st
  source_measured r st (roi, m) (Source.nothing _ e) = Measured.nothing e
  source_measured {t = t} {depth = depth} r st (roi, m) (Source.pixel _ image p e is_depth) =
      Measured.pixel image p
        (record { at = t; from_first = r; to_last = Reach.next Reach.here st; holds = e })
        (subst (λ settings. IsDepthOf settings image depth p) roi is_depth)

  Step-IsMeasured :
      {s t u : System W P Q M D}
      → Reach ids infinity site s t
      → Step ids infinity site t u
      → IsMeasured s t
      → IsMeasured s u
  unfolding mission_round on_trajectory landing_round main_round receive_image collision_round
  Step-IsMeasured r (Step.image now msg transform) (roi, m) =
      (roi, measured_longer m (Step.image now msg transform))
  Step-IsMeasured r (Step.sensors now) (roi, m) = (roi, measured_longer m (Step.sensors now))
  Step-IsMeasured {t = t} r (Step.collision c e) (roi, m) =
      let (same, source) =
        compute_distance_source infinity (collision_configuration t.manager.members)
          t.sensor.downsampled_depth t.collision c e in
      (same ∙ roi, source_measured r (Step.collision c e) (roi, m) source)
  Step-IsMeasured r Step.landing (roi, m) = (roi, measured_longer m Step.landing)
  Step-IsMeasured r (Step.decision o) (roi, m) = (roi, measured_longer m (Step.decision o))
  Step-IsMeasured r (Step.event e) (roi, m) = (roi, measured_longer m (Step.event e))
  Step-IsMeasured r (Step.trajectory i) (roi, m) = (roi, measured_longer m (Step.trajectory i))
  Step-IsMeasured r Step.main (roi, m) = (roi, measured_longer m Step.main)
  Step-IsMeasured r (Step.request opened renamed padding q n reply e) (roi, m) =
      (roi, measured_longer m (Step.request opened renamed padding q n reply e))

  pub Reach-IsMeasured : {s t : System W P Q M D} → Reach ids infinity site s t → IsMeasured s t
  Reach-IsMeasured Reach.here = (refl, Measured.initial refl)
  Reach-IsMeasured (Reach.next r st) = Step-IsMeasured r st (Reach-IsMeasured r)

  cause_of :
      {s t : System W P Q M D} {depth threshold : W}
      → d.is_finite d.nan ≡ false
      → d.is_finite infinity ≡ false
      → s.collision.depth ≡ d.nan
      → Measured s t depth
      → d.is_finite depth ≡ true
      → d.le depth threshold ≡ true
      → (image : DepthImage W Q) × (p : DepthPixel W) × Held s t image
        × IsDepthOf s.collision.roi_settings image depth p
        × (d.is_finite p.depth ≡ true)
        × (d.le p.depth threshold ≡ true)
  cause_of a b first (Measured.initial e) finite near = absurd (cc)
  cause_of a b first (Measured.nothing e) finite near = absurd (cc)
  cause_of {threshold = threshold} a b first (Measured.pixel image p h is_depth) finite near = (
    image,
    p,
    h,
    is_depth,
    subst (λ x. d.is_finite x ≡ true) is_depth.2 finite,
    subst (λ x. d.le x threshold ≡ true) is_depth.2 near,
  )

  -- If the decision maker's input is the collision avoidance, and a round gives a command, in a state
  -- that the program has reached by whatever steps of its modules from one where no distance was
  -- measured, then the sensor manager held an image on the way of which some pixel in the region of
  -- interest has a depth that is a number not above the configured threshold.
  pub avoidance_has_cause :
      {s t : System W P Q M D} (o : Outside W)
      → d.is_finite d.nan ≡ false
      → d.is_finite infinity ≡ false
      → s.collision.depth ≡ d.nan
      → Reach ids infinity site s t
      → uses_collision_avoidance (mission_configuration t.manager.members) ≡ true
      → (mission_round site o t).mission.log ≢ t.mission.log
      → let threshold = t.manager.members.simple_collision_avoid_distance_threshold in
        (image : DepthImage W Q) × (p : DepthPixel W) × Held s t image
        × IsDepthOf s.collision.roi_settings image t.collision.depth p
        × (d.is_finite p.depth ≡ true)
        × (d.le p.depth threshold ≡ true)
  unfolding mission_round mission_inputs mission_configuration
  avoidance_has_cause {t = t} o a b first r input h =
      let (finite, near) = round-IsNear (mission_inputs site o t) t.mission input h in
      cause_of a b first (Reach-IsMeasured r).1 finite near
