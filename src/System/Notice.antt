-- ===== src/System/Notice.antt =====
-- How the landing manager notices that no image arrives (src/AutopilotManager.cpp and the modules that
-- it connects).
use autopilot_manager.Common.{
  ℕ, suc, ◌+◌, ◌<◌, ◌≡◌, refl, sym, ◌∙◌, subst, inl, inr, Bool, true, false, ◌&&◌, Option, some,
  Double, leb, pos, arith, if◌then◌else◌,
}
use mathlib.Core.Bool.{false≢true}
use autopilot_manager.Types.{MapperState}
use autopilot_manager.Mission.State.{LandingPlanner}
use autopilot_manager.Landing.Cloud.{DepthImage}
use autopilot_manager.Landing.Health.{is_healthy, health_check}
use autopilot_manager.Landing.Mapper.{LandingMapper, Landing, mapper}
use autopilot_manager.Landing.Parameters.{Configuration}
use autopilot_manager.Landing.States.{mapper_publishes, mapper_disabled, mapper-health}
use autopilot_manager.Sensor.{ImageDownsampler}
use autopilot_manager.Sensor.Images.{Repeated, Repeated-check}
use autopilot_manager.Manager.Memory.{landing_configuration}
use autopilot_manager.System.{
  System, mission_round, on_trajectory, landing_round, main_round, Step, Reach,
}
use autopilot_manager.System.Stale.{is_image, no_images, split, kept}

module _ {W M : Type 0} where
  -- The mapper runs: the manager, safe landing and obstacle avoidance are enabled.
  abbrev pub is_on : Configuration W → Landing W M → Bool
  is_on config l = (config.autopilot_manager_enabled && config.safe_landing_enabled) && l.oa_enabled

  -- After `n` checks of an image that was seen before: the health, and the state from the 51st on.
  abbrev Noticed : ℕ → ℕ → Landing W M → Type 0
  Noticed nanosec n l =
      Repeated nanosec n l.health × (leb n 50 ≡ false → l.state ≡ MapperState.unhealthy)

zero_add : (n : ℕ) → n ≡ 0 + n
zero_add n = omega arith

both : (a b : Bool) → a && b ≡ true → (a ≡ true) × (b ≡ true)
both a b h = (ground arith, ground arith)

module _ {W M : Type 0} where
  unchanged : (nanosec n : ℕ) (l : Landing W M) → Noticed nanosec n l → Noticed nanosec (0 + n) l
  unchanged nanosec n l h = subst (λ k. Noticed nanosec k l) (zero_add n) h

module _ {W Q M : Type 0} ⦃d : Double W⦄ ⦃lm : LandingMapper W Q M⦄ where
  Noticed-on :
      (nanosec n : ℕ) (config : Configuration W) (image : DepthImage W Q) (l : Landing W M)
      → is_on config l ≡ true
      → image.timestamp_ns ≡ pos nanosec
      → suc n < 32768
      → Noticed nanosec n l
      → Noticed nanosec (suc n) (mapper config (some image) l)
  Noticed-on nanosec n config image l on stamp small (r, _) =
      let (enabled, oa) = both _ _ on in
      let (_, published) = mapper_publishes config (some image) l enabled oa in
      let health = mapper-health config (some image) l on in
      let next = Repeated-check nanosec n l.health r small in
      let checked =
        subst (λ t. Repeated nanosec (suc n) (health_check (some t) l.health)) (sym stamp) next in
      (
        subst (Repeated nanosec (suc n)) (sym health) checked,
        λ late. elim published [
          | inl unhealthy ↦ unhealthy.1
          | inr (inl healthy) ↦ absurd (ground (arith, checked.healthy))
          | inr (inr healthy) ↦ absurd (ground (arith, checked.healthy))
        ],
      )

  Noticed-off :
      (nanosec n : ℕ) (config : Configuration W) (depth_msg : Option (DepthImage W Q))
      (l : Landing W M)
      → is_on config l ≡ false
      → Noticed nanosec n l
      → Noticed nanosec n (mapper config depth_msg l)
  Noticed-off nanosec n config depth_msg l off h =
      subst (Noticed nanosec n) (sym (mapper_disabled config depth_msg l off)) h

  Noticed-cases :
      (b : Bool) (nanosec n : ℕ) (config : Configuration W) (image : DepthImage W Q)
      (l : Landing W M)
      → is_on config l ≡ b
      → image.timestamp_ns ≡ pos nanosec
      → (if b then 1 else 0) + n < 32768
      → Noticed nanosec n l
      → Noticed nanosec ((if b then 1 else 0) + n) (mapper config (some image) l)
  Noticed-cases true nanosec n config image l on stamp small h =
      let next : suc n ≡ 1 + n = omega arith in
      subst (λ k. Noticed nanosec k (mapper config (some image) l)) next
        (Noticed-on nanosec n config image l on stamp (omega arith) h)
  Noticed-cases false nanosec n config image l off stamp small h =
      unchanged nanosec n (mapper config (some image) l)
        (Noticed-off nanosec n config (some image) l off h)

module _ {W P Q M D B : Type 0} ⦃d : Double W⦄ ⦃lp : LandingPlanner W P⦄ ⦃lm : LandingMapper W Q M⦄
    (ids : ImageDownsampler W B D) (infinity : W) (site : M → W → W → MapperState) where
  abbrev runs_mapper : System W P Q M D → Bool
  runs_mapper s = is_on (landing_configuration s.manager.members) s.landing

  abbrev check_of : {s t : System W P Q M D} → Step ids infinity site s t → ℕ
  check_of {s = s} Step.landing = if runs_mapper s then 1 else 0
  check_of _ = 0

  -- How often the mapper ran.
  abbrev pub checks : {s t : System W P Q M D} → Reach ids infinity site s t → ℕ
  checks Reach.here = 0
  checks (Reach.next r st) = check_of st + checks r

  Noticed-landing :
      (nanosec n : ℕ) (image : DepthImage W Q) (s : System W P Q M D)
      → image.timestamp_ns ≡ pos nanosec
      → s.sensor.downsampled_depth ≡ some image
      → (if runs_mapper s then 1 else 0) + n < 32768
      → Noticed nanosec n s.landing
      → Noticed nanosec ((if runs_mapper s then 1 else 0) + n) (landing_round s).landing
  unfolding landing_round
  Noticed-landing nanosec n image s stamp held small h =
      let config = landing_configuration s.manager.members in
      subst
        (λ depth_msg.
          Noticed nanosec ((if runs_mapper s then 1 else 0) + n)
            (mapper config depth_msg s.landing))
        (sym held)
        (Noticed-cases (runs_mapper s) nanosec n config image s.landing refl stamp small h)

  Noticed-step :
      {s t : System W P Q M D} (nanosec n : ℕ) (image : DepthImage W Q)
      (st : Step ids infinity site s t)
      → is_image ids infinity site st ≡ false
      → image.timestamp_ns ≡ pos nanosec
      → s.sensor.downsampled_depth ≡ some image
      → check_of st + n < 32768
      → Noticed nanosec n s.landing
      → Noticed nanosec (check_of st + n) t.landing
  unfolding mission_round on_trajectory main_round
  Noticed-step nanosec n image (Step.image now msg transform) quiet stamp held small h = absurd (cc)
  Noticed-step {s = s} nanosec n image (Step.sensors now) quiet stamp held small h =
      unchanged nanosec n s.landing h
  Noticed-step {s = s} nanosec n image (Step.collision c e) quiet stamp held small h =
      unchanged nanosec n s.landing h
  Noticed-step {s = s} nanosec n image Step.landing quiet stamp held small h =
      Noticed-landing nanosec n image s stamp held small h
  Noticed-step {s = s} nanosec n image (Step.decision o) quiet stamp held small h =
      unchanged nanosec n s.landing h
  Noticed-step {s = s} nanosec n image (Step.event e) quiet stamp held small h =
      unchanged nanosec n s.landing h
  Noticed-step {s = s} nanosec n image (Step.trajectory i) quiet stamp held small h =
      unchanged nanosec n s.landing h
  Noticed-step {s = s} nanosec n image Step.main quiet stamp held small h =
      unchanged nanosec n (main_round s).landing h
  Noticed-step {s = s} nanosec n image (Step.request opened renamed padding q m reply e) quiet stamp
        held small h =
      unchanged nanosec n s.landing h

  Reach-Noticed :
      {s t : System W P Q M D} (nanosec : ℕ) (image : DepthImage W Q)
      (r : Reach ids infinity site s t)
      → no_images ids infinity site r ≡ true
      → image.timestamp_ns ≡ pos nanosec
      → s.sensor.downsampled_depth ≡ some image
      → checks r < 32768
      → Noticed nanosec 0 s.landing
      → Noticed nanosec (checks r) t.landing
  Reach-Noticed nanosec image Reach.here quiet stamp held small h = h
  Reach-Noticed nanosec image (Reach.next r st) quiet stamp held small h =
      let (other, before) =
        split (is_image ids infinity site st) (no_images ids infinity site r) quiet in
      Noticed-step nanosec (checks r) image st other stamp (kept ids infinity site r before ∙ held)
        small (Reach-Noticed nanosec image r before stamp held (omega arith) h)

  -- If the landing manager has checked an image, with nothing amiss, and no further one arrives, then
  -- after 51 more runs of its mapper, and before 32768 of them, its input counts as unhealthy and its
  -- state is `unhealthy`; before the 51st the input counts as healthy. This holds whatever else the
  -- modules do.
  pub landing_notices :
      {s t : System W P Q M D} (nanosec : ℕ) (image : DepthImage W Q)
      (r : Reach ids infinity site s t)
      → no_images ids infinity site r ≡ true
      → image.timestamp_ns ≡ pos nanosec
      → s.sensor.downsampled_depth ≡ some image
      → s.landing.health.last_timestamp ≡ pos nanosec
      → s.landing.health.count_timestamp_old ≡ 0
      → is_healthy s.landing.health ≡ true
      → checks r < 32768
      → (is_healthy t.landing.health ≡ leb (checks r) 50)
        × (leb (checks r) 50 ≡ false → t.landing.state ≡ MapperState.unhealthy)
  landing_notices {s = s} nanosec image r quiet stamp held last count healthy small =
      let first : Repeated nanosec 0 s.landing.health = record {
        last = last;
        count = count;
        healthy = healthy;
      } in
      let (health, state) =
        Reach-Noticed nanosec image r quiet stamp held small
          (first, λ late. absurd (false≢true (sym late))) in
      (health.healthy, state)
