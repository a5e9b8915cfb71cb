-- ===== src/Startup/Blocked.antt =====
-- What `main` reaches (src/main.cpp and src/AutopilotManager.cpp).
use autopilot_manager.Common.{
  ℤ, ◌<◌, ◌≢◌, ◌⊎◌, inl, inr, subst, ◌≡◌, refl, sym, ◌∙◌, ap, Bool, true, false, Option, none, some,
  List, Double, HasNan,
}
use autopilot_manager.Types.{MapperState}
use autopilot_manager.Mission.State.{LandingPlanner, IsLandingPlanner}
use autopilot_manager.Mission.Invariant.{Inv, Reach-Inv}
use autopilot_manager.Mission.Initial.{new_mission-Inv}
use autopilot_manager.Landing.Mapper.{LandingMapper}
use autopilot_manager.Sensor.{ImageDownsampler}
use autopilot_manager.Manager.{Manager, initial_provisioning}
use autopilot_manager.System.{
  System, mission_round, on_trajectory, landing_round, main_round, receive_image, Step, Reach,
}
use autopilot_manager.System.Missions.{mission_follows}
use autopilot_manager.Startup.{
  Surroundings, Started, discover, start_modules, start, construct, Phase, Process, is_of_modules,
  ProcessStep, ProcessReach, launched,
}

option_cases {ℓ} : {A : Type ℓ} (a : Option A) → (a ≡ none) ⊎ ((x : A) × (a ≡ some x))
option_cases none = inl refl
option_cases (some x) = inr (x, refl)

runs-ne-exits : {A : Type 0} {a : A} {status : ℤ} → Started.runs a ≢ Started.exits status
runs-ne-exits h = cc

runs_injective : {A : Type 0} {a b : A} → Started.runs a ≡ Started.runs b → a ≡ b
runs_injective h = cc

some-ne-none : {A : Type 0} {a : A} → some a ≢ none
some-ne-none h = cc

some_injective : {A : Type 0} {a b : A} → some a ≡ some b → a ≡ b
some_injective h = cc

module _ {W P Q M D B : Type 0} ⦃d : Double W⦄ ⦃lp : LandingPlanner W P⦄ ⦃lm : LandingMapper W Q M⦄
    (ids : ImageDownsampler W B D) (infinity : W) (site : M → W → W → MapperState) where
  kept-modules :
      {s t : System W P Q M D} (st : Step ids infinity site s t)
      → is_of_modules ids infinity site st ≡ true
      → t.manager ≡ s.manager
  unfolding mission_round on_trajectory landing_round receive_image
  kept-modules (Step.image now msg transform) h = refl
  kept-modules (Step.sensors now) h = refl
  kept-modules (Step.collision c e) h = refl
  kept-modules Step.landing h = refl
  kept-modules (Step.decision o) h = refl
  kept-modules (Step.event e) h = refl
  kept-modules (Step.trajectory i) h = refl
  kept-modules Step.main h = absurd (cc)
  kept-modules (Step.request opened renamed padding q n reply e) h = absurd (cc)

  -- The process is still in the loop of `run`, by the steps of its modules alone.
  abbrev IsBlocked : System W P Q M D → Process W P Q M D → Type 0
  IsBlocked s p =
      (p.phase ≡ Phase.running)
      × (p.interrupt_received ≡ false)
      × (p.system.manager ≡ s.manager)
      × Reach ids infinity site s p.system

  IsBlocked-step :
      {s : System W P Q M D} {p q : Process W P Q M D}
      → IsBlocked s p
      → ProcessStep ids infinity site p q
      → IsBlocked s q
  unfolding main_round
  IsBlocked-step (a, b, c, r) (ProcessStep.modules t st e alive) =
      (a, b, kept-modules st e ∙ c, Reach.next r st)
  IsBlocked-step (a, b, c, r) (ProcessStep.round x y) = (a, b, c, Reach.next r Step.main)
  IsBlocked-step (a, b, c, r) (ProcessStep.leave x y) = absurd (cc)
  IsBlocked-step (a, b, c, r) (ProcessStep.registered connected object_registered replies x y) =
      absurd (cc)
  IsBlocked-step (a, b, c, r) (ProcessStep.request t st x y) = absurd (cc)
  IsBlocked-step (a, b, c, r) (ProcessStep.quit x) = absurd (cc)
  IsBlocked-step (a, b, c, r) (ProcessStep.destroy x) = absurd (cc)

  blocked :
      {s : System W P Q M D} {q : Process W P Q M D}
      → ProcessReach ids infinity site (launched s) q
      → IsBlocked s q
  blocked ProcessReach.here = (refl, refl, refl, Reach.here)
  blocked (ProcessReach.next r st) = IsBlocked-step (blocked r) st

module _ {W P Q M D S : Type 0} ⦃d : Double W⦄ where
  started :
      (has_autopilot : S → Bool) (connected : Bool) (events : List (List S))
      (u : Surroundings W P Q M D) (n : Manager W) (s : System W P Q M D)
      → start has_autopilot connected events u n ≡ Started.runs s
      → (start_modules u n).0 ≡ s
  unfolding start
  started has_autopilot false events u n s h = absurd (cc)
  started has_autopilot true events u n s h = elim (option_cases (discover has_autopilot events)) [
    | inl e ↦ absurd (runs-ne-exits (sym (rw e at h)))
    | inr (x, e) ↦ runs_injective (rw e at h)
  ]

  -- The constructor reaches `run` with the modules started on the provisioned manager.
  pub runs_modules :
      (has_autopilot : S → Bool) (connected : Bool) (events : List (List S))
      (u : Surroundings W P Q M D) (m : Manager W) (s : System W P Q M D)
      → construct has_autopilot connected events u m ≡ some (Started.runs s)
      → (n : Manager W) × (initial_provisioning m ≡ some n) × ((start_modules u n).0 ≡ s)
  unfolding construct
  runs_modules has_autopilot connected events u m s h =
      elim (option_cases (initial_provisioning m)) [
        | inl e ↦ absurd (some-ne-none (sym (rw (e, construct) at h)))
        | inr (n, e) ↦ (
          n,
          e,
          started has_autopilot connected events u n s (some_injective (rw (e, construct) at h)),
        )
      ]

module _ {W P Q M D B S : Type 0} ⦃d : Double W⦄ ⦃lp : LandingPlanner W P⦄
    ⦃lm : LandingMapper W Q M⦄ (ids : ImageDownsampler W B D) (infinity : W)
    (site : M → W → W → MapperState) (has_autopilot : S → Bool) (connected : Bool)
    (events : List (List S)) (u : Surroundings W P Q M D) (m : Manager W) where
  -- Once the constructor of the autopilot manager calls `run`, `main` never gets past it, whatever its
  -- modules and the outside do: no interrupt is received, the D-Bus service is not registered, no request
  -- is handled, and the configuration in memory and the file stay those of the start.
  pub main_never_serves :
      {s : System W P Q M D} {q : Process W P Q M D}
      → construct has_autopilot connected events u m ≡ some (Started.runs s)
      → ProcessReach ids infinity site (launched s) q
      → (q.phase ≡ Phase.running)
        × (q.interrupt_received ≡ false)
        × (initial_provisioning m ≡ some q.system.manager)
  unfolding start_modules
  main_never_serves {s = s} h r =
      let (n, provisioned, modules) = runs_modules has_autopilot connected events u m s h in
      let (phase, interrupt, manager, _) = blocked ids infinity site r in
      (
        phase,
        interrupt,
        provisioned ∙ ap (λ (x : System W P Q M D). some x.manager) modules ∙ ap some (sym manager),
      )

  -- From the start of the program on, whatever its modules and the outside do, while the landing
  -- planner has no active search the override of the waypoint is not a number, and the debounce counter
  -- is below 10.
  pub no_waypoint_without_search :
      {s : System W P Q M D} {q : Process W P Q M D}
      → HasNan d
      → IsLandingPlanner lp
      → construct has_autopilot connected events u m ≡ some (Started.runs s)
      → ProcessReach ids infinity site (launched s) q
      → let mission = q.system.mission in
        (lp.is_active mission.landing_planner ≡ false → d.is_finite mission.new_x ≡ false)
        × (mission.is_stationary_debounce_counter < 10)
  unfolding start_modules
  no_waypoint_without_search {s = s} nan laws h r =
      let (n, _, modules) = runs_modules has_autopilot connected events u m s h in
      let (_, _, _, steps) = blocked ids infinity site r in
      let first =
        subst (λ (x : System W P Q M D). Inv x.mission) modules
          (new_mission-Inv nan u.now u.planner u.memory) in
      let last = Reach-Inv nan laws first (mission_follows ids infinity site steps) in
      (last.waypoint_of_search, last.counter_below)
