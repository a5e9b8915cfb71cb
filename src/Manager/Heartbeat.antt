-- ===== src/Manager/Heartbeat.antt =====
-- The main loop's rounds (src/AutopilotManager.cpp, `run`).
use autopilot_manager.Common.{
  ℕ, ◌+◌, ◌≡◌, refl, ap, ◌∙◌, Bool, ◌&&◌, List, [], ◌∷◌, arith, if◌then◌else◌,
}
use autopilot_manager.Manager.{Modules, RoundInputs, update_obstacle_avoidance_enabled, run_round}
use autopilot_manager.Manager.Memory.{flag}

unfoldable pub run_rounds : List RoundInputs → Modules → Modules
run_rounds [] s = s
run_rounds (i ∷ rounds) s = run_rounds rounds (run_round i s)

abbrev pub all_healthy : RoundInputs → Bool
all_healthy i = flag i.safe_landing_enabled && ((i.sm_healthy && i.lm_healthy) && i.mm_healthy)

-- How many of the rounds had safe landing enabled and the three modules healthy.
abbrev pub healthy_rounds : List RoundInputs → ℕ
healthy_rounds [] = 0
healthy_rounds (i ∷ rounds) = (if all_healthy i then 1 else 0) + healthy_rounds rounds

-- The answer of the mission manager in the last of the rounds.
abbrev pub last_answer : List RoundInputs → Bool → Bool
last_answer [] b = b
last_answer (i ∷ rounds) b = last_answer rounds i.should_be_enabled

round_lem :
    (i : RoundInputs) (s : Modules)
    → ((run_round i s).heartbeats ≡ (if all_healthy i then 1 else 0) + s.heartbeats)
      × ((run_round i s).obstacle_avoidance_enabled ≡ i.should_be_enabled)
unfolding run_round update_obstacle_avoidance_enabled
round_lem i s = ground arith

round_agrees :
    (i : RoundInputs) (s : Modules)
    → s.landing_oa_enabled ≡ s.obstacle_avoidance_enabled
    → s.sensor_oa_enabled ≡ s.obstacle_avoidance_enabled
    → ((run_round i s).landing_oa_enabled ≡ (run_round i s).obstacle_avoidance_enabled)
      × ((run_round i s).sensor_oa_enabled ≡ (run_round i s).obstacle_avoidance_enabled)
unfolding run_round update_obstacle_avoidance_enabled
round_agrees i s l r = ground arith

-- Over any rounds a heartbeat is sent exactly in those with safe landing enabled and the sensor, the
-- landing and the mission manager healthy.
pub heartbeats_counted :
    (rounds : List RoundInputs) (s : Modules)
    → (run_rounds rounds s).heartbeats ≡ healthy_rounds rounds + s.heartbeats
unfolding run_rounds
heartbeats_counted [] s = omega arith
heartbeats_counted (i ∷ rounds) s =
    let (sent, _) = round_lem i s in omega (arith, sent, heartbeats_counted rounds (run_round i s))

-- If the landing and the sensor manager hold the manager's view of obstacle avoidance at first, then
-- after any rounds all three hold the mission manager's last answer.
pub modules_agree :
    (rounds : List RoundInputs) (s : Modules)
    → s.landing_oa_enabled ≡ s.obstacle_avoidance_enabled
    → s.sensor_oa_enabled ≡ s.obstacle_avoidance_enabled
    → let n = run_rounds rounds s in
      let answer = last_answer rounds s.obstacle_avoidance_enabled in
      (n.obstacle_avoidance_enabled ≡ answer)
      × (n.landing_oa_enabled ≡ answer)
      × (n.sensor_oa_enabled ≡ answer)
unfolding run_rounds
modules_agree [] s l r = (refl, l, r)
modules_agree (i ∷ rounds) s l r =
    let (l', r') = round_agrees i s l r in
    let (_, answered) = round_lem i s in
    let (m, n, o) = modules_agree rounds (run_round i s) l' r' in
    let last = ap (last_answer rounds) answered in (m ∙ last, n ∙ last, o ∙ last)
