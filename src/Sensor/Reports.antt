-- ===== src/Sensor/Reports.antt =====
-- The reports of the sensors' health over a run of checks
-- (src/modules/sensor_manager/SensorManager.cpp, `health_check`).
use autopilot_manager.Common.{
  ℕ, ◌+◌, ◌≤◌, ◌≡◌, refl, sym, inl, inr, ◌==◌, Bool-cases, ap, ◌∙◌, true, false, some, List, [],
  ◌∷◌, All, arith, ltb,
}
use autopilot_manager.Sensor.{
  SensorHealth, health_code, SensorManager, is_recent, sensor_health, update_health, report_status,
  health_check,
}

code_eq : (x : SensorHealth) → (health_code x == health_code x) ≡ true
code_eq x = ground arith

module _ {W Q D : Type 0} where
  unfoldable pub health_checks : List ℕ → SensorManager W Q D → SensorManager W Q D
  health_checks [] s = s
  health_checks (now ∷ times) s = health_checks times (health_check now s)

  -- The status by the ages at the time `now`.
  abbrev pub health_at : ℕ → SensorManager W Q D → SensorHealth
  health_at now s =
      sensor_health (is_recent now s.time_last_odometry) (is_recent now s.time_last_image)

  -- What checks leave while reports are disabled and one is due.
  record Waiting (start : ℕ) (s0 s : SensorManager W Q D) : Type 0 where
    due : s.should_report_status ≡ true
    disabled : s.oa_enabled ≡ false
    quiet : s.messages ≡ s0.messages
    started : s.time_start ≡ some start
    odometry : s.time_last_odometry ≡ s0.time_last_odometry
    image : s.time_last_image ≡ s0.time_last_image

  Waiting-check :
      (now start : ℕ) (s0 s : SensorManager W Q D)
      → Waiting start s0 s
      → Waiting start s0 (health_check now s)
  unfolding health_check update_health report_status
  Waiting-check now start s0 s h = ground arith

  Waiting-checks :
      (times : List ℕ) (start : ℕ) (s0 s : SensorManager W Q D)
      → Waiting start s0 s
      → Waiting start s0 (health_checks times s)
  unfolding health_checks
  Waiting-checks [] start s0 s h = h
  Waiting-checks (now ∷ times) start s0 s h =
      Waiting-checks times start s0 (health_check now s) (Waiting-check now start s0 s h)

  report_due :
      (start last : ℕ) (s0 w : SensorManager W Q D)
      → Waiting start s0 w
      → start + 5_000_000_000 ≤ last
      → (health_check last (record w { oa_enabled = true })).messages
        ≡ health_at last s0 ∷ s0.messages
  unfolding health_check update_health report_status
  report_due start last s0 w h l = ground arith

  -- A report that is due is not lost while obstacle avoidance is disabled: no check sends it then,
  -- however many there are, and the first check after it is enabled, from five seconds after the start
  -- on, sends one report, of the health by the ages at that time.
  pub report_not_lost :
      (times : List ℕ) (start last : ℕ) (s : SensorManager W Q D)
      → s.time_start ≡ some start
      → s.should_report_status ≡ true
      → s.oa_enabled ≡ false
      → start + 5_000_000_000 ≤ last
      → let w = health_checks times s in
        (w.messages ≡ s.messages)
        × ((health_check last (record w { oa_enabled = true })).messages
            ≡ health_at last s ∷ s.messages)
  report_not_lost times start last s e d o l =
      let waiting : Waiting start s s = record {
        due = d;
        disabled = o;
        quiet = refl;
        started = e;
        odometry = refl;
        image = refl;
      } in
      let h = Waiting-checks times start s s waiting in
      (h.quiet, report_due start last s (health_checks times s) h l)

  -- What checks leave while the health stays as it was reported.
  steady_check :
      (now start : ℕ) (s : SensorManager W Q D)
      → s.time_start ≡ some start
      → s.should_report_status ≡ false
      → health_at now s ≡ s.health_status
      → health_check now s ≡ s
  unfolding health_check update_health report_status
  steady_check now start s e d h =
      let whole : record s { time_start = some start; should_report_status = false } ≡ s =
        ap (λ b. record s { time_start = some start; should_report_status = b }) (sym d)
        ∙ ap (λ t. record s { time_start = t }) (sym e) in
      elim (Bool-cases (ltb now (start + 5_000_000_000))) [
        | inl early ↦ simp (e, early)
        | inr late ↦ simp (e, late, d, h, code_eq s.health_status) whole
      ]

  -- Once reported the health is not reported again as long as it stays the same, whether obstacle
  -- avoidance is enabled or not: such checks change nothing.
  pub reported_once :
      (times : List ℕ) (start : ℕ) (s : SensorManager W Q D)
      → s.time_start ≡ some start
      → s.should_report_status ≡ false
      → All (λ now. health_at now s ≡ s.health_status) times
      → health_checks times s ≡ s
  unfolding health_checks
  reported_once [] start s e d h = refl
  reported_once (now ∷ times) start s e d (h, hs) =
      let same = steady_check now start s e d h in
      ap (health_checks times) same ∙ reported_once times start s e d hs
