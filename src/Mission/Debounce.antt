-- ===== src/Mission/Debounce.antt =====
-- The debounced test for standing still (src/modules/mission_manager/MissionManager.cpp,
-- `debounce_is_stationary`) over a run of samples.
use autopilot_manager.Common.{
  ℕ, zero, suc, ◌+◌, ◌<◌, ◌≡◌, ◌∙◌, ap, refl, ◌==◌, if◌then◌else◌, Bool, true, false, List, [], ◌∷◌,
  ◌++◌, arith, replicate,
}
use autopilot_manager.Mission.Waypoint.{debounce_is_stationary}

-- The counter after the samples, and the result of the last of them.
unfoldable pub debounce_run : List Bool → ℕ × Bool → ℕ × Bool
debounce_run [] r = r
debounce_run (s ∷ samples) r = debounce_run samples (debounce_is_stationary s r.0)

debounce_run-append :
    (xs ys : List Bool) (r : ℕ × Bool)
    → debounce_run (xs ++ ys) r ≡ debounce_run ys (debounce_run xs r)
unfolding debounce_run
debounce_run-append [] ys r = refl
debounce_run-append (x ∷ xs) ys r = debounce_run-append xs ys (debounce_is_stationary x r.0)

-- Samples at rest only: fewer than ten count up, and the tenth is reported.
still_run :
    (n c : ℕ) (b : Bool)
    → n + c < 10
    → debounce_run (replicate (suc n) true) (c, b)
      ≡ (if n + c == 9 then (0, true) else (suc (n + c), false))
unfolding debounce_run debounce_is_stationary
still_run zero c b h = ground arith
still_run (suc n) c b h =
    let e : n + (c + 1) ≡ suc n + c = omega arith in
    let step : debounce_is_stationary true c ≡ (c + 1, false) = ground arith in
    ap (debounce_run (replicate (suc n) true)) step ∙ still_run n (c + 1) false (omega arith) ∙ rw e

fresh_run : (n : ℕ) (r : ℕ × Bool) → n < 10 → debounce_run (false ∷ replicate n true) r ≡ (n, false)
unfolding debounce_run debounce_is_stationary
fresh_run zero r h = refl
fresh_run (suc n) r h = ground (arith, still_run n 0 false)

-- Whatever came before, a sample in motion followed by fewer than ten at rest is not yet stationary;
-- with the tenth it is, and the counter starts again.
pub debounce_counts_ten :
    (before : List Bool) (start : ℕ × Bool) (n : ℕ)
    → n < 10
    → (debounce_run (before ++ (false ∷ replicate n true)) start ≡ (n, false))
      × (debounce_run (before ++ (false ∷ replicate 10 true)) start ≡ (0, true))
debounce_counts_ten before start n h = (
  debounce_run-append before _ start ∙ fresh_run n _ h,
  debounce_run-append before _ start ∙ ten _,
)
  where
    ten : (r : ℕ × Bool) → debounce_run (false ∷ replicate 10 true) r ≡ (0, true)
    ten r = unfold debounce_run debounce_is_stationary in refl
