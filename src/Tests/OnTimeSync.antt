-- ===== src/Tests/OnTimeSync.antt =====
-- The time synchroniser at concrete inputs (src/modules/sensor_manager/TimeSync.cpp).
use autopilot_manager.Common.{◌≡◌, refl, [], ◌∷◌, pos, arith}
use autopilot_manager.TimeSync.{
  TimeSync, new, reset_filter, sync_stamp, sample_offset_us, sample_rtt_us,
}
use autopilot_manager.TimeSync.Filter.{
  Sample, IsUsable, IsFar, Inv, run_all, run_all-Inv, converges_after_250, sixth_resets,
}
use autopilot_manager.Tests.Fixtures.{Milli, milli, metres}

-- Arrived 10 us after it was sent; the remote clock is 5 us ahead of the middle.
abbrev near_sample : Sample
near_sample = record { ts1 = pos 1_000_000_000; tc1 = pos 1_000_000_000; now_us = 1_000_010 }

abbrev far_sample : Sample
far_sample = record { ts1 = pos 1_000_000_000; tc1 = pos 9_000_000_000; now_us = 1_000_010 }

near-IsUsable : IsUsable near_sample
unfolding sample_rtt_us
near-IsUsable = (refl, omega arith)

abbrev converged : TimeSync Milli
converged = record {
  sequence = 250;
  time_offset = metres 5;
  time_skew = metres 0;
  filter_alpha = metres 1;
  filter_beta = metres 1;
  high_deviation_count = 4;
  high_rtt_count = 0;
}

far : IsFar converged far_sample
unfolding sample_rtt_us sample_offset_us
far = ((refl, omega arith), omega arith)

converged-Inv : Inv converged
converged-Inv = record {
  count_le = omega arith;
  counted_converged = λ h. omega arith;
  no_rtt_count = refl;
}

run_all-Inv_example : Inv (run_all (near_sample ∷ far_sample ∷ []) converged)
run_all-Inv_example = run_all-Inv (near_sample ∷ far_sample ∷ []) converged converged-Inv

converges_after_250_example :
    sync_stamp 7 1_000_010 (run_all (near_sample ∷ near_sample ∷ []) (reset_filter converged))
    ≡ 1_000_010
converges_after_250_example =
    converges_after_250 (near_sample ∷ near_sample ∷ []) converged 7 1_000_010
      (near-IsUsable, (near-IsUsable, tt)) (omega arith)

sixth_resets_example : run_all (far_sample ∷ far_sample ∷ []) converged ≡ new
sixth_resets_example =
    sixth_resets (far_sample ∷ far_sample ∷ []) converged (far, (far, tt)) (omega arith) refl
      (omega arith)
