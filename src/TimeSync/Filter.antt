-- ===== src/TimeSync/Filter.antt =====
-- How the synchroniser converges, and how it gives up an estimate
-- (src/modules/sensor_manager/TimeSync.cpp).
use autopilot_manager.Common.{
  ℕ, suc, ◌+◌, ◌≤◌, ◌<◌, ◌%◌, ◌^◌, ◌≡◌, ◌∙◌, ap, ◌⊎◌, lt→ltb, le→ltb, true, false, ◌&&◌, List, [],
  ◌∷◌, ℤ, Double, All, length, arith, ltb, leb, if◌then◌else◌,
}
use autopilot_manager.TimeSync.{
  TimeSync, to_u64, max_rtt_sample, max_deviation_sample, is_positive, sample_offset_us,
  sample_rtt_us, sync_converged, new, reset_filter, add_sample, schedule_gains, sync_stamp,
  deviation, run,
}

-- One call of `run`: the two times of the packet, and the time of its arrival.
pub record Sample : Type 0 where
  pub ts1 : ℤ
  pub tc1 : ℤ
  pub now_us : ℕ

-- Both times are positive and the round trip was short.
abbrev pub IsUsable : Sample → Type 0
IsUsable s =
    (is_positive s.ts1 && is_positive s.tc1 ≡ true)
    × (sample_rtt_us s.ts1 s.now_us < max_rtt_sample)

module _ {W : Type 0} ⦃d : Double W⦄ where
  unfoldable pub run_all : List Sample → TimeSync W → TimeSync W
  run_all [] t = t
  run_all (s ∷ samples) t = run_all samples (run s.ts1 s.tc1 s.now_us t)

  -- The sample is far from the estimate of `t`.
  abbrev pub IsFar : TimeSync W → Sample → Type 0
  IsFar t s =
      IsUsable s × (max_deviation_sample < deviation (sample_offset_us s.ts1 s.tc1 s.now_us) t)

  -- The counters stay in range, and only a converged estimate has been contradicted.
  pub record Inv (t : TimeSync W) : Type 0 where
    pub count_le : t.high_deviation_count ≤ 5
    pub counted_converged : 0 < t.high_deviation_count → 250 ≤ t.sequence
    pub no_rtt_count : t.high_rtt_count ≡ 0

  run-Inv : (s : Sample) (t : TimeSync W) → Inv t → Inv (run s.ts1 s.tc1 s.now_us t)
  unfolding run reset_filter add_sample schedule_gains sync_converged
  run-Inv s t h = ground arith

  -- Whatever samples have come, at most five contradictions are counted, they are counted against a
  -- converged estimate only, and the count of long round trips is still 0.
  pub run_all-Inv : (samples : List Sample) (t : TimeSync W) → Inv t → Inv (run_all samples t)
  unfolding run_all
  run_all-Inv [] t h = h
  run_all-Inv (s ∷ samples) t h = run_all-Inv samples (run s.ts1 s.tc1 s.now_us t) (run-Inv s t h)

  run_usable :
      (s : Sample) (t : TimeSync W)
      → IsUsable s
      → t.sequence < 250
      → (run s.ts1 s.tc1 s.now_us t).sequence ≡ suc t.sequence
  unfolding run add_sample schedule_gains sync_converged
  run_usable s t h l = ground arith

  run_all_usable :
      (samples : List Sample) (t : TimeSync W)
      → All IsUsable samples
      → t.sequence + length samples ≤ 250
      → (run_all samples t).sequence ≡ t.sequence + length samples
  unfolding run_all
  run_all_usable [] t h l = omega arith
  run_all_usable (s ∷ samples) t (u, us) l =
      let t' = run s.ts1 s.tc1 s.now_us t in
      let e : t'.sequence ≡ suc t.sequence = run_usable s t u (omega arith) in
      let rest = run_all_usable samples t' us (omega (arith, e)) in omega (arith, e, rest)

  -- After a reset the synchroniser needs exactly 250 usable samples: with fewer a stamp is the time of
  -- this computer, and with 250 it is the remote one moved by the estimate.
  pub converges_after_250 :
      (samples : List Sample) (t : TimeSync W) (usec now_us : ℕ)
      → All IsUsable samples
      → length samples ≤ 250
      → let u = run_all samples (reset_filter t) in
        sync_stamp usec now_us u ≡ (
          if leb 250 (length samples)
          then (usec + to_u64 (d.to_int u.time_offset)) % 2 ^ 64
          else now_us)
  unfolding reset_filter sync_stamp sync_converged
  converges_after_250 samples t usec now_us us l =
      ground (arith, run_all_usable samples (unfold reset_filter in reset_filter t) us)

  run_far :
      (s : Sample) (t : TimeSync W)
      → IsFar t s
      → 250 ≤ t.sequence
      → t.high_deviation_count ≤ 5
      → run s.ts1 s.tc1 s.now_us t ≡ (
          if ltb t.high_deviation_count 5
          then record t { high_deviation_count = suc t.high_deviation_count }
          else new)
  unfolding run sync_converged reset_filter new
  run_far s t f c l = ground arith

  -- A converged estimate survives up to five usable samples in a row that are far from it, unchanged
  -- but for the count of them.
  pub survives_five :
      (samples : List Sample) (t : TimeSync W)
      → All (IsFar t) samples
      → 250 ≤ t.sequence
      → t.high_deviation_count + length samples ≤ 5
      → run_all samples t
        ≡ record t { high_deviation_count = t.high_deviation_count + length samples }
  unfolding run_all
  survives_five [] t f c l = ground arith
  survives_five (s ∷ samples) t (f, fs) c l =
      let k = t.high_deviation_count in
      let t' = record t { high_deviation_count = suc k } in
      let e : run s.ts1 s.tc1 s.now_us t ≡ t' =
        run_far s t f c (omega arith) ∙ rw (lt→ltb k 5 (omega arith)) in
      let more : suc k + length samples ≡ k + suc (length samples) = omega arith in
      ap (run_all samples) e
      ∙ survives_five samples t' fs c (omega arith)
      ∙ ap (λ n. record t { high_deviation_count = n }) more

  -- A converged estimate is given up, and all the state is as it was at the start, with the far sample
  -- that makes the count of usable far samples in a row six.
  pub sixth_resets :
      (samples : List Sample) (t : TimeSync W)
      → All (IsFar t) samples
      → 250 ≤ t.sequence
      → t.high_deviation_count + length samples ≡ 6
      → t.high_deviation_count ≤ 5
      → run_all samples t ≡ new
  unfolding run_all
  sixth_resets [] t f c l k = absurd (omega arith)
  sixth_resets (s ∷ []) t (f, _) c l k =
      run_far s t f c k ∙ rw (le→ltb t.high_deviation_count 5 (omega arith))
  sixth_resets (s ∷ r ∷ samples) t (f, fs) c l k =
      let t' = record t { high_deviation_count = suc t.high_deviation_count } in
      let e : run s.ts1 s.tc1 s.now_us t ≡ t' =
        run_far s t f c k ∙ rw (lt→ltb t.high_deviation_count 5 (omega arith)) in
      ap (run_all (r ∷ samples)) e ∙ sixth_resets (r ∷ samples) t' fs c (omega arith) (omega arith)

  -- A sample with a time that is not positive, or with a long round trip, leaves the synchroniser as
  -- it was, with the count of contradictions, so "consecutive" passes over such samples.
  pub unusable_ignored :
      (s : Sample) (t : TimeSync W)
      → (is_positive s.ts1 && is_positive s.tc1 ≡ false)
        ⊎ (max_rtt_sample ≤ sample_rtt_us s.ts1 s.now_us)
      → run s.ts1 s.tc1 s.now_us t ≡ t
  unfolding run
  unusable_ignored s t h = ground arith
