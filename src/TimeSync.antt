-- ===== src/TimeSync.antt =====
-- src/modules/sensor_manager/TimeSync.cpp: the filter that estimates the offset between the clocks of
-- the autopilot and of this computer. Times of the 64-bit arithmetic are bit patterns below 2 ^ 64.
use autopilot_manager.Common.{
  ℕ, ◌+◌, ◌-◌, ◌*◌, ◌/◌, ◌%◌, ◌^◌, Bool, true, false, not, ◌&&◌, ℤ, pos, negsuc, ◌-ℤ◌, div_trunc,
  magnitude, Double, ltb, leb, ◌==◌, if◌then◌else◌,
}
pub mod Filter

abbrev pub convergence_window : ℕ
convergence_window = 250

abbrev pub max_rtt_sample : ℕ
max_rtt_sample = 10_000

abbrev pub max_deviation_sample : ℕ
max_deviation_sample = 100_000

abbrev pub max_consecutive_high_deviation : ℕ
max_consecutive_high_deviation = 5

pub record TimeSync (W : Type 0) : Type 0 where
  pub sequence : ℕ
  pub time_offset : W
  pub time_skew : W
  pub filter_alpha : W
  pub filter_beta : W
  pub high_deviation_count : ℕ
  pub high_rtt_count : ℕ

-- The bit pattern of a 64-bit integer, and the signed integer that a pattern stands for.
abbrev pub to_u64 : ℤ → ℕ
to_u64 (pos n) = n % 2 ^ 64
to_u64 (negsuc n) = 2 ^ 64 - 1 - n % 2 ^ 64

abbrev pub to_i64 : ℕ → ℤ
to_i64 w = if ltb w (2 ^ 63) then pos w else negsuc (2 ^ 64 - w - 1)

abbrev pub is_positive : ℤ → Bool
is_positive (pos n) = ltb 0 n
is_positive (negsuc n) = false

-- `uint32_t` increments wrap.
abbrev pub next_u32 : ℕ → ℕ
next_u32 n = (n + 1) % 2 ^ 32

-- Half the sum of what the two ways took, of a timesync packet in nanoseconds.
unfoldable pub sample_offset_us : ℤ → ℤ → ℕ → ℤ
sample_offset_us ts1 tc1 now_us =
    let sum = to_u64 ts1 / 1000 + now_us in
    let back = to_u64 tc1 / 1000 * 2 in
    div_trunc (to_i64 ((sum + 2 ^ 64 - back % 2 ^ 64) % 2 ^ 64)) 2

unfoldable pub sample_rtt_us : ℤ → ℕ → ℕ
sample_rtt_us ts1 now_us = (now_us + 2 ^ 64 - to_u64 ts1 / 1000) % 2 ^ 64

module _ {W : Type 0} where
  unfoldable pub sync_converged : TimeSync W → Bool
  sync_converged t = leb convergence_window t.sequence

module _ {W : Type 0} ⦃d : Double W⦄ where
  open d use {lit, of_int, to_int, add, sub, mul, div, exp}

  abbrev alpha_gain_initial : W
  alpha_gain_initial = lit 5 2

  abbrev beta_gain_initial : W
  beta_gain_initial = lit 5 2

  abbrev alpha_gain_final : W
  alpha_gain_final = lit 3 3

  abbrev beta_gain_final : W
  beta_gain_final = lit 3 3

  unfoldable pub new : TimeSync W
  new = record {
    sequence = 0;
    time_offset = lit 0 0;
    time_skew = lit 0 0;
    filter_alpha = alpha_gain_initial;
    filter_beta = beta_gain_initial;
    high_deviation_count = 0;
    high_rtt_count = 0;
  }

  unfoldable pub reset_filter : TimeSync W → TimeSync W
  reset_filter t = record t {
    sequence = 0;
    time_offset = lit 0 0;
    time_skew = lit 0 0;
    filter_alpha = alpha_gain_initial;
    filter_beta = beta_gain_initial;
    high_deviation_count = 0;
    high_rtt_count = 0;
  }

  -- Online exponential smoothing filter.
  unfoldable pub add_sample : ℤ → TimeSync W → TimeSync W
  add_sample offset_us t =
      let offset =
        add (mul t.filter_alpha (of_int offset_us))
          (mul (sub (lit 1 0) t.filter_alpha) (add t.time_offset t.time_skew)) in
      let skew =
        add (mul t.filter_beta (sub offset t.time_offset))
          (mul (sub (lit 1 0) t.filter_beta) t.time_skew) in
      if t.sequence == 0
      then record t { time_offset = of_int offset_us }
      else record t { time_offset = offset; time_skew = skew }

  -- `usec + (int64_t)_time_offset`, in 64 bits.
  unfoldable pub sync_stamp : ℕ → ℕ → TimeSync W → ℕ
  sync_stamp usec now_us t =
      if sync_converged t then (usec + to_u64 (to_int t.time_offset)) % 2 ^ 64 else now_us

  -- Filter gain scheduling.
  unfoldable pub schedule_gains : TimeSync W → TimeSync W
  schedule_gains t =
      let progress = div (of_int (pos t.sequence)) (of_int (pos convergence_window)) in
      let one = lit 1 0 in
      let p = sub one (exp (mul (lit 5 1) (sub one (div one (sub one progress))))) in
      if not (sync_converged t)
      then record t {
        filter_alpha = add (mul p alpha_gain_final) (mul (sub one p) alpha_gain_initial);
        filter_beta = add (mul p beta_gain_final) (mul (sub one p) beta_gain_initial);
      }
      else record t { filter_alpha = alpha_gain_final; filter_beta = beta_gain_final }

  abbrev pub accept_sample : ℤ → TimeSync W → TimeSync W
  accept_sample offset_us t =
      let u = add_sample offset_us (schedule_gains t) in
      record u { sequence = next_u32 u.sequence; high_deviation_count = 0; high_rtt_count = 0 }

  abbrev pub reject_sample : TimeSync W → TimeSync W
  reject_sample t =
      let count = next_u32 t.high_deviation_count in
      let counted = record t { high_deviation_count = count } in
      if ltb max_consecutive_high_deviation count then reset_filter counted else counted

  -- The distance of a sample from the current estimate.
  abbrev pub deviation : ℤ → TimeSync W → ℕ
  deviation offset_us t = magnitude (to_int t.time_offset -ℤ offset_us)

  unfoldable pub run : ℤ → ℤ → ℕ → TimeSync W → TimeSync W
  run ts1 tc1 now_us t =
      let offset_us = sample_offset_us ts1 tc1 now_us in
      let far = sync_converged t && ltb max_deviation_sample (deviation offset_us t) in
      if is_positive ts1 && is_positive tc1
      then (if ltb (sample_rtt_us ts1 now_us) max_rtt_sample
          then (if far then reject_sample t else accept_sample offset_us t)
          else t)
      else t
