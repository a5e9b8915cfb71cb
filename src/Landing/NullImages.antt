-- ===== src/Landing/NullImages.antt =====
-- The health of the mapper's input over a run of calls (src/modules/landing_manager/LandingManager.cpp,
-- `healthCheck`).
use autopilot_manager.Common.{
  ℕ, zero, suc, ◌+◌, ◌≤◌, ◌<◌, ◌%◌, ◌≡◌, refl, ◌∙◌, ap, true, not, none, some, ℤ, arith, leb, ltb_ℤ,
}
use autopilot_manager.Landing.Health.{Health, is_healthy, above_i16, health_check}

-- `n` calls without a depth message.
unfoldable pub null_images : ℕ → Health → Health
null_images zero h = h
null_images (suc n) h = null_images n (health_check none h)

null_image :
    (h : Health)
    → ((health_check none h).count_image_null ≡ (h.count_image_null + 1) % 65536)
      × ((health_check none h).count_timestamp_old ≡ h.count_timestamp_old)
unfolding health_check
null_image h = ground arith

null_images_counted :
    (n : ℕ) (h : Health)
    → h.count_image_null < 65536
    → ((null_images n h).count_image_null ≡ (h.count_image_null + n) % 65536)
      × ((null_images n h).count_timestamp_old ≡ h.count_timestamp_old)
unfolding null_images
null_images_counted zero h l = omega arith
null_images_counted (suc n) h l =
    let (count, old) = null_image h in
    omega (arith, count, old, null_images_counted n (health_check none h) (omega (arith, count)))

null_images-suc : (n : ℕ) (h : Health) → null_images (suc n) h ≡ health_check none (null_images n h)
unfolding null_images
null_images-suc zero h = refl
null_images-suc (suc n) h = null_images-suc n (health_check none h)

status_of_nulls :
    (h : Health)
    → h.count_timestamp_old ≤ 50
    → is_healthy (health_check none h) ≡ not (above_i16 5 ((h.count_image_null + 1) % 65536))
unfolding health_check
status_of_nulls h l = ground arith

null_images_status :
    (n : ℕ) (h : Health)
    → h.count_image_null ≡ 0
    → h.count_timestamp_old ≤ 50
    → is_healthy (null_images (suc n) h) ≡ not (above_i16 5 ((n + 1) % 65536))
null_images_status n h z o =
    let (count, old) = null_images_counted n h (omega (arith, z)) in
    let total : ((null_images n h).count_image_null + 1) % 65536 ≡ (n + 1) % 65536 =
      omega (arith, count, z) in
    rw (null_images-suc n h) (
      status_of_nulls (null_images n h) (omega (arith, old, o))
      ∙ ap (λ c. not (above_i16 5 c)) total)

-- From fresh counters up to 32767 calls without an image in a row are told apart exactly: the input is
-- healthy for the first five and not healthy from the sixth on.
pub null_images_detected :
    (n : ℕ) (h : Health)
    → h.count_image_null ≡ 0
    → h.count_timestamp_old ≤ 50
    → n < 32767
    → is_healthy (null_images (suc n) h) ≡ leb (suc n) 5
null_images_detected n h z o l = rw (null_images_status n h z o) (ground arith)

-- The 16-bit counter then wraps: from 32768 to 65541 calls without any image in a row the input is
-- again held to be healthy.
pub null_images_forgotten :
    (n : ℕ) (h : Health)
    → h.count_image_null ≡ 0
    → h.count_timestamp_old ≤ 50
    → 32767 ≤ n
    → n < 65541
    → is_healthy (null_images (suc n) h) ≡ true
null_images_forgotten n h z o l u = rw (null_images_status n h z o) (ground arith)

-- One message with a later time stamp than the last makes the input healthy and clears both counters,
-- whatever came before.
pub later_image_heals :
    (h : Health) (timestamp_ns : ℤ)
    → ltb_ℤ h.last_timestamp timestamp_ns ≡ true
    → let g = health_check (some timestamp_ns) h in
      (is_healthy g ≡ true)
      × (g.count_image_null ≡ 0)
      × (g.count_timestamp_old ≡ 0)
      × (g.reports ≡ h.reports)
unfolding health_check
later_image_heals h ts l = ground arith
