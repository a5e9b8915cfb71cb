-- ===== src/Sensor/Images.antt =====
-- What becomes of a depth image (src/modules/sensor_manager/SensorManager.cpp,
-- `handle_incoming_depth_image`), and its time stamp in the landing manager's health check
-- (src/modules/landing_manager/LandingManager.cpp, `healthCheck`).
use autopilot_manager.Common.{
  ℕ, suc, ◌+◌, ◌<◌, ◌≡◌, ◌∙◌, sym, ap, ◌⊎◌, Bool, true, false, not, ◌&&◌, ◌||◌, Option, none, some,
  List, [], ◌∷◌, All, length, arith, leb, ◌==◌, str_eq, pos, ltb_ℤ,
}
use mathlib.Core.Path.{subst}
use autopilot_manager.Landing.Health.{Health, is_healthy, count_image, health_check}
use autopilot_manager.Landing.Mapper.{timestamp_of}
use autopilot_manager.Sensor.{
  Image, ImageDownsampler, SensorManager, set_downsampler, store_image, handle_incoming_depth_image,
}

abbrev is_set {ℓ} : {A : Type ℓ} → Option A → Bool
is_set none = false
is_set (some _) = true

module _ {W Q B D : Type 0} ⦃ids : ImageDownsampler W B D⦄ where
  -- The image can be used: there is a downsampler or one can be made for the encoding, the intrinsics
  -- are plausible, and the transform was found.
  abbrev pub can_use : Image B → Option ((W × W × W) × Q) → SensorManager W Q D → Bool
  can_use msg transform s =
      (is_set s.image_downsampler || (str_eq msg.encoding "16UC1" || str_eq msg.encoding "32FC1"))
      && (not (s.intrinsics.rh_pixels == 0) && not (s.intrinsics.rw_pixels == 0))
      && is_set transform

  -- An image that can be used replaces the one offered to the other managers, with the nanoseconds of
  -- its stamp as its time, and counts as the last image; any other leaves both as they were. The
  -- intrinsics and the health stay.
  pub image_offered :
      (now : ℕ) (msg : Image B) (transform : Option ((W × W × W) × Q)) (s : SensorManager W Q D)
      → let n = handle_incoming_depth_image now msg transform s in
        (((can_use msg transform s ≡ true)
            × (timestamp_of n.downsampled_depth ≡ some (pos msg.nanosec))
            × (n.time_last_image ≡ now))
          ⊎ ((can_use msg transform s ≡ false)
              × (n.downsampled_depth ≡ s.downsampled_depth)
              × (n.time_last_image ≡ s.time_last_image)))
        × (n.health_status ≡ s.health_status)
  unfolding handle_incoming_depth_image set_downsampler store_image
  image_offered now msg none s = ground arith
  image_offered now msg (some found) s = ground arith

not_before : (n : ℕ) → ltb_ℤ (pos n) (pos n) ≡ false
not_before n = ground arith

zero_add : (n : ℕ) → 0 + n ≡ n
zero_add n = omega arith

add_zero : (n : ℕ) → n + 0 ≡ n
add_zero n = omega arith

-- The health after `n` images with a stamp that was seen before them.
pub record Repeated (nanosec n : ℕ) (h : Health) : Type 0 where
  pub last : h.last_timestamp ≡ pos nanosec
  pub count : h.count_timestamp_old ≡ n
  pub healthy : is_healthy h ≡ leb n 50

pub Repeated-check :
    (nanosec n : ℕ) (h : Health)
    → Repeated nanosec n h
    → suc n < 32768
    → Repeated nanosec (suc n) (health_check (some (pos nanosec)) h)
unfolding health_check count_image
Repeated-check nanosec n h r l =
    let old : ltb_ℤ h.last_timestamp (pos nanosec) ≡ false = simp (r.last) (not_before nanosec) in
    record { last = ground arith; count = ground (arith, old); healthy = ground (arith, old) }

module _ {W Q D : Type 0} where
  -- The sensor manager can use an image: it has a downsampler and plausible intrinsics.
  abbrev pub is_ready : SensorManager W Q D → Bool
  is_ready s =
      is_set s.image_downsampler
      && (not (s.intrinsics.rh_pixels == 0) && not (s.intrinsics.rw_pixels == 0))

module _ {W Q B D : Type 0} ⦃ids : ImageDownsampler W B D⦄ where
  -- The images arrive one after the other, each with the time at which it is handled and the transform that is
  -- found for it, and after each one the landing manager checks the image that
  -- the sensor manager has stored.
  unfoldable pub check_images :
      List (ℕ × Image B × ((W × W × W) × Q))
      → SensorManager W Q D
      → Health
      → SensorManager W Q D × Health
  check_images [] s h = (s, h)
  check_images ((now, msg, transform) ∷ images) s h =
      let n = handle_incoming_depth_image now msg (some transform) s in
      check_images images n (health_check (timestamp_of n.downsampled_depth) h)

  ready_stores :
      (now : ℕ) (msg : Image B) (transform : (W × W × W) × Q) (s : SensorManager W Q D)
      → is_ready s ≡ true
      → let n = handle_incoming_depth_image now msg (some transform) s in
        (is_ready n ≡ true) × (timestamp_of n.downsampled_depth ≡ some (pos msg.nanosec))
  unfolding handle_incoming_depth_image set_downsampler store_image
  ready_stores now msg transform s r = ground arith

  Repeated-checks :
      (images : List (ℕ × Image B × ((W × W × W) × Q))) (nanosec n : ℕ) (s : SensorManager W Q D)
      (h : Health)
      → All (λ a. a.1.nanosec ≡ nanosec) images
      → is_ready s ≡ true
      → Repeated nanosec n h
      → n + length images < 32768
      → Repeated nanosec (n + length images) (check_images images s h).1
  unfolding check_images
  Repeated-checks [] nanosec n s h same ready r l = rw (add_zero n) r
  Repeated-checks ((now, msg, transform) ∷ images) nanosec n s h (same, others) ready r l =
      let t = handle_incoming_depth_image now msg (some transform) s in
      let (ready', stored) = ready_stores now msg transform s ready in
      let stamp : timestamp_of t.downsampled_depth ≡ some (pos nanosec) =
        stored ∙ ap (λ k. some (pos k)) same in
      let next = Repeated-check nanosec n h r (omega arith) in
      let checked = subst (λ d. Repeated nanosec (suc n) (health_check d h)) (sym stamp) next in
      let sum : suc n + length images ≡ n + suc (length images) = omega arith in
      subst
        (λ k.
          Repeated nanosec k
            (check_images images t (health_check (timestamp_of t.downsampled_depth) h)).1)
        sum
        (Repeated-checks images nanosec (suc n) t
          (health_check (timestamp_of t.downsampled_depth) h) others ready' checked (omega arith))

  -- Images arrive at a sensor manager that has a downsampler and plausible intrinsics, the transform of
  -- each one is found, and the landing manager checks each one. If their stamps have the same nanoseconds
  -- within the second as the last image that was checked, whatever their seconds are, such as one image in
  -- each second, then they are taken for old ones, and the 51st of them in a row, but not one before it,
  -- makes the input of the landing manager unhealthy. There are fewer than 32768 images, and the counter of
  -- old time stamps starts at 0 with a healthy input.
  pub same_nanoseconds_unhealthy :
      (images : List (ℕ × Image B × ((W × W × W) × Q))) (nanosec : ℕ) (s : SensorManager W Q D)
      (h : Health)
      → All (λ a. a.1.nanosec ≡ nanosec) images
      → is_ready s ≡ true
      → length images < 32768
      → h.last_timestamp ≡ pos nanosec
      → h.count_timestamp_old ≡ 0
      → is_healthy h ≡ true
      → is_healthy (check_images images s h).1 ≡ leb (length images) 50
  same_nanoseconds_unhealthy images nanosec s h same ready l last count healthy =
      let r : Repeated nanosec 0 h = record { last = last; count = count; healthy = healthy } in
      let all = Repeated-checks images nanosec 0 s h same ready r (omega arith) in
      all.healthy ∙ ap (λ n. leb n 50) (zero_add (length images))
