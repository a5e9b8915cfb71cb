-- ===== src/Collision/Source.antt =====
-- Where the distance that the collision avoidance keeps comes from
-- (src/modules/collision_avoidance_manager/CollisionAvoidanceManager.cpp).
use autopilot_manager.Common.{
  ◌≡◌, refl, subst, inl, inr, true, ◌&&◌, Option, none, some, List, [], ◌∷◌, Double, length, ltb,
  arith, Bool-cases, if_elim,
}
use autopilot_manager.Landing.Cloud.{DepthPixel, DepthImage}
use autopilot_manager.Manager.Memory.{CollisionConfiguration}
use autopilot_manager.Collision.{
  RoiSettings, CollisionAvoidance, Region, is_pixel_valid, region, filter_pixels_to_roi, min_from,
  min_element, store_distance, compute_distance_to_obstacle,
}
use autopilot_manager.Collision.Nearest.{IsOneOf, least-IsOneOf}

module _ {W : Type 0} ⦃d : Double W⦄ where
  filtered :
      (r : Region W) (p : DepthPixel W) (pixels : List (DepthPixel W))
      → IsOneOf p (filter_pixels_to_roi r pixels)
      → IsOneOf p pixels × (is_pixel_valid r p ≡ true)
  unfolding filter_pixels_to_roi
  filtered r p [] h = absurd h
  filtered r p (q ∷ pixels) h = elim (Bool-cases (is_pixel_valid r q)) [
    | inl v ↦ elim (simp v at h) as (λ _. IsOneOf p (q ∷ pixels) × (is_pixel_valid r p ≡ true)) [
      | inl e ↦ (inl e, rw e v)
      | inr rest ↦ (let (among, valid) = filtered r p pixels rest in (inr among, valid))
    ]
    | inr v ↦ (let (among, valid) = filtered r p pixels (simp v at h) in (inr among, valid))
  ]

module _ {W Q : Type 0} ⦃d : Double W⦄ where
  -- A pixel of the image in the region of interest, with this depth.
  abbrev pub IsDepthOf : RoiSettings W → DepthImage W Q → W → DepthPixel W → Type 0
  IsDepthOf roi image depth p =
      IsOneOf p image.depth_pixel_array
      × (is_pixel_valid (region roi image.rw_pixels image.rh_pixels) p ≡ true)
      × (depth ≡ p.depth)

  -- What a call may leave as the distance: the one from before, infinity, or that of a pixel in the
  -- region of interest of the image that it was given.
  pub data Source (infinity : W) (depth_msg : Option (DepthImage W Q)) (s : CollisionAvoidance W)
      : W → Type 0 where
    before : (depth : W) → depth ≡ s.depth → Source infinity depth_msg s depth
    nothing : (depth : W) → depth ≡ infinity → Source infinity depth_msg s depth
    pixel :
        (depth : W) (image : DepthImage W Q) (p : DepthPixel W)
        → depth_msg ≡ some image
        → IsDepthOf s.roi_settings image depth p
        → Source infinity depth_msg s depth

  stored_source :
      (infinity : W) (image : DepthImage W Q) (s n : CollisionAvoidance W)
      (pixels : List (DepthPixel W))
      → pixels
        ≡ filter_pixels_to_roi
            (region s.roi_settings image.rw_pixels image.rh_pixels)
            image.depth_pixel_array
      → store_distance (min_element pixels) s ≡ some n
      → (n.roi_settings ≡ s.roi_settings) × Source infinity (some image) s n.depth
  unfolding min_element
  stored_source infinity image s n [] e h = absurd (cc)
  stored_source infinity image s n (p ∷ pixels) e h =
      let r = region s.roi_settings image.rw_pixels image.rh_pixels in
      let m = min_from p pixels in
      let (among, valid) =
        filtered r m image.depth_pixel_array
          (subst (λ l. IsOneOf m l) e (least-IsOneOf p pixels)) in
      let depth : n.depth ≡ m.depth = ground arith in
      (ground arith, Source.pixel n.depth image m refl (among, valid, depth))

  pub compute_distance_source :
      (infinity : W) (config : CollisionConfiguration) (depth_msg : Option (DepthImage W Q))
      (s n : CollisionAvoidance W)
      → compute_distance_to_obstacle infinity config depth_msg s ≡ some n
      → (n.roi_settings ≡ s.roi_settings) × Source infinity depth_msg s n.depth
  unfolding compute_distance_to_obstacle
  compute_distance_source infinity config none s n =
      if_elim (λ r. r ≡ some n → (n.roi_settings ≡ s.roi_settings) × Source infinity none s n.depth)
        (config.autopilot_manager_enabled && config.simple_collision_avoid_enabled)
        (λ h. (ground arith, Source.nothing n.depth (ground arith)))
        (λ h. (ground arith, Source.before n.depth (ground arith)))
  compute_distance_source infinity config (some image) s n =
      if_elim
        (λ r.
          r ≡ some n → (n.roi_settings ≡ s.roi_settings) × Source infinity (some image) s n.depth)
        (config.autopilot_manager_enabled && config.simple_collision_avoid_enabled)
        (if_elim
          (λ r.
            r ≡ some n → (n.roi_settings ≡ s.roi_settings) × Source infinity (some image) s n.depth)
          (ltb 0 (length image.depth_pixel_array)) (stored_source infinity image s n _ refl)
          (λ h. (ground arith, Source.nothing n.depth (ground arith))))
        (λ h. (ground arith, Source.before n.depth (ground arith)))
