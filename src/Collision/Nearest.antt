-- ===== src/Collision/Nearest.antt =====
-- The distance that the collision avoidance keeps and publishes
-- (src/modules/collision_avoidance_manager/CollisionAvoidanceManager.cpp).
use autopilot_manager.Common.{
  ◌≡◌, ◌<◌, refl, lt→ltb, ◌⊎◌, inl, inr, true, false, ◌&&◌, none, some, List, [], ◌∷◌, Double,
  IsOrder, All, length, arith, if◌then◌else◌, Bool-cases, if_elim,
}
use autopilot_manager.Landing.Cloud.{DepthPixel, DepthImage}
use autopilot_manager.Manager.Memory.{CollisionConfiguration}
use autopilot_manager.Collision.{
  CollisionAvoidance, Region, is_pixel_valid, region, filter_pixels_to_roi, min_from, min_element,
  compute_distance_to_obstacle,
}

module _ {A : Type 0} where
  abbrev pub IsOneOf : A → List A → Type 0
  IsOneOf a [] = ⊥
  IsOneOf a (x ∷ xs) = (a ≡ x) ⊎ IsOneOf a xs

module _ {W : Type 0} (d : Double W) (order : IsOrder d) (p q m : W) where
  -- The smaller of two against the least of the rest.
  smaller_lem :
      d.is_finite p ≡ true
      → d.is_finite q ≡ true
      → d.lt (if d.lt q p then q else p) m ≡ false
      → (d.lt p m ≡ false) × (d.lt q m ≡ false)
  smaller_lem a b h = ground (
    arith,
    order.lt_irrefl p,
    order.lt_trans p q p,
    order.not_lt_trans p q m,
    order.not_lt_trans q p m,
  )

module _ {W : Type 0} ⦃d : Double W⦄ where
  -- Every pixel of the list that lies in the region has a depth that is not below.
  abbrev pub NotBelow : Region W → W → List (DepthPixel W) → Type 0
  NotBelow r depth pixels =
      All (λ p. (is_pixel_valid r p ≡ false) ⊎ (d.lt p.depth depth ≡ false)) pixels

  smaller_depth :
      (p q : DepthPixel W) (m : W)
      → d.lt (if d.lt q.depth p.depth then q else p).depth m ≡ false
      → d.lt (if d.lt q.depth p.depth then q.depth else p.depth) m ≡ false
  smaller_depth p q m h = ground arith

  smaller_finite :
      (p q : DepthPixel W)
      → d.is_finite p.depth ≡ true
      → d.is_finite q.depth ≡ true
      → d.is_finite (if d.lt q.depth p.depth then q else p).depth ≡ true
  smaller_finite p q a b = ground arith

  min_from_lem :
      (order : IsOrder d) (p : DepthPixel W) (pixels : List (DepthPixel W))
      → d.is_finite p.depth ≡ true
      → All (λ q. d.is_finite q.depth ≡ true) pixels
      → (d.lt p.depth (min_from p pixels).depth ≡ false)
        × All (λ q. d.lt q.depth (min_from p pixels).depth ≡ false) pixels
  unfolding min_from
  min_from_lem order p [] a b = (order.lt_irrefl p.depth, tt)
  min_from_lem order p (q ∷ pixels) a (b, bs) =
      let smallest = if d.lt q.depth p.depth then q else p in
      let (least, rest) = min_from_lem order smallest pixels (smaller_finite p q a b) bs in
      let m = (min_from smallest pixels).depth in
      let (here, there) = smaller_lem d order p.depth q.depth m a b (smaller_depth p q m least) in
      (here, (there, rest))

  pub least-IsOneOf :
      (p : DepthPixel W) (pixels : List (DepthPixel W)) → IsOneOf (min_from p pixels) (p ∷ pixels)
  unfolding min_from
  least-IsOneOf p [] = inl refl
  least-IsOneOf p (q ∷ pixels) =
      if_elim (λ s. IsOneOf (min_from s pixels) (p ∷ q ∷ pixels)) (d.lt q.depth p.depth)
        (inr (least-IsOneOf q pixels))
        (elim (least-IsOneOf p pixels) [ inl e ↦ inl e | inr r ↦ inr (inr r) ])

  -- What holds of all pixels that the filter keeps holds of all in the region.
  filtered-All :
      (P : DepthPixel W → Type 0) (r : Region W) (pixels : List (DepthPixel W))
      → All P (filter_pixels_to_roi r pixels)
      → All (λ p. (is_pixel_valid r p ≡ false) ⊎ P p) pixels
  unfolding filter_pixels_to_roi
  filtered-All P r [] h = tt
  filtered-All P r (p ∷ pixels) h = elim (Bool-cases (is_pixel_valid r p)) [
    | inl v ↦ (let (here, rest) = simp v at h in (inr here, filtered-All P r pixels rest))
    | inr v ↦ (inl v, filtered-All P r pixels (simp v at h))
  ]

  kept_pos :
      (r : Region W) (pixels : List (DepthPixel W)) (p : DepthPixel W)
      (others : List (DepthPixel W))
      → filter_pixels_to_roi r pixels ≡ p ∷ others
      → 0 < length pixels
  unfolding filter_pixels_to_roi
  kept_pos r [] p others e = ground arith
  kept_pos r (q ∷ pixels) p others e = omega arith

  none_kept :
      (r : Region W) (pixels : List (DepthPixel W))
      → All (λ p. is_pixel_valid r p ≡ false) pixels
      → filter_pixels_to_roi r pixels ≡ []
  unfolding filter_pixels_to_roi
  none_kept r [] h = refl
  none_kept r (p ∷ pixels) (h, rest) = simp h (none_kept r pixels rest)

module _ {W Q : Type 0} ⦃d : Double W⦄ where
  -- While enabled, with an image that has pixels, of which some lie in the region, those
  -- with finite depths, the distance kept is the one published, it is the depth of one of them,
  -- and no pixel of the region is nearer.
  pub nearest_published :
      (order : IsOrder d) (infinity : W) (config : CollisionConfiguration) (image : DepthImage W Q)
      (s : CollisionAvoidance W) (pixel : DepthPixel W) (others : List (DepthPixel W))
      → config.autopilot_manager_enabled && config.simple_collision_avoid_enabled ≡ true
      → (let roi = region s.roi_settings image.rw_pixels image.rh_pixels in
          filter_pixels_to_roi roi image.depth_pixel_array ≡ pixel ∷ others)
      → d.is_finite pixel.depth ≡ true
      → All (λ p. d.is_finite p.depth ≡ true) others
      → let roi = region s.roi_settings image.rw_pixels image.rh_pixels in
        (n : CollisionAvoidance W) × (compute_distance_to_obstacle infinity config (some image) s
          ≡ some n)
        × (n.published ≡ n.depth ∷ s.published)
        × ((nearest : DepthPixel W) × IsOneOf nearest (pixel ∷ others) × (n.depth ≡ nearest.depth))
        × NotBelow roi n.depth image.depth_pixel_array
  unfolding compute_distance_to_obstacle min_element
  nearest_published order infinity config image s pixel others on e a b =
      let roi = region s.roi_settings image.rw_pixels image.rh_pixels in
      let m = (min_from pixel others).depth in
      let below : NotBelow roi m image.depth_pixel_array =
        filtered-All (λ p. d.lt p.depth m ≡ false) roi image.depth_pixel_array
          (rw e (min_from_lem order pixel others a b)) in
      let some_pixels = kept_pos roi image.depth_pixel_array pixel others e in
      simp (on, e, lt→ltb 0 (length image.depth_pixel_array) some_pixels)
        (_, refl, refl, (_, least-IsOneOf pixel others, refl), below)

  -- While enabled, an image with pixels of which none lies in the region makes the code read through
  -- the end of an empty range.
  pub empty_region_faults :
      (infinity : W) (config : CollisionConfiguration) (image : DepthImage W Q)
      (s : CollisionAvoidance W)
      → config.autopilot_manager_enabled && config.simple_collision_avoid_enabled ≡ true
      → 0 < length image.depth_pixel_array
      → All
          (λ p. is_pixel_valid (region s.roi_settings image.rw_pixels image.rh_pixels) p ≡ false)
          image.depth_pixel_array
      → compute_distance_to_obstacle infinity config (some image) s ≡ none
  unfolding compute_distance_to_obstacle min_element
  empty_region_faults infinity config image s on pixels outside =
      let roi = region s.roi_settings image.rw_pixels image.rh_pixels in
      simp (
        on,
        lt→ltb 0 (length image.depth_pixel_array) pixels,
        none_kept roi image.depth_pixel_array outside,
      )
