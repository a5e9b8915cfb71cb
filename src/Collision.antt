-- ===== src/Collision.antt =====
-- src/modules/collision_avoidance_manager/CollisionAvoidanceManager.cpp: the distance to the nearest
-- obstacle in a region of interest of the depth image.
use autopilot_manager.Common.{
  ℕ, ◌+◌, ◌%◌, ◌^◌, ℤ, pos, negsuc, to_u32, Bool, true, false, ◌&&◌, ◌||◌, not, Option, none, some,
  List, [], ◌∷◌, Double, ltb, length, if◌then◌else◌,
}
use autopilot_manager.Landing.Cloud.{DepthPixel, DepthImage}
use autopilot_manager.Manager.Memory.{CollisionConfiguration}
pub mod Nearest
pub mod Source

-- `ROISettings`
pub record RoiSettings (W : Type 0) : Type 0 where
  pub width_fraction : W
  pub height_fraction : W
  pub width_center : W
  pub height_center : W

-- The first and the last column and row of the region, as numbers, which a pixel is compared with.
pub record Region (W : Type 0) : Type 0 where
  pub col_min : W
  pub col_max : W
  pub row_min : W
  pub row_max : W

-- The state, with the infinity that stands for no obstacle, and the distances published.
pub record CollisionAvoidance (W : Type 0) : Type 0 where
  pub roi_settings : RoiSettings W
  pub depth : W
  pub published : List W

module _ {W : Type 0} ⦃d : Double W⦄ where
  -- The members' initial values.
  unfoldable pub new_collision : CollisionAvoidance W
  new_collision = record {
    roi_settings = record {
      width_fraction = d.to_float (d.lit 2 1);
      height_fraction = d.to_float (d.lit 2 1);
      width_center = d.to_float (d.lit 5 1);
      height_center = d.to_float (d.lit 5 1);
    };
    depth = d.nan;
    published = [];
  }

module _ {W : Type 0} ⦃d : Double W⦄ where
  open d use {lit, of_int, to_int, to_float, lt, add, sub, mul}

  unfoldable pub is_pixel_valid : Region W → DepthPixel W → Bool
  is_pixel_valid r pixel =
      if lt pixel.x r.col_min || lt r.col_max pixel.x
      then false
      else if lt pixel.y r.row_min || lt r.row_max pixel.y
      then false
      else true

  -- A bound of the region: `static_cast<uint32_t>` of `float` arithmetic, converted to `float` again
  -- where a pixel is compared with it. The cast is undefined out of the range of `uint32_t`, which the
  -- initial fractions do not leave; there the low 32 bits are taken.
  abbrev below_center : W → W → ℕ → W
  below_center center fraction size =
      let bound = to_float (
        mul (to_float (sub center (to_float (mul (lit 5 1) fraction))))
          (to_float (of_int (pos size)))) in
      to_float (of_int (pos (to_u32 (to_int bound))))

  abbrev above_center : W → W → ℕ → W
  above_center center fraction size =
      let bound = to_float (
        mul (to_float (add center (to_float (mul (lit 5 1) fraction))))
          (to_float (of_int (pos size)))) in
      to_float (of_int (pos (to_u32 (to_int bound))))

  unfoldable pub region : RoiSettings W → ℕ → ℕ → Region W
  region roi rw_pixels rh_pixels = record {
    col_min = below_center roi.width_center roi.width_fraction rw_pixels;
    col_max = above_center roi.width_center roi.width_fraction rw_pixels;
    row_min = below_center roi.height_center roi.height_fraction rh_pixels;
    row_max = above_center roi.height_center roi.height_fraction rh_pixels;
  }

  unfoldable pub filter_pixels_to_roi : Region W → List (DepthPixel W) → List (DepthPixel W)
  filter_pixels_to_roi r [] = []
  filter_pixels_to_roi r (pixel ∷ pixels) =
      let rest = filter_pixels_to_roi r pixels in
      if not (is_pixel_valid r pixel) then rest else pixel ∷ rest

  -- `std::min_element` by depth, from a first candidate: the first of the least.
  unfoldable pub min_from : DepthPixel W → List (DepthPixel W) → DepthPixel W
  min_from smallest [] = smallest
  min_from smallest (pixel ∷ pixels) =
      min_from (if lt pixel.depth smallest.depth then pixel else smallest) pixels

  -- `none` for the end of an empty range.
  unfoldable pub min_element : List (DepthPixel W) → Option (DepthPixel W)
  min_element [] = none
  min_element (pixel ∷ pixels) = some (min_from pixel pixels)

module _ {W : Type 0} where
  abbrev pub store_distance :
      Option (DepthPixel W) → CollisionAvoidance W → Option (CollisionAvoidance W)
  store_distance none s = none
  store_distance (some pixel) s =
      some (record s { depth = pixel.depth; published = pixel.depth ∷ s.published })

module _ {W Q : Type 0} ⦃d : Double W⦄ where
  -- `none` where the code reads through the end of an empty range, which is undefined behaviour.
  unfoldable pub compute_distance_to_obstacle :
      W
      → CollisionConfiguration
      → Option (DepthImage W Q)
      → CollisionAvoidance W
      → Option (CollisionAvoidance W)
  compute_distance_to_obstacle infinity config none s =
      if config.autopilot_manager_enabled && config.simple_collision_avoid_enabled
      then some (record s { depth = infinity })
      else some s
  compute_distance_to_obstacle infinity config (some image) s =
      let roi = region s.roi_settings image.rw_pixels image.rh_pixels in
      let pixels = filter_pixels_to_roi roi image.depth_pixel_array in
      if config.autopilot_manager_enabled && config.simple_collision_avoid_enabled
      then (if ltb 0 (length image.depth_pixel_array)
          then store_distance (min_element pixels) s
          else some (record s { depth = infinity }))
      else some s
