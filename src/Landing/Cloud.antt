-- ===== src/Landing/Cloud.antt =====
-- src/modules/landing_manager/LandingManager.cpp: the loop of `mapper` over the pixels of a depth
-- image.
use autopilot_manager.Common.{ℕ, ℤ, Bool, ◌&&◌, List, [], ◌∷◌, ◌++◌, Double, if◌then◌else◌}

-- What the code reads of `DepthPixelF` and `ExtendedDownsampledImageF`; `Q` is the orientation's type.
pub record DepthPixel (W : Type 0) : Type 0 where
  pub x : W
  pub y : W
  pub depth : W

pub record DepthImage (W Q : Type 0) : Type 0 where
  pub depth_pixel_array : List (DepthPixel W)
  pub rw_pixels : ℕ
  pub rh_pixels : ℕ
  pub position : W × W × W
  pub orientation : Q
  pub timestamp_ns : ℤ

-- `to_world` is the arithmetic of Eigen that takes a pixel to a point in the world's frame.
module _ {W : Type 0} ⦃d : Double W⦄ (to_world : DepthPixel W → W × W × W) (altitude : W) where
  open d use {lit, to_float, is_finite, lt, sub}

  abbrev pub is_usable : DepthPixel W → Bool
  is_usable p = is_finite p.depth && lt (to_float (lit 7 1)) p.depth

  abbrev pub is_near : DepthPixel W → Bool
  is_near p = lt p.depth (lit 16 0)

  -- The height of a point above the vehicle, both measured downwards.
  abbrev pub point_height : DepthPixel W → W
  point_height p = to_float (sub (to_world p).2 altitude)

  abbrev pub scan_pixel : DepthPixel W → List (W × W × W) × W → List (W × W × W) × W
  scan_pixel p s =
      if is_usable p
      then (
        if is_near p then s.0 ++ (to_world p ∷ []) else s.0,
        if lt (point_height p) s.1 then point_height p else s.1,
      )
      else s

  -- The point cloud and the least height so far.
  unfoldable pub scan : List (DepthPixel W) → List (W × W × W) × W → List (W × W × W) × W
  scan [] s = s
  scan (p ∷ pixels) s = scan pixels (scan_pixel p s)
