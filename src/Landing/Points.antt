-- ===== src/Landing/Points.antt =====
-- What the loop over the pixels collects (src/modules/landing_manager/LandingManager.cpp, `mapper`).
use mathlib.Core.List.{append_assoc, append-nil}
use autopilot_manager.Common.{
  ◌≡◌, ◌∙◌, refl, sym, ◌⊎◌, inl, inr, true, false, ◌&&◌, List, [], ◌∷◌, ◌++◌, Double, IsOrder, All,
  arith, if◌then◌else◌,
}
use autopilot_manager.Landing.Cloud.{DepthPixel, is_usable, is_near, point_height, scan_pixel, scan}

module _ {W : Type 0} (d : Double W) (order : IsOrder d) (x y z : W) where
  below_trans :
      (y ≡ x) ⊎ (d.lt y x ≡ true) → (z ≡ y) ⊎ (d.lt z y ≡ true) → (z ≡ x) ⊎ (d.lt z x ≡ true)
  below_trans h g = ground (arith, order.lt_trans z y x)

  not_less : (x ≡ y) ⊎ (d.lt x y ≡ false) → (z ≡ y) ⊎ (d.lt z y ≡ true) → d.lt x z ≡ false
  not_less h g = ground (arith, order.lt_trans x z y, order.lt_irrefl x, order.lt_irrefl y)

module _ {W : Type 0} ⦃d : Double W⦄ (to_world : DepthPixel W → W × W × W) (altitude : W) where
  -- The points of the pixels that are usable and near, in their order.
  abbrev pub near_points : List (DepthPixel W) → List (W × W × W)
  near_points [] = []
  near_points (p ∷ pixels) =
      let rest = near_points pixels in
      if is_usable to_world altitude p && is_near to_world altitude p
      then to_world p ∷ rest
      else rest

  near_pixel :
      (p : DepthPixel W) (s : List (W × W × W) × W) (rest : List (W × W × W))
      → (scan_pixel to_world altitude p s).0 ++ rest
        ≡ s.0
          ++ (if is_usable to_world altitude p && is_near to_world altitude p
              then to_world p ∷ rest
              else rest)
  near_pixel p s rest = ground (arith, append_assoc s.0 (to_world p ∷ []) rest)

  -- The point cloud given to the mapper holds the points of the finite depths above 0.7 m and below
  -- 16 m, each once and in the order of the pixels.
  pub scan-near_points :
      (pixels : List (DepthPixel W)) (s : List (W × W × W) × W)
      → (scan to_world altitude pixels s).0 ≡ s.0 ++ near_points pixels
  unfolding scan
  scan-near_points [] s = sym (append-nil s.0)
  scan-near_points (p ∷ pixels) s =
      scan-near_points pixels (scan_pixel to_world altitude p s)
      ∙ near_pixel p s (near_points pixels)

  -- A step of the loop: the estimate does not rise, and it is not above the height of a usable pixel.
  lowest_pixel :
      IsOrder d
      → (p : DepthPixel W) (s : List (W × W × W) × W)
      → let lowest = (scan_pixel to_world altitude p s).1 in
        ((lowest ≡ s.1) ⊎ (d.lt lowest s.1 ≡ true))
        × ((is_usable to_world altitude p ≡ false)
            ⊎ ((point_height to_world altitude p ≡ lowest)
                ⊎ (d.lt (point_height to_world altitude p) lowest ≡ false)))
  lowest_pixel order p s = ground arith

  -- No pixel that is usable is nearer to the ground than the height estimate given to the mapper says:
  -- none has a height less than it; nor does the estimate exceed the value it starts from.
  pub scan_lowest :
      (order : IsOrder d) (pixels : List (DepthPixel W)) (s : List (W × W × W) × W)
      → let lowest = (scan to_world altitude pixels s).1 in
        ((lowest ≡ s.1) ⊎ (d.lt lowest s.1 ≡ true))
        × All
            (λ p.
              (is_usable to_world altitude p ≡ false)
              ⊎ (d.lt (point_height to_world altitude p) lowest ≡ false))
            pixels
  unfolding scan
  scan_lowest order [] s = (inl refl, tt)
  scan_lowest order (p ∷ pixels) s =
      let (down, all) = scan_lowest order pixels (scan_pixel to_world altitude p s) in
      let (down1, here) = lowest_pixel order p s in
      let lowest = (scan to_world altitude pixels (scan_pixel to_world altitude p s)).1 in
      let low = (scan_pixel to_world altitude p s).1 in
      (
        below_trans d order s.1 low lowest down1 down,
        (
          elim here [
            | inl off ↦ inl off
            | inr above ↦
                inr (not_less d order (point_height to_world altitude p) low lowest above down)
          ],
          all,
        ),
      )
