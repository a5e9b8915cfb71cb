-- ===== src/Landing/Parameters.antt =====
-- src/modules/landing_manager/LandingManager.cpp: `updateParameters` with the two setters that check a
-- value. The members of the mapper's parameters are taken for `float`s, as the literals that the code
-- gives them are.
use autopilot_manager.Common.{◌≡◌, Bool, true, false, ◌||◌, not, Double, arith, if◌then◌else◌}

-- `LandingManagerConfiguration`, and the parameters that the code sets by it.
pub record Configuration (W : Type 0) : Type 0 where
  pub autopilot_manager_enabled : Bool
  pub safe_landing_enabled : Bool
  pub safe_landing_area_square_size : W
  pub safe_landing_distance_to_ground : W

pub record Parameters (W : Type 0) : Type 0 where
  pub max_search_altitude_m : W
  pub max_window_size_m : W
  pub search_altitude_m : W
  pub window_size_m : W

module _ {W : Type 0} ⦃d : Double W⦄ where
  open d use {lit, to_float, lt, eq}

  unfoldable pub set_search_altitude_m : W → Parameters W → Parameters W × Bool
  set_search_altitude_m altitude p =
      if lt altitude (lit 1 0)
      then (p, false)
      else if lt p.max_search_altitude_m altitude
      then (p, false)
      else (record p { search_altitude_m = to_float altitude }, true)

  unfoldable pub set_search_window_m : W → Parameters W → Parameters W × Bool
  set_search_window_m window_size p =
      if lt window_size (lit 1 0)
      then (p, false)
      else if lt p.max_window_size_m window_size
      then (p, false)
      else (record p { window_size_m = to_float window_size }, true)

  unfoldable pub update_parameters : Configuration W → Parameters W → Parameters W
  unfolding set_search_altitude_m set_search_window_m
  update_parameters c p =
      let (p1, altitude_set) = set_search_altitude_m c.safe_landing_distance_to_ground p in
      let q =
        if eq c.safe_landing_distance_to_ground (lit 0 0) || not altitude_set
        then record p { search_altitude_m = to_float (lit 75 1) }
        else p1 in
      let (q1, window_set) = set_search_window_m c.safe_landing_area_square_size q in
      if eq c.safe_landing_area_square_size (lit 0 0) || not window_set
      then record q { window_size_m = to_float (lit 2 0) }
      else q1

  -- A configured size is used if it is not 0, not below 1, and not above the limit; a comparison with
  -- a value that is not a number fails, so such a value is used too.
  abbrev pub usable : W → W → Bool
  usable limit a = not (eq a (lit 0 0) || (lt a (lit 1 0) || lt limit a))

  -- After an update the search altitude and the window are the configured ones where these are usable,
  -- and 7.5 m and 2 m where not; the two limits stay as they were.
  pub update_parameters_checked :
      (c : Configuration W) (p : Parameters W)
      → update_parameters c p ≡ record p {
        search_altitude_m = to_float (
            if usable p.max_search_altitude_m c.safe_landing_distance_to_ground
            then c.safe_landing_distance_to_ground
            else lit 75 1);
        window_size_m = to_float (
            if usable p.max_window_size_m c.safe_landing_area_square_size
            then c.safe_landing_area_square_size
            else lit 2 0);
      }
  unfolding update_parameters
  update_parameters_checked c p = ground arith

  -- What a value that is not a number does in comparisons (IEEE 754).
  pub record IsUnordered (x : W) : Type 0 where
    pub lt_left : (y : W) → d.lt x y ≡ false
    pub lt_right : (y : W) → d.lt y x ≡ false
    pub eq_left : (y : W) → d.eq x y ≡ false

  -- A configured search altitude that is not a number passes every check and is used.
  pub nan_altitude_is_used :
      (c : Configuration W) (p : Parameters W)
      → IsUnordered c.safe_landing_distance_to_ground
      → (update_parameters c p).search_altitude_m ≡ to_float c.safe_landing_distance_to_ground
  unfolding update_parameters
  nan_altitude_is_used c p u =
      ground (arith, u.lt_left (lit 1 0), u.lt_right p.max_search_altitude_m, u.eq_left (lit 0 0))
