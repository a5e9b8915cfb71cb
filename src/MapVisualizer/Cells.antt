-- ===== src/MapVisualizer/Cells.antt =====
-- The marker of the height map (src/modules/landing_manager/MapVisualizer.hpp, `visualizeHeightMap`).
use autopilot_manager.Common.{
  append-nil, ℕ, zero, suc, ◌≡◌, refl, ap, ◌∙◌, sym, inl, inr, Bool-cases, true, false, List, [],
  ◌∷◌, ◌++◌, map, Double, if◌then◌else◌,
}
use autopilot_manager.MapVisualizer.{
  Marker, HeightMap, MapVisualizer, is_mapped, height_pos, height_color, add_cell, add_columns,
  add_rows, map_marker_of, delete_marker, visualize_height_map,
}

-- The cells of a row from the column `y`, and those of the map, row after row.
abbrev pub row_cells : ℕ → (y left : ℕ) → List (ℕ × ℕ)
row_cells x y zero = []
row_cells x y (suc left) = (x, y) ∷ row_cells x (suc y) left

abbrev pub map_cells : (x left cols : ℕ) → List (ℕ × ℕ)
map_cells x zero cols = []
map_cells x (suc left) cols = row_cells x 0 cols ++ map_cells (suc x) left cols

append_assoc : {A : Type 0} → (xs ys zs : List A) → (xs ++ ys) ++ zs ≡ xs ++ (ys ++ zs)
append_assoc [] ys zs = refl
append_assoc (x ∷ xs) ys zs = ap (λ rest. x ∷ rest) (append_assoc xs ys zs)

module _ {W : Type 0} ⦃d : Double W⦄ (m : HeightMap W) where
  -- The positions of the cells that have a height.
  abbrev pub positions : List (ℕ × ℕ) → List (W × W × W)
  positions [] = []
  positions ((x, y) ∷ cells) =
      let rest = positions cells in if is_mapped m x y then height_pos m x y ∷ rest else rest

  abbrev with_points : Marker W → List (W × W × W) → Marker W
  with_points marker ps = record marker {
    points = marker.points ++ ps;
    colors = marker.colors ++ map (λ p. height_color p.2) ps;
  }

  abbrev colors_of : List (W × W × W) → List (W × W × W × W)
  colors_of ps = map (λ p. height_color p.2) ps

  with_nothing : (marker : Marker W) → with_points marker [] ≡ marker
  with_nothing marker =
      ap (λ ps. record marker { points = ps; colors = marker.colors ++ [] })
        (append-nil marker.points)
      ∙ ap (λ cs. record marker { colors = cs }) (append-nil marker.colors)

  colors_of-append :
      (ps qs : List (W × W × W)) → colors_of (ps ++ qs) ≡ colors_of ps ++ colors_of qs
  colors_of-append [] qs = refl
  colors_of-append (p ∷ ps) qs = ap (λ cs. height_color p.2 ∷ cs) (colors_of-append ps qs)

  with_both :
      (marker : Marker W) (ps qs : List (W × W × W))
      → with_points (with_points marker ps) qs ≡ with_points marker (ps ++ qs)
  with_both marker ps qs =
      ap
        (λ points. record marker {
          points = points;
          colors = (marker.colors ++ colors_of ps) ++ colors_of qs;
        })
        (append_assoc marker.points ps qs)
      ∙ ap (λ colors. record marker { points = marker.points ++ (ps ++ qs); colors = colors })
          (append_assoc marker.colors (colors_of ps) (colors_of qs)
            ∙ ap (λ cs. marker.colors ++ cs) (sym (colors_of-append ps qs)))

  one_cell :
      (x y : ℕ) (marker : Marker W)
      → add_cell m x y marker ≡ with_points marker (positions ((x, y) ∷ []))
  one_cell x y marker = elim (Bool-cases (is_mapped m x y)) [
    | inl mapped ↦ rw mapped refl
    | inr unmapped ↦ rw unmapped (sym (with_nothing marker))
  ]

  positions-append :
      (cells others : List (ℕ × ℕ))
      → positions (cells ++ others) ≡ positions cells ++ positions others
  positions-append [] others = refl
  positions-append ((x, y) ∷ cells) others = elim (Bool-cases (is_mapped m x y)) [
    | inl mapped ↦ rw mapped (ap (λ ps. height_pos m x y ∷ ps) (positions-append cells others))
    | inr unmapped ↦ rw unmapped (positions-append cells others)
  ]

  one_row :
      (x y left : ℕ) (marker : Marker W)
      → add_columns m x y left marker ≡ with_points marker (positions (row_cells x y left))
  unfolding add_columns
  one_row x y zero marker = sym (with_nothing marker)
  one_row x y (suc left) marker =
      one_row x (suc y) left (add_cell m x y marker)
      ∙ ap (λ n. with_points n (positions (row_cells x (suc y) left))) (one_cell x y marker)
      ∙ with_both marker (positions ((x, y) ∷ [])) (positions (row_cells x (suc y) left))
      ∙ ap (with_points marker) (sym (positions-append ((x, y) ∷ []) (row_cells x (suc y) left)))

  all_rows :
      (x left : ℕ) (marker : Marker W)
      → add_rows m x left marker ≡ with_points marker (positions (map_cells x left m.cols))
  unfolding add_rows
  all_rows x zero marker = sym (with_nothing marker)
  all_rows x (suc left) marker =
      all_rows (suc x) left (add_columns m x 0 m.cols marker)
      ∙ ap (λ n. with_points n (positions (map_cells (suc x) left m.cols)))
          (one_row x 0 m.cols marker)
      ∙ with_both marker (positions (row_cells x 0 m.cols))
          (positions (map_cells (suc x) left m.cols))
      ∙ ap (with_points marker)
          (sym (positions-append (row_cells x 0 m.cols) (map_cells (suc x) left m.cols)))

  -- The height map is published as one message of two markers, the one before deleted and a new one, if it
  -- is enabled: its points are the positions of the cells that have a height, row after row, and it has one
  -- colour for each of them, by its height. If it is not enabled nothing is published.
  pub height_map_points :
      (v : MapVisualizer W)
      → let ps = positions (map_cells 0 m.rows m.cols) in
        (visualize_height_map m true v ≡ record v {
          map_marker =
              (delete_marker
                ∷ record (map_marker_of m) { points = ps; colors = map (λ p. height_color p.2) ps }
                ∷ [])
              ∷ v.map_marker;
        })
        × (visualize_height_map m false v ≡ v)
  unfolding visualize_height_map
  height_map_points v = (
    ap (λ marker. record v { map_marker = (delete_marker ∷ marker ∷ []) ∷ v.map_marker })
        (all_rows 0 m.rows (map_marker_of m)),
    refl,
  )
