-- ===== src/Manager/File/Whole.antt =====
-- A file of lines that are each read back is read back line by line (src/AutopilotManagerConfig.cpp).
use autopilot_manager.Common.{
  String, ◌≡◌, refl, ◌∙◌, inl, inr, Bool, true, false, not, ◌&&◌, ◌||◌, some, List, [], ◌∷◌, ℤ,
  Double, contains, lines, has_letter, has, show_int, has_letter-show, has-show, contains-no_letter,
  after_equals-append, lines-append, has-append, arith,
}
use autopilot_manager.Manager.Config.{Value, AutopilotManagerConfig}
use autopilot_manager.Manager.File.{
  Assign, apply_line, value_of, load, print, line_text, lines_text, assignments,
}
use autopilot_manager.Manager.File.Lines.{
  IsPrinter, apart, absent, fits_all, store, is_key, apply-line_text, and_left, and_right,
}

is_not : (b : Bool) → not b ≡ true → b ≡ false
is_not b h = ground arith

neither : (a b : Bool) → a ≡ false → b ≡ false → (a || b) ≡ false
neither a b h k = ground arith

not_found : (key s : String) → is_key key ≡ true → has_letter s ≡ false → contains key s ≡ false
not_found String.[] s h n = absurd (cc)
not_found (String.◌∷◌ c key) s h n = contains-no_letter c key s (and_left _ _ h) n

module _ {W : Type 0} where
  abbrev all_keys : List (String × Assign W) → Bool
  all_keys [] = true
  all_keys ((key, _) ∷ table) = is_key key && all_keys table

  absent-no_letter :
      (table : List (String × Assign W)) (s : String)
      → all_keys table ≡ true
      → has_letter s ≡ false
      → absent table s ≡ true
  absent-no_letter [] s h n = refl
  absent-no_letter ((key, _) ∷ table) s h n =
      rw (not_found key s (and_left _ _ h) n) (absent-no_letter table s (and_right _ _ h) n)

module _ (W : Type 0) where
  abbrev pub key_ok : String → Bool
  key_ok k = (not (has b'=' k) && not (has b'\n' k)) && apart (assignments {W = W}) k

  -- A value that no key of the table is found in, on one line.
  abbrev pub is_plain : String → Bool
  is_plain s = absent (assignments {W = W}) s && not (has b'\n' s)

  plain-no_letter : (s : String) → has_letter s ≡ false → has b'\n' s ≡ false → is_plain s ≡ true
  plain-no_letter s l n = rw (absent-no_letter (assignments {W = W}) s refl l, n) refl

  -- A line that is read back.
  abbrev pub is_readable : Double W → String × Value W → Bool
  is_readable d (k, v) =
      key_ok k && (is_plain (print ⦃d = d⦄ v) && fits_all (assignments {W = W}) k v)

  abbrev pub all_readable : Double W → List (String × Value W) → Bool
  all_readable d [] = true
  all_readable d (entry ∷ entries) = is_readable d entry && all_readable d entries

module _ {W : Type 0} where
  abbrev pub fold_store :
      (six : W → W) → List (String × Value W) → AutopilotManagerConfig W → AutopilotManagerConfig W
  fold_store six [] c = c
  fold_store six ((k, v) ∷ entries) c = fold_store six entries (store six assignments k v c)

module _ {W : Type 0} (d : Double W) (six : W → W) (printer : IsPrinter d six) where
  pub plain-real : (w : W) → is_plain W (d.to_string w) ≡ true
  plain-real w = elim (printer.spelled w) [
    | inl none_found ↦ plain-no_letter W (d.to_string w) none_found (printer.one_line w)
    | inr (inl is_nan) ↦ rw is_nan refl
    | inr (inr (inl is_nan)) ↦ rw is_nan refl
    | inr (inr (inr (inl is_inf))) ↦ rw is_inf refl
    | inr (inr (inr (inr is_inf))) ↦ rw is_inf refl
  ]

  pub plain-integer : (z : ℤ) → is_plain W (show_int z) ≡ true
  plain-integer z = plain-no_letter W (show_int z) (has_letter-show z) (has-show z)

  has-line :
      (k : String) (v : Value W)
      → is_readable W d (k, v) ≡ true
      → has b'\n' (line_text ⦃d = d⦄ (k, v)) ≡ false
  has-line k v h =
      has-append b'\n' k (String.◌∷◌ "=" (print ⦃d = d⦄ v))
      ∙ neither (has b'\n' k) (has b'\n' (print ⦃d = d⦄ v))
          (is_not _ (and_right _ _ (and_left _ _ (and_left _ _ h))))
          (is_not _ (and_right _ _ (and_left _ _ (and_right _ _ h))))

  value_of-line :
      (k : String) (v : Value W)
      → is_readable W d (k, v) ≡ true
      → value_of (line_text ⦃d = d⦄ (k, v)) ≡ print ⦃d = d⦄ v
  value_of-line k v h =
      rw
        (after_equals-append k (print ⦃d = d⦄ v)
          (is_not _ (and_left _ _ (and_left _ _ (and_left _ _ h)))))
        refl

  apply-line :
      (k : String) (v : Value W) (c : AutopilotManagerConfig W)
      → is_readable W d (k, v) ≡ true
      → apply_line ⦃d = d⦄ assignments
          (line_text ⦃d = d⦄ (k, v))
          (value_of (line_text ⦃d = d⦄ (k, v)))
          c
        ≡ some (store six assignments k v c)
  apply-line k v c h = rw (value_of-line k v h) (
      apply-line_text d six printer assignments k v c (and_right _ _ (and_left _ _ h))
        (and_left _ _ (and_left _ _ (and_right _ _ h))) (and_right _ _ (and_right _ _ h)))

  pub load-lines :
      (entries : List (String × Value W)) (c : AutopilotManagerConfig W)
      → all_readable W d entries ≡ true
      → load ⦃d = d⦄ (lines (lines_text ⦃d = d⦄ entries)) c ≡ some (fold_store six entries c)
  unfolding load lines_text
  load-lines [] c h = refl
  load-lines ((k, v) ∷ entries) c h =
      rw
        (
          lines-append (line_text ⦃d = d⦄ (k, v)) (lines_text ⦃d = d⦄ entries)
              (has-line k v (and_left _ _ h)),
          load,
          apply-line k v c (and_left _ _ h),
        )
        (load-lines entries (store six assignments k v c) (and_right _ _ h))
