-- ===== src/Manager/File/Lines.antt =====
-- A line that is written is read back as the one member that it is written for
-- (src/AutopilotManagerConfig.cpp).
use Prim.Native.Char.{code}
use autopilot_manager.Common.{
  String, ◌≡◌, refl, ap, sym, ◌∙◌, ◌⊎◌, inl, inr, Bool, true, false, not, ◌&&◌, ◌||◌, some, List,
  [], ◌∷◌, Double, append, contains, is_letter, has_letter, has, is_int, stoi-show, contains-append,
  str_eq, arith, if◌then◌else◌, Bool-cases,
}
use autopilot_manager.Manager.Config.{Value, AutopilotManagerConfig}
use autopilot_manager.Manager.File.{to_u8, Assign, assign, apply_line, print, line_text}

-- What the code relies on of `std::to_string` and `std::stod` of a `double`: reading gives back the
-- number with its six decimals, `six`; the text has no letter but for `nan` and `inf`, and no line end.
pub record IsPrinter {W : Type 0} (d : Double W) (six : W → W) : Type 0 where
  pub stod-to_string : (w : W) → d.stod (d.to_string w) ≡ some (six w)
  pub spelled :
      (w : W)
      → (has_letter (d.to_string w) ≡ false)
        ⊎ ((d.to_string w ≡ "nan")
            ⊎ ((d.to_string w ≡ "-nan") ⊎ ((d.to_string w ≡ "inf") ⊎ (d.to_string w ≡ "-inf"))))
  pub one_line : (w : W) → has b'\n' (d.to_string w) ≡ false

abbrev same : Bool → Bool → Bool
same true b = b
same false b = not b

abbrev pub is_key : String → Bool
is_key String.[] = false
is_key (String.◌∷◌ c s) = is_letter (code c) && not (has b'=' (String.◌∷◌ c s))

module _ {W : Type 0} where
  -- The keys of the table are keys, and are found in the key `k` only where they are it.
  abbrev pub apart : List (String × Assign W) → String → Bool
  apart [] k = true
  apart ((key, _) ∷ table) k = (is_key key && same (contains key k) (str_eq key k)) && apart table k

  -- No key of the table is found in the text.
  abbrev pub absent : List (String × Assign W) → String → Bool
  absent [] s = true
  absent ((key, _) ∷ table) s = not (contains key s) && absent table s

  abbrev fits : Assign W → Value W → Bool
  fits (Assign.text _) (Value.text _) = true
  fits (Assign.real _) (Value.real _) = true
  fits (Assign.flag _) (Value.integer z) = is_int z
  fits (Assign.integer _) (Value.integer z) = is_int z
  fits _ _ = false

  abbrev pub fits_all : List (String × Assign W) → String → Value W → Bool
  fits_all [] k v = true
  fits_all ((key, a) ∷ table) k v = (if str_eq key k then fits a v else true) && fits_all table k v

  module _ (six : W → W) where
    -- What reading a printed value sets.
    abbrev pub read_value : Assign W → Value W → AutopilotManagerConfig W → AutopilotManagerConfig W
    read_value (Assign.text set) (Value.text s) c = set s c
    read_value (Assign.real set) (Value.real w) c = set (six w) c
    read_value (Assign.flag set) (Value.integer z) c = set (to_u8 z) c
    read_value (Assign.integer set) (Value.integer z) c = set z c
    read_value _ _ c = c

    abbrev pub store :
        List (String × Assign W)
        → String
        → Value W
        → AutopilotManagerConfig W
        → AutopilotManagerConfig W
    store [] k v c = c
    store ((key, a) ∷ table) k v c = store table k v (if str_eq key k then read_value a v c else c)

pub and_left : (a b : Bool) → a && b ≡ true → a ≡ true
and_left a b h = ground arith

pub and_right : (a b : Bool) → a && b ≡ true → b ≡ true
and_right a b h = ground arith

not_left : (a b : Bool) → not a && b ≡ true → a ≡ false
not_left a b h = ground arith

no_equals : (l e r : Bool) → (l && not e) && r ≡ true → e ≡ false
no_equals l e r h = ground arith

either : (a b r : Bool) → r && same a b ≡ true → (a || false) ≡ b
either a b r h = ground arith

module _ {W : Type 0} (d : Double W) (six : W → W) (printer : IsPrinter d six) where
  assign-print :
      (a : Assign W) (v : Value W) (c : AutopilotManagerConfig W)
      → fits a v ≡ true
      → assign ⦃d = d⦄ a (print ⦃d = d⦄ v) c ≡ some (read_value six a v c)
  assign-print (Assign.text set) (Value.text s) c h = refl
  assign-print (Assign.real set) (Value.real w) c h = rw (printer.stod-to_string w)
  assign-print (Assign.flag set) (Value.integer z) c h = rw (stoi-show z h)
  assign-print (Assign.integer set) (Value.integer z) c h = rw (stoi-show z h)
  assign-print (Assign.text _) (Value.real _) c h = absurd (cc)
  assign-print (Assign.text _) (Value.integer _) c h = absurd (cc)
  assign-print (Assign.real _) (Value.text _) c h = absurd (cc)
  assign-print (Assign.real _) (Value.integer _) c h = absurd (cc)
  assign-print (Assign.flag _) (Value.text _) c h = absurd (cc)
  assign-print (Assign.flag _) (Value.real _) c h = absurd (cc)
  assign-print (Assign.integer _) (Value.text _) c h = absurd (cc)
  assign-print (Assign.integer _) (Value.real _) c h = absurd (cc)

  -- One key of the table against a line.
  found :
      (key k v : String)
      → is_key key && same (contains key k) (str_eq key k) ≡ true
      → contains key v ≡ false
      → contains key (append k (String.◌∷◌ "=" v)) ≡ str_eq key k
  found String.[] k v h n = ground arith
  found (String.◌∷◌ c s) k v h n =
      contains-append c s k v (no_equals (is_letter (code c)) _ _ h)
      ∙ ap (λ b. contains (String.◌∷◌ c s) k || b) n
      ∙ either (contains (String.◌∷◌ c s) k) _ _ h

  one_key :
      (key k : String) (set : Assign W) (v : Value W) (c : AutopilotManagerConfig W)
      → is_key key && same (contains key k) (str_eq key k) ≡ true
      → contains key (print ⦃d = d⦄ v) ≡ false
      → (if str_eq key k then fits set v else true) ≡ true
      → (if contains key (line_text ⦃d = d⦄ (k, v))
          then assign ⦃d = d⦄ set (print ⦃d = d⦄ v) c
          else some c)
        ≡ some (if str_eq key k then read_value six set v c else c)
  one_key key k set v c h n f =
      rw (found key k (print ⦃d = d⦄ v) h n) (elim (Bool-cases (str_eq key k)) [
        | inl is_it ↦
            rw is_it
              (assign-print set v c (sym (ap (λ b. if b then fits set v else true) is_it) ∙ f))
        | inr other ↦ rw other refl
      ])

  pub apply-line_text :
      (table : List (String × Assign W)) (k : String) (v : Value W) (c : AutopilotManagerConfig W)
      → apart table k ≡ true
      → absent table (print ⦃d = d⦄ v) ≡ true
      → fits_all table k v ≡ true
      → apply_line ⦃d = d⦄ table (line_text ⦃d = d⦄ (k, v)) (print ⦃d = d⦄ v) c
        ≡ some (store six table k v c)
  unfolding apply_line
  apply-line_text [] k v c h a f = refl
  apply-line_text ((key, set) ∷ table) k v c h a f =
      rw (one_key key k set v c (and_left _ _ h) (not_left _ _ a) (and_left _ _ f), apply_line)
        (apply-line_text table k v (if str_eq key k then read_value six set v c else c)
          (and_right _ _ h) (and_right _ _ a) (and_right _ _ f))
