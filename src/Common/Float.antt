-- ===== src/Common/Float.antt =====
-- The floating-point numbers of the code, as an interface. A `float` is held as the `double` of its
-- value, and `to_float` is the rounding that a conversion to `float` makes. A theorem that
-- needs one of their laws takes it by name.
use Prim.Native.Nat.{ℕ}
use Prim.Native.String.{String}
use mathlib.Core.Path.{◌≡◌}
use mathlib.Core.Bool.{Bool, true, false}
use mathlib.Core.Option.{Option}
use autopilot_manager.Common.Int.{ℤ}

pub record Double {ℓ} (W : Type ℓ) : Type ℓ where
  pub nan : W
  -- `lit m e` is the literal m / 10 ^ e.
  pub lit : ℕ → ℕ → W
  pub of_int : ℤ → W
  -- `static_cast<int64_t>`
  pub to_int : W → ℤ
  pub to_float : W → W
  pub is_finite : W → Bool
  pub lt : W → W → Bool
  pub le : W → W → Bool
  pub eq : W → W → Bool
  pub add : W → W → W
  pub sub : W → W → W
  pub mul : W → W → W
  pub div : W → W → W
  pub neg : W → W
  pub abs : W → W
  pub sqrt : W → W
  pub exp : W → W
  pub sin : W → W
  pub cos : W → W
  pub fmod : W → W → W
  -- `std::numeric_limits<float>::max()`
  pub max_float : W
  -- `std::to_string`
  pub to_string : W → String
  -- `std::stod`: `none` where it throws.
  pub stod : String → Option W

-- IEEE 754: `std::isfinite` is false of NaN.
pub record HasNan {ℓ} {W : Type ℓ} (d : Double W) : Type 0 where
  pub is_finite-nan : d.is_finite d.nan ≡ false

-- IEEE 754: `<` is irreflexive and transitive, and so is its negation through a finite number.
pub record IsOrder {ℓ} {W : Type ℓ} (d : Double W) : Type ℓ where
  pub lt_irrefl : (x : W) → d.lt x x ≡ false
  pub lt_trans : (x y z : W) → d.lt x y ≡ true → d.lt y z ≡ true → d.lt x z ≡ true
  pub not_lt_trans :
      (x y z : W) → d.is_finite y ≡ true → d.lt x y ≡ false → d.lt y z ≡ false → d.lt x z ≡ false
