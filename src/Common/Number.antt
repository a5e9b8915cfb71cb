-- ===== src/Common/Number.antt =====
-- A printed integer is read back, and has digits and at most a sign.
use Prim.Native.Char.{code}
use Prim.Native.Nat.{ℕ, zero, suc, ◌+◌, ◌-◌, ◌*◌, ◌/◌, ◌%◌, ◌<◌}
use Prim.Native.String.{String}
use mathlib.Core.Path.{◌≡◌, refl, ap, ◌∙◌}
use mathlib.Core.Logic.{inl, inr}
use mathlib.Core.Bool.{true, false}
use mathlib.Core.Option.{some}
use native.Mathlib.Omega.{arith}
use autopilot_manager.Common.Tests.{ltb, Bool-cases}
use autopilot_manager.Common.Int.{ℤ, pos, negsuc}
use autopilot_manager.Common.Text.{
  digit, is_digit, digits_from, starts_number, read_int, stoi, is_int, show_digits, show_int,
  has_letter, has, minus,
}

zero_add : (n : ℕ) → 0 * 10 + n ≡ n
zero_add n = omega arith

code-digit : (d : ℕ) → d < 10 → code (digit d) ≡ b'0' + d
code-digit zero h = refl
code-digit (suc zero) h = refl
code-digit (suc (suc zero)) h = refl
code-digit (suc (suc (suc zero))) h = refl
code-digit (suc (suc (suc (suc zero)))) h = refl
code-digit (suc (suc (suc (suc (suc zero))))) h = refl
code-digit (suc (suc (suc (suc (suc (suc zero)))))) h = refl
code-digit (suc (suc (suc (suc (suc (suc (suc zero))))))) h = refl
code-digit (suc (suc (suc (suc (suc (suc (suc (suc zero)))))))) h = refl
code-digit (suc (suc (suc (suc (suc (suc (suc (suc (suc zero))))))))) h = refl
code-digit (suc (suc (suc (suc (suc (suc (suc (suc (suc (suc d)))))))))) h = absurd (omega arith)

digits_from-digit :
    (a d : ℕ) (s : String)
    → d < 10
    → digits_from a (String.◌∷◌ (digit d) s) ≡ digits_from (a * 10 + d) s
digits_from-digit a d s h =
    let e = code-digit d h in
    let yes_digit : is_digit (code (digit d)) ≡ true = ground (arith, e) in
    let value : a * 10 + (code (digit d) - b'0') ≡ a * 10 + d = omega (arith, e) in
    rw yes_digit (ap (λ n. digits_from n s) value)

digits_from-show :
    (fuel n : ℕ) (s : String) → n < fuel → digits_from 0 (show_digits fuel n s) ≡ digits_from n s
digits_from-show zero n s h = absurd (omega arith)
digits_from-show (suc fuel) n s h = elim (Bool-cases (ltb n 10)) [
  | inl small ↦
      rw small (digits_from-digit 0 n s (ground arith) ∙ ap (λ k. digits_from k s) (zero_add n))
  | inr large ↦
      let quotient : n / 10 * 10 + n % 10 ≡ n = omega arith in
      rw large (
        digits_from-show fuel (n / 10) (String.◌∷◌ (digit (n % 10)) s) (ground arith)
        ∙ digits_from-digit (n / 10) (n % 10) s (omega arith)
        ∙ ap (λ k. digits_from k s) quotient)
]

starts_number-digit : (d : ℕ) (s : String) → d < 10 → starts_number (String.◌∷◌ (digit d) s) ≡ true
starts_number-digit d s h = ground (arith, code-digit d h)

starts_number-show :
    (fuel n : ℕ) (s : String) → n < fuel → starts_number (show_digits fuel n s) ≡ true
starts_number-show zero n s h = absurd (omega arith)
starts_number-show (suc fuel) n s h = elim (Bool-cases (ltb n 10)) [
  | inl small ↦ rw small (starts_number-digit n s (ground arith))
  | inr large ↦
      rw large (starts_number-show fuel (n / 10) (String.◌∷◌ (digit (n % 10)) s) (ground arith))
]

-- Neither a letter nor the end of a line.
IsClean : String → Type 0
IsClean s = (has_letter s ≡ false) × (has b'\n' s ≡ false)

IsClean-digit : (d : ℕ) (s : String) → d < 10 → IsClean s → IsClean (String.◌∷◌ (digit d) s)
unfolding IsClean
IsClean-digit d s h c = (ground (arith, code-digit d h), ground (arith, code-digit d h))

IsClean-show : (fuel n : ℕ) (s : String) → IsClean s → IsClean (show_digits fuel n s)
IsClean-show zero n s c = c
IsClean-show (suc fuel) n s c = elim (Bool-cases (ltb n 10)) [
  | inl small ↦ rw small (IsClean-digit n s (ground arith) c)
  | inr large ↦ rw large (
      IsClean-show fuel (n / 10) (String.◌∷◌ (digit (n % 10)) s)
        (IsClean-digit (n % 10) s (omega arith) c))
]

digits_from-show_int : (n : ℕ) → digits_from 0 (show_digits (suc n) n "") ≡ n
digits_from-show_int n = digits_from-show (suc n) n "" (omega arith)

minus-suc : (n : ℕ) → minus (suc n) ≡ negsuc n
minus-suc n = ground arith

read_number : (s : String) → starts_number s ≡ true → read_int s ≡ some (pos (digits_from 0 s))
read_number String.[] h = ground arith
read_number (String.◌∷◌ c s) h = ground arith

read_minus :
    (s : String)
    → starts_number s ≡ true
    → read_int (String.◌∷◌ "-" s) ≡ some (minus (digits_from 0 s))
read_minus s h = ground arith

pub read_int-show : (z : ℤ) → read_int (show_int z) ≡ some z
unfolding show_int
read_int-show (pos n) =
    read_number (show_digits (suc n) n "") (starts_number-show (suc n) n "" (omega arith))
    ∙ ap (λ k. some (pos k)) (digits_from-show_int n)
read_int-show (negsuc n) =
    read_minus (show_digits (suc (suc n)) (suc n) "")
      (starts_number-show (suc (suc n)) (suc n) "" (omega arith))
    ∙ ap (λ k. some (minus k)) (digits_from-show_int (suc n))
    ∙ ap some (minus-suc n)

pub stoi-show : (z : ℤ) → is_int z ≡ true → stoi (show_int z) ≡ some z
stoi-show z h = rw (read_int-show z) (rw h)

pub has_letter-show : (z : ℤ) → has_letter (show_int z) ≡ false
unfolding show_int IsClean
has_letter-show (pos n) = (IsClean-show (suc n) n "" (refl, refl)).0
has_letter-show (negsuc n) = ground (arith, IsClean-show (suc (suc n)) (suc n) "" (refl, refl))

pub has-show : (z : ℤ) → has b'\n' (show_int z) ≡ false
unfolding show_int IsClean
has-show (pos n) = (IsClean-show (suc n) n "" (refl, refl)).1
has-show (negsuc n) = ground (arith, IsClean-show (suc (suc n)) (suc n) "" (refl, refl))
