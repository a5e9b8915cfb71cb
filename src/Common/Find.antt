-- ===== src/Common/Find.antt =====
-- Where a text is found in a line `key=value`, and how lines are read back.
use Prim.Native.Char.{Char, code}
use Prim.Native.Nat.{ℕ}
use Prim.Native.String.{String}
use mathlib.Core.Path.{◌≡◌, refl}
use mathlib.Core.Bool.{true, false, ◌||◌}
use mathlib.Core.Option.{some}
use mathlib.Core.List.{◌∷◌}
use native.Mathlib.Omega.{arith}
use autopilot_manager.Common.Text.{
  append, begins, contains, after_equals, lines, has, is_letter, has_letter,
}

-- A text with no `=`, in front of one.
begins-append :
    (n k v : String) → has b'=' n ≡ false → begins n (append k (String.◌∷◌ "=" v)) ≡ begins n k
begins-append String.[] k v h = refl
begins-append (String.◌∷◌ c n) String.[] v h = ground arith
begins-append (String.◌∷◌ c n) (String.◌∷◌ d k) v h = ground (arith, begins-append n k v)

pub contains-append :
    (c : Char) (n k v : String)
    → has b'=' (String.◌∷◌ c n) ≡ false
    → contains (String.◌∷◌ c n) (append k (String.◌∷◌ "=" v))
      ≡ (contains (String.◌∷◌ c n) k || contains (String.◌∷◌ c n) v)
contains-append c n String.[] v h = ground arith
contains-append c n (String.◌∷◌ d k) v h =
    ground (arith, contains-append c n k v h, begins-append (String.◌∷◌ c n) (String.◌∷◌ d k) v h)

pub after_equals-append :
    (k v : String) → has b'=' k ≡ false → after_equals (append k (String.◌∷◌ "=" v)) ≡ some v
after_equals-append String.[] v h = refl
after_equals-append (String.◌∷◌ c k) v h = ground (arith, after_equals-append k v)

pub lines-append :
    (l rest : String)
    → has b'\n' l ≡ false
    → lines (append l (String.◌∷◌ "\n" rest)) ≡ l ∷ lines rest
lines-append String.[] rest h = refl
lines-append (String.◌∷◌ c l) rest h = ground (arith, lines-append l rest)

-- A text that begins with a letter is not found where there is none.
begins-no_letter :
    (c : Char) (n t : String)
    → is_letter (code c) ≡ true
    → has_letter t ≡ false
    → begins (String.◌∷◌ c n) t ≡ false
begins-no_letter c n String.[] l h = refl
begins-no_letter c n (String.◌∷◌ d t) l h = ground arith

pub contains-no_letter :
    (c : Char) (n t : String)
    → is_letter (code c) ≡ true
    → has_letter t ≡ false
    → contains (String.◌∷◌ c n) t ≡ false
contains-no_letter c n String.[] l h = refl
contains-no_letter c n (String.◌∷◌ d t) l h =
    ground (arith, begins-no_letter c n (String.◌∷◌ d t) l h, contains-no_letter c n t l)

pub has-append : (x : ℕ) (s t : String) → has x (append s t) ≡ (has x s || has x t)
has-append x String.[] t = refl
has-append x (String.◌∷◌ c s) t = ground (arith, has-append x s t)
