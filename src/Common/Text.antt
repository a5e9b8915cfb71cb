-- ===== src/Common/Text.antt =====
-- The standard library's functions on text that the code calls, over the characters of a text:
-- `std::string::find`, `substr`, `std::getline`, `std::stoi` and `std::to_string` of an `int`.
use Prim.Native.Char.{Char, code}
use Prim.Native.Nat.{ℕ, zero, suc, ◌+◌, ◌-◌, ◌*◌, ◌/◌, ◌%◌, ◌^◌}
use Prim.Native.String.{String}
use mathlib.Core.Bool.{Bool, true, false, ◌&&◌, ◌||◌}
use mathlib.Core.Option.{Option, none, some}
use mathlib.Core.List.{List, [], ◌∷◌}
use autopilot_manager.Common.Tests.{ltb, leb, ◌==◌, if◌then◌else◌}
use autopilot_manager.Common.Int.{ℤ, pos, negsuc, sub_ℕ, pos_part, neg_part}

abbrev pub append : String → String → String
append String.[] t = t
append (String.◌∷◌ c s) t = String.◌∷◌ c (append s t)

abbrev pub begins : String → String → Bool
begins String.[] t = true
begins (String.◌∷◌ c s) String.[] = false
begins (String.◌∷◌ c s) (String.◌∷◌ d t) = code c == code d && begins s t

-- `t.find(s) != std::string::npos`
abbrev pub contains : String → String → Bool
contains s String.[] = begins s String.[]
contains s (String.◌∷◌ d t) = begins s (String.◌∷◌ d t) || contains s t

-- What follows the first `=`.
abbrev pub after_equals : String → Option String
after_equals String.[] = none
after_equals (String.◌∷◌ c s) = if code c == b'=' then some s else after_equals s

-- A line in front of the lines that follow it.
abbrev push : Char → List String → List String
push c [] = String.◌∷◌ c String.[] ∷ []
push c (l ∷ ls) = String.◌∷◌ c l ∷ ls

-- What `std::getline` reads until it fails.
abbrev pub lines : String → List String
lines String.[] = []
lines (String.◌∷◌ c s) =
    let rest = lines s in if code c == b'\n' then String.[] ∷ rest else push c rest

abbrev pub is_digit : ℕ → Bool
is_digit c = leb b'0' c && leb c b'9'

abbrev pub is_space : ℕ → Bool
is_space c = c == b' ' || (leb 9 c && leb c 13)

abbrev skip_spaces : String → String
skip_spaces String.[] = String.[]
skip_spaces (String.◌∷◌ c s) =
    let rest = skip_spaces s in if is_space (code c) then rest else String.◌∷◌ c s

-- The number that the leading digits continue `n` to.
abbrev pub digits_from : ℕ → String → ℕ
digits_from n String.[] = n
digits_from n (String.◌∷◌ c s) =
    let more = digits_from (n * 10 + (code c - b'0')) s in if is_digit (code c) then more else n

abbrev pub starts_number : String → Bool
starts_number String.[] = false
starts_number (String.◌∷◌ c s) = is_digit (code c)

abbrev unsigned : (ℕ → ℤ) → String → Option ℤ
unsigned sign s = if starts_number s then some (sign (digits_from 0 s)) else none

abbrev pub minus : ℕ → ℤ
minus n = sub_ℕ 0 n

abbrev signed : String → Option ℤ
signed String.[] = none
signed (String.◌∷◌ c s) =
    if code c == b'-'
    then unsigned minus s
    else if code c == b'+'
    then unsigned pos s
    else unsigned pos (String.◌∷◌ c s)

-- `strtol` to base 10: `none` where there is no number.
abbrev pub read_int : String → Option ℤ
read_int s = signed (skip_spaces s)

abbrev pub is_int : ℤ → Bool
is_int z = ltb (pos_part z) (2 ^ 31) && leb (neg_part z) (2 ^ 31)

abbrev in_range : Option ℤ → Option ℤ
in_range none = none
in_range (some z) = if is_int z then some z else none

-- `atoi`: 0 where there is no number, `none` where the number is no `int`, which is undefined.
unfoldable pub atoi : String → Option ℤ
atoi s = elim (read_int s) [ none ↦ some (pos 0) | some z ↦ in_range (some z) ]

-- `none` where `std::stoi` throws.
abbrev pub stoi : String → Option ℤ
stoi s = in_range (read_int s)

abbrev pub digit : ℕ → Char
digit zero = "0"
digit (suc zero) = "1"
digit (suc (suc zero)) = "2"
digit (suc (suc (suc zero))) = "3"
digit (suc (suc (suc (suc zero)))) = "4"
digit (suc (suc (suc (suc (suc zero))))) = "5"
digit (suc (suc (suc (suc (suc (suc zero)))))) = "6"
digit (suc (suc (suc (suc (suc (suc (suc zero))))))) = "7"
digit (suc (suc (suc (suc (suc (suc (suc (suc zero)))))))) = "8"
digit (suc (suc (suc (suc (suc (suc (suc (suc (suc _))))))))) = "9"

-- The digits of `n` in front of a text; the fuel is above `n`.
abbrev pub show_digits : ℕ → ℕ → String → String
show_digits zero n s = s
show_digits (suc fuel) n s =
    let more = show_digits fuel (n / 10) (String.◌∷◌ (digit (n % 10)) s) in
    if ltb n 10 then String.◌∷◌ (digit n) s else more

-- `std::to_string` of an integer
unfoldable pub show_int : ℤ → String
show_int (pos n) = show_digits (suc n) n ""
show_int (negsuc n) = String.◌∷◌ "-" (show_digits (suc (suc n)) (suc n) "")

abbrev pub is_letter : ℕ → Bool
is_letter c = leb b'a' c && leb c b'z'

abbrev pub has_letter : String → Bool
has_letter String.[] = false
has_letter (String.◌∷◌ c s) = is_letter (code c) || has_letter s

-- The text has the character with this number.
abbrev pub has : ℕ → String → Bool
has x String.[] = false
has x (String.◌∷◌ c s) = code c == x || has x s
