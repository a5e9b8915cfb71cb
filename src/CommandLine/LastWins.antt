-- ===== src/CommandLine/LastWins.antt =====
-- What the command line sets (src/helpers/helpers.cpp, `parse_argv`).
use autopilot_manager.Common.{
  to_u32, ℕ, ◌≡◌, refl, sym, ap, ◌∙◌, ◌⊎◌, inl, inr, String, Bool, true, false, not, ◌&&◌, ◌||◌,
  Option, none, some, List, [], ◌∷◌, ◌++◌, ℤ, pos, negsuc, magnitude, ◌==◌, arith, if◌then◌else◌,
  atoi, append-nil,
}
use autopilot_manager.CommandLine.{Opt, CommandLine, Parsed, read_option, parse_options, parse_argv}

-- The argument of the last option with a character.
abbrev pub last_arg : ℕ → List Opt → Option String
last_arg c [] = none
last_arg c (o ∷ options) = elim (last_arg c options) [
  | some a ↦ some a
  | none ↦ if o.c == c then some o.optarg else none
]

abbrev pub is_port : Option ℤ → Bool
is_port none = false
is_port (some z) = not (magnitude z == 0)

abbrev pub is_zero : Option ℤ → Bool
is_zero none = false
is_zero (some z) = magnitude z == 0

abbrev port_of : Option ℤ → Option ℕ
port_of none = none
port_of (some z) = if magnitude z == 0 then none else some (to_u32 z)

-- The port of the last option `m` that has one.
abbrev pub last_port : List Opt → Option ℕ
last_port [] = none
last_port (o ∷ options) = elim (last_port options) [
  | some p ↦ some p
  | none ↦ if o.c == b'm' then port_of (atoi o.optarg) else none
]

-- Some option `m` has the port 0 or none.
abbrev pub any_zero_port : List Opt → Bool
any_zero_port [] = false
any_zero_port (o ∷ options) = (o.c == b'm' && is_zero (atoi o.optarg)) || any_zero_port options

abbrev pub is_defined : Option ℤ → Bool
is_defined none = false
is_defined (some _) = true

-- No option asks for help, and every port is an `int` or no number.
abbrev pub is_plain : Opt → Bool
is_plain o = not (o.c == b'h') && (not (o.c == b'm') || is_defined (atoi o.optarg))

abbrev pub all_plain : List Opt → Bool
all_plain [] = true
all_plain (o ∷ options) = is_plain o && all_plain options

abbrev pub or_else {ℓ} : {A : Type ℓ} → Option A → A → A
or_else none a = a
or_else (some b) a = b

abbrev pub last_values : List Opt → CommandLine → CommandLine
last_values options l = record {
  mavlink_port = or_else (last_port options) l.mavlink_port;
  path_to_apm_config_file = or_else (last_arg b'c' options) l.path_to_apm_config_file;
  path_to_custom_action_config_file =
      or_else (last_arg b'a' options) l.path_to_custom_action_config_file;
}

abbrev pub ended : Bool → CommandLine → Parsed
ended invalid l = if invalid then Parsed.exits (negsuc 0) else Parsed.parsed l

option_cases {ℓ} : {A : Type ℓ} (a : Option A) → (a ≡ none) ⊎ ((x : A) × (a ≡ some x))
option_cases none = inl refl
option_cases (some x) = inr (x, refl)

read_option_lem :
    (o : Opt) (invalid : Bool) (l : CommandLine)
    → is_plain o ≡ true
    → (o.c == b'h' ≡ false)
      × (read_option o invalid l ≡ some (invalid || any_zero_port (o ∷ []), last_values (o ∷ []) l))
unfolding read_option
read_option_lem o invalid l h = elim (option_cases (atoi o.optarg)) [
  | inl none_read ↦ ground (arith, none_read)
  | inr (z, read) ↦ ground (arith, read)
]

any_zero_port_cons :
    (invalid : Bool) (o : Opt) (options : List Opt)
    → (invalid || any_zero_port (o ∷ [])) || any_zero_port options
      ≡ invalid || any_zero_port (o ∷ options)
any_zero_port_cons invalid o options = ground arith

last_values_cons :
    (o : Opt) (options : List Opt) (l : CommandLine)
    → last_values options (last_values (o ∷ []) l) ≡ last_values (o ∷ options) l
last_values_cons o options l = ground arith

both : (a b : Bool) → a && b ≡ true → (a ≡ true) × (b ≡ true)
both a b h = (ground arith, ground arith)

parse_step :
    (o : Opt) (options : List Opt) (invalid i : Bool) (l n : CommandLine)
    → o.c == b'h' ≡ false
    → read_option o invalid l ≡ some (i, n)
    → parse_options (o ∷ options) invalid l ≡ parse_options options i n
unfolding parse_options
parse_step o options invalid i l n a b = ground arith

-- The options with nothing that asks for help, in front of further options.
parse_plain :
    (before options : List Opt) (invalid : Bool) (l : CommandLine)
    → all_plain before ≡ true
    → parse_options (before ++ options) invalid l
      ≡ parse_options options (invalid || any_zero_port before) (last_values before l)
parse_plain [] options invalid l h = ground arith
parse_plain (o ∷ before) options invalid l h =
    let (here, rest) = both (is_plain o) (all_plain before) h in
    let i = invalid || any_zero_port (o ∷ []) in
    let n = last_values (o ∷ []) l in
    let (no_help, read) = read_option_lem o invalid l here in
    parse_step o (before ++ options) invalid i l n no_help read
    ∙ parse_plain before options i n rest
    ∙ ap (λ b. parse_options options b (last_values before n)) (any_zero_port_cons invalid o before)
    ∙ ap (parse_options options (invalid || any_zero_port (o ∷ before)))
        (last_values_cons o before l)

-- If no option asks for help and every port is an `int` or no number, then the process exits with -1
-- if the port of some option `m` is 0 or no number, and otherwise each variable has the argument of the
-- last option for it, or its value from before without one, whatever the order of the options. An
-- option `h` behind such options makes the process exit with 0, whatever they and those after it are.
pub parse_argv_by_last :
    (options after : List Opt) (l : CommandLine)
    → all_plain options ≡ true
    → (parse_argv options l
        ≡ some (
            if any_zero_port options
            then Parsed.exits (negsuc 0)
            else Parsed.parsed (last_values options l)))
      × ((help : String)
          → parse_argv (options ++ record { c = b'h'; optarg = help } ∷ after) l
            ≡ some (Parsed.exits (pos 0)))
unfolding parse_argv parse_options
parse_argv_by_last options after l h = (
  ap (λ os. parse_options os false l) (sym (append-nil options)) ∙ parse_plain options [] false l h,
  λ help. parse_plain options (record { c = b'h'; optarg = help } ∷ after) false l h,
)
