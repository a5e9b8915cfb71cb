-- ===== src/CommandLine.antt =====
-- src/helpers/helpers.cpp: `parse_argv`. What `getopt_long` returns, a character and its argument, is
-- taken as a list, which ends where it returns a negative number.
use autopilot_manager.Common.{
  ℕ, ◌+◌, ◌-◌, ◌%◌, ◌^◌, String, Bool, true, false, Option, none, some, List, [], ◌∷◌, ℤ, pos,
  negsuc, pos_part, neg_part, magnitude, to_u32, ◌==◌, if◌then◌else◌, atoi,
}
pub mod LastWins

pub record Opt : Type 0 where
  pub c : ℕ
  pub optarg : String

-- The variables of `main` that the options set.
pub record CommandLine : Type 0 where
  pub mavlink_port : ℕ
  pub path_to_apm_config_file : String
  pub path_to_custom_action_config_file : String

-- `main` goes on, or the process exits with a status.
pub data Parsed : Type 0 where
  exits : ℤ → Parsed
  parsed : CommandLine → Parsed

abbrev pub set_port : Option ℤ → Bool → CommandLine → Option (Bool × CommandLine)
set_port none invalid l = none
set_port (some z) invalid l =
    some (if magnitude z == 0 then (true, l) else (invalid, record l { mavlink_port = to_u32 z }))

-- The cases of the switch but that of `h`, on whether an argument was invalid and the variables; `none`
-- where `atoi` is undefined.
unfoldable pub read_option : Opt → Bool → CommandLine → Option (Bool × CommandLine)
read_option o invalid l =
    if o.c == b'a'
    then some (invalid, record l { path_to_custom_action_config_file = o.optarg })
    else if o.c == b'c'
    then some (invalid, record l { path_to_apm_config_file = o.optarg })
    else if o.c == b'm'
    then set_port (atoi o.optarg) invalid l
    else some (invalid, l)

-- The loop, and the test after it.
unfoldable pub parse_options : List Opt → Bool → CommandLine → Option Parsed
parse_options [] invalid l = some (if invalid then Parsed.exits (negsuc 0) else Parsed.parsed l)
parse_options (o ∷ options) invalid l = elim (o.c == b'h') [
  | true ↦ some (Parsed.exits (pos 0))
  | false ↦ elim (read_option o invalid l) [ none ↦ none | some (i, n) ↦ parse_options options i n ]
]

unfoldable pub parse_argv : List Opt → CommandLine → Option Parsed
parse_argv options l = parse_options options false l
