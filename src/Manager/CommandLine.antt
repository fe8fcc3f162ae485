-- ===== src/Manager/CommandLine.antt =====
-- cmd/main.go: flag.Parse, which reads the flags off the command line.
pub mod RoundTrip
pub mod Untouched
pub mod Defaults
use Prim.Native.Char.{code}
use Prim.Native.String.{[], ◌∷◌}
use opensearch_dataprepper_k.Common.{
  ℕ, String, Bool, true, false, ◌||◌, Option, none, some, List, [], ◌∷◌, ◌==◌, nat_eq,
  if◌then◌else◌,
}
use opensearch_dataprepper_k.Manager.Flags.{
  Options, defaults, Variable, text, boolean, find_variable,
}

-- A flag that a library registers: zap.Options.BindFlags, and client-go's kubeconfig.
pub record LibraryFlag : Type 0 where
  pub is_bool_flag : Bool
  pub accepts : String → Bool

-- strconv.ParseBool
unfoldable pub parse_bool : String → Option Bool
parse_bool s =
    if s == "1" || s == "t" || s == "T" || s == "true" || s == "TRUE" || s == "True"
    then some true
    else if s == "0" || s == "f" || s == "F" || s == "false" || s == "FALSE" || s == "False"
    then some false
    else none

-- One argument of the command line, as flag.FlagSet.parseOne reads it.
pub data Argument : Type 0 where
  -- not a flag, or `--`: what follows is left unread
  end_of_flags : Argument
  bad_syntax : Argument
  -- `-name`, and `-name=value`
  bare : String → Argument
  assigned : String → String → Argument

is_dash : ℕ → Bool
is_dash c = nat_eq c 45

is_equals : ℕ → Bool
is_equals c = nat_eq c 61

-- The first `=` parts the name from the value.
cut_name : String → Argument
cut_name [] = bare []
cut_name (c ∷ s) =
    let rest = cut_name s in
    if is_equals (code c) then assigned [] s else elim rest [
      | end_of_flags ↦ end_of_flags
      | bad_syntax ↦ bad_syntax
      | bare name ↦ bare (c ∷ name)
      | assigned name value ↦ assigned (c ∷ name) value
    ]

named : String → Argument
named [] = bad_syntax
named (c ∷ s) = if is_dash (code c) || is_equals (code c) then bad_syntax else cut_name (c ∷ s)

after_dash : String → Argument
after_dash [] = end_of_flags
after_dash (c ∷ s) =
    if is_dash (code c) then if s == "" then end_of_flags else named s else named (c ∷ s)

unfoldable pub read_argument : String → Argument
unfolding cut_name named after_dash is_dash is_equals
read_argument [] = end_of_flags
read_argument (c ∷ s) = if is_dash (code c) then after_dash s else end_of_flags

-- flag.CommandLine exits with status 2 on an error, and with 0 when asked for help.
pub data Parsed : Type 0 where
  parsed : Options → Parsed
  usage_error : Parsed
  help : Parsed

-- Whether the argument that comes is the value of the flag before it.
pub data Pending : Type 0 where
  ready : Pending
  value_of : (String → Options → Options) → Pending
  library_value_of : LibraryFlag → Pending

-- What one argument does: parsing goes on, or ends.
pub data Progress : Type 0 where
  go_on : Pending → Options → Progress
  finish : Parsed → Progress

unfoldable pub store_boolean : (Bool → Options → Options) → Option Bool → Options → Progress
store_boolean store none o = finish usage_error
store_boolean store (some b) o = go_on ready (store b o)

unfoldable pub set_boolean : (Bool → Options → Options) → String → Options → Progress
unfolding parse_bool store_boolean
set_boolean store value o = store_boolean store (parse_bool value) o

unfoldable pub set_library : LibraryFlag → String → Options → Progress
set_library flag value o = if flag.accepts value then go_on ready o else finish usage_error

unfoldable pub undefined_flag : String → Progress
undefined_flag name = if name == "help" || name == "h" then finish help else finish usage_error

-- A flag without a value, once it has been looked up.
unfoldable pub bare_library : Option LibraryFlag → String → Options → Progress
unfolding set_library undefined_flag
bare_library none name o = undefined_flag name
bare_library (some flag) name o =
    if flag.is_bool_flag then set_library flag "true" o else go_on (library_value_of flag) o

-- A flag with a value, once it has been looked up.
unfoldable pub assigned_library : Option LibraryFlag → String → String → Options → Progress
unfolding set_library undefined_flag
assigned_library none name value o = undefined_flag name
assigned_library (some flag) name value o = set_library flag value o

-- What is parsed if no argument is left.
unfoldable pub at_end : Pending → Options → Parsed
at_end ready o = parsed o
at_end (value_of _) o = usage_error
at_end (library_value_of _) o = usage_error

module _ (library : String → Option LibraryFlag) where
  unfoldable pub bare_variable : Option Variable → String → Options → Progress
  unfolding set_boolean bare_library
  bare_variable none name o = bare_library (library name) name o
  bare_variable (some (text store)) name o = go_on (value_of store) o
  bare_variable (some (boolean store)) name o = set_boolean store "true" o

  unfoldable pub assigned_variable : Option Variable → String → String → Options → Progress
  unfolding set_boolean assigned_library
  assigned_variable none name value o = assigned_library (library name) name value o
  assigned_variable (some (text store)) name value o = go_on ready (store value o)
  assigned_variable (some (boolean store)) name value o = set_boolean store value o

  unfoldable pub take_argument : Argument → Options → Progress
  unfolding bare_variable assigned_variable
  take_argument end_of_flags o = finish (parsed o)
  take_argument bad_syntax o = finish usage_error
  take_argument (bare name) o = bare_variable (find_variable name) name o
  take_argument (assigned name value) o = assigned_variable (find_variable name) name value o

  unfoldable pub step : Pending → String → Options → Progress
  unfolding take_argument read_argument
  step ready arg o = take_argument (read_argument arg) o
  step (value_of store) arg o = go_on ready (store arg o)
  step (library_value_of flag) arg o = set_library flag arg o

  unfoldable pub parse_loop : Pending → List String → Options → Parsed
  unfolding step at_end
  parse_loop p [] o = at_end p o
  parse_loop p (arg ∷ args) o = elim (step p arg o) [
    | go_on q o' ↦ parse_loop q args o'
    | finish result ↦ result
  ]

  unfoldable pub parse : List String → Parsed
  unfolding parse_loop
  parse args = parse_loop ready args defaults
