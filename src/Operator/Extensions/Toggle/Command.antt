-- ===== src/Operator/Extensions/Toggle/Command.antt =====
-- The commands that switch an extension on or off in a database
-- (tembo-operator/src/extensions/types.rs and database_queries.rs).
use Prim.Native.Char.{code}
use Prim.Native.String
use tembo.Prelude.{
  ℕ, String, Bool, false, not, ◌&&◌, ◌||◌, Option, none, some, leb, nat_eq, unwrap_or,
  if◌then◌else◌, ◌==◌,
}
use tembo.Prelude.Result.{Result, ok, err}
use tembo.Prelude.Trace.{Trace, fail, call, lift, ◌>>=◌}
use tembo.Operator.Types.{ExtensionInstallLocation}
use tembo.Operator.Api.{Action}

-- `[a-zA-Z]`
unfoldable pub is_letter : ℕ → Bool
is_letter c = (leb 97 c && leb c 122) || (leb 65 c && leb c 90)

-- `[a-zA-Z0-9]`
unfoldable pub is_alphanumeric : ℕ → Bool
unfolding is_letter
is_alphanumeric c = is_letter c || (leb 48 c && leb c 57)

-- `[a-zA-Z0-9]` or `[-_]`
unfoldable pub is_word : ℕ → Bool
unfolding is_alphanumeric
is_word c = is_alphanumeric c || nat_eq c 45 || nat_eq c 95

-- What stands behind the first letter: `([a-zA-Z0-9]*[-_]?)*[a-zA-Z0-9]+$`.
unfoldable pub matches_rest : String → Bool
unfolding is_word
matches_rest String.[] = false
matches_rest (String.◌∷◌ c String.[]) = is_alphanumeric (code c)
matches_rest (String.◌∷◌ c (String.◌∷◌ d s)) = is_word (code c) && matches_rest (String.◌∷◌ d s)

unfoldable pub check_input : String → Bool
check_input String.[] = false
check_input (String.◌∷◌ c s) = is_letter (code c) && matches_rest s

-- `EXTRA_COMMANDS_TO_ENABLE_EXTENSION`, an empty text where it has no entry.
unfoldable pub command_suffix : String → String
command_suffix ext_name = if ext_name == "pg_cron" then "UPDATE cron.job SET nodename = '';" else ""

abbrev pub is_malformed : Option String → Bool
is_malformed none = false
is_malformed (some schema) = not (check_input schema)

abbrev pub schema_clause : Option String → String
schema_clause none = ""
schema_clause (some schema) = String.◌++◌ " SCHEMA " schema

abbrev pub quoted : String → String
quoted text = String.◌++◌ "\"" (String.◌++◌ text "\"")

unfoldable pub enable_cmd : String → ExtensionInstallLocation → String
unfolding command_suffix
enable_cmd ext_name ext_loc =
    if ext_loc.enabled
    then String.◌++◌ "CREATE EXTENSION IF NOT EXISTS " (
        String.◌++◌ (quoted ext_name) (
          String.◌++◌ (schema_clause ext_loc.schema)
            (String.◌++◌ " CASCADE;" (command_suffix ext_name))))
    else String.◌++◌ "DROP EXTENSION IF EXISTS " (String.◌++◌ (quoted ext_name) " CASCADE;")

unfoldable pub generate_extension_enable_cmd :
    String → ExtensionInstallLocation → Result String String
generate_extension_enable_cmd ext_name ext_loc =
    if is_malformed ext_loc.schema
    then err "Schema name is not formatted properly"
    else ok (enable_cmd ext_name ext_loc)

pub data ToggleError : Type 0 where
  with_description : (message : String) → ToggleError
  with_action : Action → ToggleError

pub record PsqlOutput : Type 0 where
  pub stdout : Option String
  pub stderr : Option String
  pub success : Bool

pub data Psql : Type 0 where
  psql : (command database : String) → Psql

abbrev pub described : Result String String → Result ToggleError String
described (ok command) = ok command
described (err message) = err (with_description message)

abbrev pub or_action : Result Action PsqlOutput → Result ToggleError PsqlOutput
or_action (ok output) = ok output
or_action (err action) = err (with_action action)

abbrev pub no_output : String
no_output =
    "Failed to enable extension, and found no output. Please try again. If this issue persists, contact support."

abbrev pub toggled : PsqlOutput → Result ToggleError (Unit {0})
toggled output =
    if output.success then ok tt else err (with_description (unwrap_or no_output output.stderr))

-- The command is run, and its answer is looked at.
abbrev pub run_command :
    (Psql → Result Action PsqlOutput) → String → String → Trace Psql ToggleError (Unit {0})
run_command answer database command =
    call (psql command database) (or_action (answer (psql command database))) >>= λ output.
    lift (toggled output)

-- The first argument is what the database answers.
unfoldable pub toggle_extension :
    (Psql → Result Action PsqlOutput)
    → String
    → ExtensionInstallLocation
    → Trace Psql ToggleError (Unit {0})
toggle_extension answer ext_name ext_loc =
    if not (check_input ext_name)
    then fail (with_description "Extension name is not formatted properly")
    else if not (check_input ext_loc.database)
    then fail (with_description "Database name is not formatted properly")
    else (lift (described (generate_extension_enable_cmd ext_name ext_loc))
        >>= run_command answer ext_loc.database)
