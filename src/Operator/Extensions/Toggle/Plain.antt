-- ===== src/Operator/Extensions/Toggle/Plain.antt =====
-- No text that could end a name stands in the names of a command
-- (tembo-operator/src/extensions/types.rs and database_queries.rs).
use Prim.Native.Char.{code}
use mathlib.Core.Path.{subst}
use tembo.Prelude.{
  String, ◌≡◌, refl, sym, Bool, true, false, not, ◌&&◌, Option, none, some, [], ◌∷◌, All, arith,
  if-holds, if◌then◌else◌,
}
use tembo.Prelude.Result.{Result, ok, err}
use tembo.Prelude.Trace.{fail, call, lift, ◌>>=◌}
use tembo.Operator.Types.{ExtensionInstallLocation}
use tembo.Operator.Api.{Action}
use tembo.Operator.Extensions.Toggle.Command.{
  is_alphanumeric, is_word, matches_rest, check_input, is_malformed, enable_cmd,
  generate_extension_enable_cmd, ToggleError, PsqlOutput, Psql, psql, described, or_action, toggled,
  run_command, toggle_extension,
}

-- Nothing but letters, digits, hyphens and underscores.
abbrev pub IsPlain : String → Type 0
IsPlain String.[] = Unit
IsPlain (String.◌∷◌ c s) = (is_word (code c) ≡ true) × IsPlain s

-- The name of the schema, if there is one.
abbrev pub IsPlainIfAny : Option String → Type 0
IsPlainIfAny none = Unit
IsPlainIfAny (some schema) = IsPlain schema

matches_rest-IsPlain : (s : String) → matches_rest s ≡ true → IsPlain s
unfolding matches_rest is_word
matches_rest-IsPlain String.[] h = tt
matches_rest-IsPlain (String.◌∷◌ c String.[]) h = (ground arith, tt)
matches_rest-IsPlain (String.◌∷◌ c (String.◌∷◌ d s)) h =
    (ground arith, matches_rest-IsPlain (String.◌∷◌ d s) (ground arith))

check_input-IsPlain : (s : String) → check_input s ≡ true → IsPlain s
unfolding check_input is_word is_alphanumeric
check_input-IsPlain String.[] h = tt
check_input-IsPlain (String.◌∷◌ c s) h = (ground arith, matches_rest-IsPlain s (ground arith))

well_formed-IsPlainIfAny : (o : Option String) → is_malformed o ≡ false → IsPlainIfAny o
well_formed-IsPlainIfAny none h = tt
well_formed-IsPlainIfAny (some schema) h = check_input-IsPlain schema (ground arith)

module _ (answer : Psql → Result Action PsqlOutput) where
  asked_once :
      (asked : Psql) (res : Result ToggleError PsqlOutput)
      → (call asked res >>= λ output. lift (toggled output)).0 ≡ asked ∷ []
  asked_once asked (ok output) = refl
  asked_once asked (err problem) = refl

  guarded :
      (name_ok database_ok malformed : Bool) (database command message : String)
      (bad_name bad_database : ToggleError)
      → (if not name_ok
          then fail bad_name
          else if not database_ok
          then fail bad_database
          else (lift (described (if malformed then err message else ok command))
              >>= run_command answer database)).0
        ≡ (if name_ok && database_ok && not malformed then psql command database ∷ [] else [])
  guarded false database_ok malformed database command message bad_name bad_database = refl
  guarded true false malformed database command message bad_name bad_database = refl
  guarded true true true database command message bad_name bad_database = refl
  guarded true true false database command message bad_name bad_database =
      asked_once (psql command database) (or_action (answer (psql command database)))

-- The names that a command has been given are plain.
abbrev pub HasPlainNames : String → ExtensionInstallLocation → Psql → Type 0
HasPlainNames name loc asked = IsPlain name × IsPlain loc.database × IsPlainIfAny loc.schema

-- The names are formatted as `check_input` asks.
abbrev pub is_formatted : String → ExtensionInstallLocation → Bool
is_formatted name loc =
    check_input name && check_input loc.database && not (is_malformed loc.schema)

formatted-HasPlainNames :
    (name : String) (loc : ExtensionInstallLocation) (asked : Psql)
    → is_formatted name loc ≡ true
    → HasPlainNames name loc asked
formatted-HasPlainNames name loc asked h = (
  check_input-IsPlain name (ground arith),
  check_input-IsPlain loc.database (ground arith),
  well_formed-IsPlainIfAny loc.schema (ground arith),
)

-- Whatever the database answers, an extension is switched by one command, the one for its name and
-- its location, in the location's database, if the name, the database and the schema that may be
-- given are well formatted, and by none otherwise; and in a command that is sent these three names
-- have letters, digits, hyphens and underscores only.
pub toggle_extension-HasPlainNames :
    (answer : Psql → Result Action PsqlOutput) (name : String) (loc : ExtensionInstallLocation)
    → ((toggle_extension answer name loc).0
        ≡ (if is_formatted name loc then psql (enable_cmd name loc) loc.database ∷ [] else []))
      × All (HasPlainNames name loc) (toggle_extension answer name loc).0
unfolding toggle_extension generate_extension_enable_cmd
toggle_extension-HasPlainNames answer name loc =
    let calls =
      guarded answer (check_input name) (check_input loc.database) (is_malformed loc.schema)
        loc.database (enable_cmd name loc) _ _ _ in
    (
      calls,
      subst (All (HasPlainNames name loc)) (sym calls) (
          if-holds (All (HasPlainNames name loc)) (is_formatted name loc) _ []
            (λ h.
              (formatted-HasPlainNames name loc (psql (enable_cmd name loc) loc.database) h, tt))
            (λ _. tt)),
    )
