-- ===== src/Operator/AppService/EnvVars.antt =====
-- The environment of a container (`EnvVarManager` of tembo-operator/src/app_service/manager.rs): a
-- vector in the order in which its keys came, and a map from the keys to their indexes.
pub mod Refined
pub mod Values
use tembo.Prelude.{
  ℕ, String, zero, suc, Option, none, some, List, [], ◌∷◌, ◌++◌, length, cons_to, ◌==◌,
  if◌then◌else◌,
}
use tembo.Prelude.BTreeMap
use tembo.Prelude.BTreeMap.{BTreeMap}
use tembo.Operator.Types.AppServices.{EnvVar}

pub record EnvVarManager : Type 0 where
  pub vars : List EnvVar
  pub lookup : BTreeMap ℕ

abbrev pub new : EnvVarManager
new = record { vars = []; lookup = [] }

-- `xs[index] = x`, which panics where there is no such element.
unfoldable pub write_at {ℓ} : {A : Type ℓ} → ℕ → A → List A → Option (List A)
write_at n x [] = none
write_at zero x (y ∷ ys) = some (x ∷ ys)
write_at (suc n) x (y ∷ ys) = cons_to y (write_at n x ys)

abbrev pub with_vars : BTreeMap ℕ → Option (List EnvVar) → Option EnvVarManager
with_vars lookup none = none
with_vars lookup (some vars) = some (record { vars = vars; lookup = lookup })

abbrev pub set_at : String → EnvVar → EnvVarManager → Option ℕ → Option EnvVarManager
set_at key value m (some index) = with_vars m.lookup (write_at index value m.vars)
set_at key value m none =
    some (record {
      vars = m.vars ++ value ∷ [];
      lookup = BTreeMap.insert key (length m.vars) m.lookup;
    })

unfoldable pub set : String → EnvVar → EnvVarManager → Option EnvVarManager
set key value m = set_at key value m (BTreeMap.get key m.lookup)

abbrev pub Entries : Type 0
Entries = List (String × EnvVar)

-- One `set` after the other.
abbrev and_then {ℓ} : {A : Type ℓ} → Option A → (A → Option A) → Option A
and_then none f = none
and_then (some x) f = f x

unfoldable pub set_all : Entries → EnvVarManager → Option EnvVarManager
set_all [] m = some m
set_all (e ∷ es) m = and_then (set e.0 e.1 m) (set_all es)

-- What the manager stands for: a list of entries, where a known key keeps its place.
unfoldable pub put : String → EnvVar → Entries → Entries
put key value [] = (key, value) ∷ []
put key value ((k, v) ∷ es) =
    let rest = put key value es in if k == key then (k, value) ∷ es else (k, v) ∷ rest

unfoldable pub put_all : Entries → Entries → Entries
put_all [] es = es
put_all (d ∷ ds) es = put_all ds (put d.0 d.1 es)
