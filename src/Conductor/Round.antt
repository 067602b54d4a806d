-- ===== src/Conductor/Round.antt =====
-- One round of the conductor's loop as a computation: the calls it makes, in order, and how it
-- ends. What a call answers is given by the world, a parameter: these are calls of the queue, the
-- database, the cluster and the cloud (conductor/src/lib.rs, pgmq and sqlx).
use tembo.Prelude.{ℕ, String, Option, List, [], ◌∷◌, ◌++◌}
use tembo.Prelude.Result.{Result, ok, err}
use tembo.Operator.Types.{CoreDb, CoreDbSpec}
use tembo.Conductor.Types.{StateToControlPlane, ConnectionInfo, ConductorError, CloudProvider}

-- What `generate_spec` is called with.
pub record SpecRequest : Type 0 where
  pub org_id : String
  pub stack_type : String
  pub inst_id : String
  pub data_plane_id : String
  pub namespace : String
  pub backup_archive_bucket : String
  pub azure_storage_account : Option String
  pub coredb_spec : CoreDbSpec
  pub cloud_provider : CloudProvider

pub data Effect : Type 0 where
  archive : (msg_id : ℕ) → Effect
  set_vt : (msg_id seconds : ℕ) → Effect
  send : StateToControlPlane → Effect
  select_deleted insert_deleted : (namespace : String) → Effect
  add_total add_errors add_completed : Effect
  add_requeues : (queue_duration : String) → Effect
  create_cloudformation : (namespace : String) (read_path write_path : Option String) → Effect
  lookup_role_arn delete_cloudformation : (namespace : String) → Effect
  create_gcp_binding delete_gcp_binding : (namespace : String) → Effect
  create_azure_binding delete_azure_binding : (namespace : String) → Effect
  create_namespace : (namespace org_id inst_id : String) → Effect
  generate_spec : SpecRequest → Effect
  create_or_update : (namespace value : String) → Effect
  get_pg_conn : (namespace : String) → CoreDbSpec → Effect
  get_one get_coredb_error_without_status : (namespace : String) → Effect
  delete_coredb delete_namespace : (namespace : String) → Effect
  restart_coredb : (namespace : String) (msg_enqueued_at : ℕ) → Effect

abbrev pub Answer {a} : Type a → Type a
Answer A = Result ConductorError A

-- What the calls answer. A generated specification is the text of its JSON value.
pub record World : Type 0 where
  pub archive : ℕ → Answer (Unit {0})
  pub set_vt : ℕ → ℕ → Answer (Unit {0})
  pub send : StateToControlPlane → Answer ℕ
  pub select_deleted : String → Answer (Option String)
  pub insert_deleted : String → Answer (Unit {0})
  pub create_cloudformation : String → Option String → Option String → Answer (Unit {0})
  pub lookup_role_arn : String → Answer String
  pub delete_cloudformation : String → Answer (Unit {0})
  pub create_gcp_binding : String → Answer (Unit {0})
  pub delete_gcp_binding : String → Answer (Unit {0})
  pub create_azure_binding : String → Answer String
  pub delete_azure_binding : String → Answer (Unit {0})
  pub create_namespace : String → String → String → Answer (Unit {0})
  pub generate_spec : SpecRequest → Answer String
  pub create_or_update : String → String → Answer (Unit {0})
  pub get_pg_conn : String → CoreDbSpec → Answer ConnectionInfo
  pub get_one : String → Answer CoreDb
  pub get_coredb_error_without_status : String → Answer CoreDb
  pub delete_coredb : String → Answer (Unit {0})
  pub delete_namespace : String → Answer (Unit {0})
  pub restart_coredb : String → ℕ → Answer (Unit {0})
  -- `generate_cron_expression` hashes with the standard library's hasher.
  pub generate_cron_expression : String → String

-- How a round ends: with a value, by `continue`, or by `?`.
pub data Exit {a} (A : Type a) : Type a where
  done : A → Exit A
  continue : Exit A
  failed : ConductorError → Exit A

abbrev pub Round {a} : Type a → Type a
Round A = List Effect × Exit A

abbrev pub pure {a} : {A : Type a} → A → Round A
pure x = ([], done x)

-- `continue`
abbrev pub skip {a} : {A : Type a} → Round A
skip = ([], continue)

abbrev pub exit_of {a} : {A : Type a} → Answer A → Exit A
exit_of (ok x) = done x
exit_of (err e) = failed e

-- A call that `?` follows.
abbrev pub call {a} : {A : Type a} → Effect → Answer A → Round A
call e x = (e ∷ [], exit_of x)

-- A call whose answer is matched on.
abbrev pub attempt {a} : {A : Type a} → Effect → Answer A → Round (Answer A)
attempt e x = (e ∷ [], done x)

abbrev pub tell : Effect → Round (Unit {0})
tell e = (e ∷ [], done tt)

-- The answer of an operation that is itself written with `?`.
abbrev pub exit_caught {a} : {A : Type a} → Exit A → Exit (Answer A)
exit_caught (done x) = done (ok x)
exit_caught continue = continue
exit_caught (failed e) = done (err e)

abbrev pub catch {a} : {A : Type a} → Round A → Round (Answer A)
catch (es, x) = (es, exit_caught x)

module _ {a b} {A : Type a} {B : Type b} where
  infixl 5 ◌>>=◌
  abbrev pub ◌>>=◌ : Round A → (A → Round B) → Round B
  (es, done x) >>= f = (es ++ (f x).0, (f x).1)
  (es, continue) >>= f = (es, continue)
  (es, failed e) >>= f = (es, failed e)

module _ {b} {B : Type b} where
  infixl 5 ◌>>◌
  abbrev pub ◌>>◌ : Round (Unit {0}) → Round B → Round B
  m >> n = m >>= λ _. n
