-- ===== src/Conductor/Events.antt =====
-- What the loop does with a message, event by event (`run` in conductor/src/main.rs).
use tembo.Prelude.{◌≡◌, ℕ, String, Bool, true, false, ◌&&◌, Option, none, some, leb, if◌then◌else◌}
use tembo.Prelude.Result.{ok, err}
use tembo.Operator.Types.{CoreDbSpec, CoreDbStatus, Stack}
use tembo.Conductor.Types.{
  Event, create, created, error, update, updated, restart, restarted, stop, stop_complete, delete,
  deleted, start, started, restore, restored, Config, Message, StateToControlPlane, ConnectionInfo,
  no_outputs_found, postgres_connection_info_not_found, CloudProvider, azure, cloud_provider,
  is_delete, is_stop,
}
use tembo.Conductor.Round.{
  Round, World, Answer, SpecRequest, archive, set_vt, send, select_deleted, insert_deleted,
  add_total, add_errors, add_completed, add_requeues, delete_cloudformation, delete_gcp_binding,
  delete_azure_binding, create_namespace, generate_spec, create_or_update, get_pg_conn, get_one,
  get_coredb_error_without_status, delete_coredb, delete_namespace, restart_coredb, pure, skip,
  call, attempt, tell, catch, ◌>>=◌, ◌>>◌,
}
use tembo.Conductor.Cloud.{
  init_cloud_perms, init_gcp_storage_workload_identity, init_azure_storage_workload_identity,
  include_storage_configuration,
}

abbrev pub requeue_vt_sec_short : ℕ
requeue_vt_sec_short = 5

abbrev pub requeue_vt_sec_long : ℕ
requeue_vt_sec_long = 300

abbrev pub reply :
    Message
    → Event
    → Option CoreDbSpec
    → Option CoreDbStatus
    → Option ConnectionInfo
    → StateToControlPlane
reply read_msg event_type spec status connection = record {
  data_plane_id = read_msg.message.data_plane_id;
  event_type = event_type;
  org_id = read_msg.message.org_id;
  inst_id = read_msg.message.inst_id;
  spec = spec;
  status = status;
  connection = connection;
}

unfoldable pub requeue_short : World → Message → Round (Unit {0})
requeue_short world read_msg = do
  call (set_vt read_msg.msg_id requeue_vt_sec_short)
      (world.set_vt read_msg.msg_id requeue_vt_sec_short)
  tell (add_requeues "short")

-- A message whose namespace was deleted is archived, whether or not that succeeds.
abbrev pub after_select : World → ℕ → Answer (Option String) → Round (Unit {0})
after_select world msg_id (err e) = skip
after_select world msg_id (ok (some row)) = do
  attempt (archive msg_id) (world.archive msg_id) >>= λ _. skip
after_select world msg_id (ok none) = pure tt

unfoldable pub check_deleted : World → Message → Round (Unit {0})
check_deleted world read_msg =
    let namespace = read_msg.message.namespace in
    if is_delete read_msg.message.event_type
    then pure tt
    else attempt (select_deleted namespace) (world.select_deleted namespace)
      >>= after_select world read_msg.msg_id

-- A message that was read too often is archived, and the control plane is told.
unfoldable pub check_read_ct : World → Config → Message → Round (Unit {0})
check_read_ct world config read_msg =
    let error_event = reply read_msg error none none none in
    if leb config.max_read_ct read_msg.read_ct
    then (do
      call (archive read_msg.msg_id) (world.archive read_msg.msg_id)
      tell add_errors
      _ ← call (send error_event) (world.send error_event)
      skip)
    else pure tt

-- A create or update event must have a specification.
abbrev pub require_spec : World → ℕ → Option CoreDbSpec → Round CoreDbSpec
require_spec world msg_id none = do
  call (archive msg_id) (world.archive msg_id)
  tell add_errors
  skip
require_spec world msg_id (some spec) = pure spec

-- The match on the answer of `init_cloud_perms`.
abbrev pub after_cloud_perms : World → Message → Answer CoreDbSpec → Round CoreDbSpec
after_cloud_perms world read_msg (ok coredb_spec) = pure coredb_spec
after_cloud_perms world read_msg (err no_outputs_found) = do requeue_short world read_msg; skip
after_cloud_perms world read_msg (err _) = do
  call (set_vt read_msg.msg_id requeue_vt_sec_long)
      (world.set_vt read_msg.msg_id requeue_vt_sec_long)
  tell (add_requeues "long")
  skip

-- The match on the answer of `get_pg_conn`.
abbrev pub after_pg_conn : World → Message → Answer ConnectionInfo → Round ConnectionInfo
after_pg_conn world read_msg (ok conn_info) = pure conn_info
after_pg_conn world read_msg (err postgres_connection_info_not_found) = do
  requeue_short world read_msg
  skip
after_pg_conn world read_msg (err _) = do
  call (set_vt read_msg.msg_id requeue_vt_sec_long)
      (world.set_vt read_msg.msg_id requeue_vt_sec_long)
  tell add_errors
  skip

-- The specification that is applied: the cloud's part first, the storage after the namespace.
unfoldable pub prepare_spec : World → Config → Message → CoreDbSpec → Round CoreDbSpec
prepare_spec world config read_msg msg_spec = do
  perms ← catch (init_cloud_perms world config read_msg msg_spec)
  with_perms ← after_cloud_perms world read_msg perms
  with_gcs ← init_gcp_storage_workload_identity world config read_msg with_perms
  init_azure_storage_workload_identity world config read_msg with_gcs

abbrev pub stack_name : Option Stack → String
stack_name none = "NA"
stack_name (some stack) = stack.name

abbrev pub account_of : CloudProvider → String → Option String
account_of azure account = some account
account_of _ account = none

abbrev pub spec_request : Config → Message → CoreDbSpec → CoreDbSpec → SpecRequest
spec_request config read_msg prepared coredb_spec = record {
  org_id = read_msg.message.org_id;
  stack_type = stack_name prepared.stack;
  inst_id = read_msg.message.inst_id;
  data_plane_id = read_msg.message.data_plane_id;
  namespace = read_msg.message.namespace;
  backup_archive_bucket = config.backup_archive_bucket;
  azure_storage_account = account_of (cloud_provider config) config.azure_storage_account;
  coredb_spec = coredb_spec;
  cloud_provider = cloud_provider config;
}

-- The namespace, the specification and the connection of the instance.
unfoldable pub apply_spec : World → Config → Message → CoreDbSpec → Round ConnectionInfo
apply_spec world config read_msg prepared = do
  let event = read_msg.message
  let namespace = event.namespace
  call (create_namespace namespace event.org_id event.inst_id)
      (world.create_namespace namespace event.org_id event.inst_id)
  let coredb_spec = include_storage_configuration config.storage_archive_bucket read_msg prepared
  let request = spec_request config read_msg prepared coredb_spec
  spec ← call (generate_spec request) (world.generate_spec request)
  call (create_or_update namespace spec) (world.create_or_update namespace spec)
  conn ← attempt (get_pg_conn namespace coredb_spec) (world.get_pg_conn namespace coredb_spec)
  after_pg_conn world read_msg conn

-- A stopped instance loses its stack of the cloud; one that still runs is looked at again.
unfoldable pub stop_cloudformation :
    World → Config → Message → Option CoreDbStatus → Round (Unit {0})
stop_cloudformation world config read_msg none = pure tt
stop_cloudformation world config read_msg (some status) =
    let namespace = read_msg.message.namespace in
    if config.is_cloud_formation && is_stop read_msg.message.event_type
    then (if status.running
        then (do requeue_short world read_msg; skip)
        else call (delete_cloudformation namespace) (world.delete_cloudformation namespace))
    else pure tt

abbrev pub report_event : Event → Event
report_event create = created
report_event update = updated
report_event restore = restored
report_event start = started
report_event stop = stop_complete
report_event delete = deleted
report_event restart = restarted
report_event other = other

-- The events whose handler needs a specification.
abbrev pub needs_spec : Event → Bool
needs_spec create = true
needs_spec update = true
needs_spec restore = true
needs_spec start = true
needs_spec stop = true
needs_spec _ = false

-- An answer to the message: of the same instance, and of the event that reports on the message's.
abbrev pub IsAnswer : Message → Event → StateToControlPlane → Type 0
IsAnswer read_msg event answer =
    (answer.event_type ≡ report_event event)
    × (answer.data_plane_id ≡ read_msg.message.data_plane_id)
    × (answer.org_id ≡ read_msg.message.org_id)
    × (answer.inst_id ≡ read_msg.message.inst_id)

unfoldable pub handle_upsert : World → Config → Message → Round StateToControlPlane
handle_upsert world config read_msg = do
  let event = read_msg.message
  msg_spec ← require_spec world read_msg.msg_id event.spec
  prepared ← prepare_spec world config read_msg msg_spec
  conn_info ← apply_spec world config read_msg prepared
  current_spec ← call (get_one event.namespace) (world.get_one event.namespace)
  stop_cloudformation world config read_msg current_spec.status
  pure (
      reply read_msg (report_event event.event_type) (some current_spec.spec) current_spec.status
        (some conn_info))

-- The call, if the flag is set.
abbrev pub when : Bool → Round (Unit {0}) → Round (Unit {0})
when true run = run
when false run = pure tt

unfoldable pub handle_delete : World → Config → Message → Round StateToControlPlane
handle_delete world config read_msg = do
  let namespace = read_msg.message.namespace
  call (delete_coredb namespace) (world.delete_coredb namespace)
  call (delete_namespace namespace) (world.delete_namespace namespace)
  when config.is_cloud_formation
      (call (delete_cloudformation namespace) (world.delete_cloudformation namespace))
  when config.is_gcp (call (delete_gcp_binding namespace) (world.delete_gcp_binding namespace))
  when config.is_azure
      (call (delete_azure_binding namespace) (world.delete_azure_binding namespace))
  _ ← attempt (insert_deleted namespace) (world.insert_deleted namespace)
  pure (reply read_msg deleted none none none)

-- `conn_info.ok()`
abbrev pub ok_of : Answer ConnectionInfo → Option ConnectionInfo
ok_of (ok conn_info) = some conn_info
ok_of (err e) = none

-- An answer that is needed: without it the message is put back for a short time.
abbrev pub or_requeue {a} : {A : Type a} → World → Message → Answer A → Round A
or_requeue world read_msg (ok x) = pure x
or_requeue world read_msg (err e) = do requeue_short world read_msg; skip

unfoldable pub handle_restart : World → Message → Round StateToControlPlane
handle_restart world read_msg = do
  let namespace = read_msg.message.namespace
  answer ←
      attempt (restart_coredb namespace read_msg.enqueued_at)
        (world.restart_coredb namespace read_msg.enqueued_at)
  or_requeue world read_msg answer
  result ←
      attempt (get_coredb_error_without_status namespace)
        (world.get_coredb_error_without_status namespace)
  current ← or_requeue world read_msg result
  conn_info ←
      attempt (get_pg_conn namespace current.spec) (world.get_pg_conn namespace current.spec)
  pure (reply read_msg restarted (some current.spec) current.status (ok_of conn_info))

-- The events that nobody handles here: those that the conductor itself reports.
unfoldable pub handle_unhandled : Round StateToControlPlane
handle_unhandled = do tell add_errors; skip

unfoldable pub handle_event : World → Config → Message → Event → Round StateToControlPlane
handle_event world config read_msg create = handle_upsert world config read_msg
handle_event world config read_msg update = handle_upsert world config read_msg
handle_event world config read_msg restore = handle_upsert world config read_msg
handle_event world config read_msg start = handle_upsert world config read_msg
handle_event world config read_msg stop = handle_upsert world config read_msg
handle_event world config read_msg delete = handle_delete world config read_msg
handle_event world config read_msg restart = handle_restart world read_msg
handle_event world config read_msg _ = handle_unhandled

-- The answer to the control plane, and only then the archive.
unfoldable pub finish : World → Message → StateToControlPlane → Round (Unit {0})
finish world read_msg event_msg = do
  _ ← call (send event_msg) (world.send event_msg)
  call (archive read_msg.msg_id) (world.archive read_msg.msg_id)
  tell add_completed

-- The match on the event, and what comes after it.
abbrev pub serve : World → Config → Message → Round (Unit {0})
serve world config read_msg = do
  event_msg ← handle_event world config read_msg read_msg.message.event_type
  finish world read_msg event_msg

-- The rest of a round whose message is not of a deleted instance.
abbrev pub admit : World → Config → Message → Round (Unit {0})
admit world config read_msg = do check_read_ct world config read_msg; serve world config read_msg

-- One round of the loop with the message that was read.
unfoldable pub process : World → Config → Message → Round (Unit {0})
process world config read_msg = do
  check_deleted world read_msg
  tell add_total
  admit world config read_msg
