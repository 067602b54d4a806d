-- ===== src/Conductor/Closing.antt =====
-- Which calls the handlers of an event do not make but to do without a specification, or for a
-- deletion (conductor/src/main.rs).
use tembo.Prelude.{refl, Bool, Option, arith}
use tembo.Prelude.Result.{ok, err}
use tembo.Operator.Types.{CoreDbSpec, CoreDbStatus}
use tembo.Conductor.Types.{Config, Message, ConnectionInfo}
use tembo.Conductor.Round.{World, Answer, Effect, get_one, call, skip, catch, ◌>>◌}
use tembo.Conductor.Cloud.{
  init_cloud_perms, init_gcp_storage_workload_identity, init_azure_storage_workload_identity,
  include_storage_configuration,
}
use tembo.Conductor.Events.{
  requeue_short, require_spec, after_cloud_perms, after_pg_conn, prepare_spec, apply_spec,
  stop_cloudformation, handle_upsert, handle_restart, or_requeue,
}
use tembo.Conductor.Lacks.{is_closing, Weakens, any-Weakens, Lacks, Lacks->>=, Lacks-catch}

module _ (world : World) (config : Config) (read_msg : Message) where
  requeue_short-Lacks : Lacks is_closing (requeue_short world read_msg)
  unfolding requeue_short
  requeue_short-Lacks = ground arith

  requeue-Lacks : (A : Type 0) → Lacks {A = A} is_closing (requeue_short world read_msg >> skip)
  requeue-Lacks A =
      Lacks->>= is_closing (requeue_short world read_msg) (λ _. skip {A = A}) requeue_short-Lacks
        (λ _. refl)

  init_cloud_perms-Lacks :
      (spec : CoreDbSpec) → Lacks is_closing (init_cloud_perms world config read_msg spec)
  unfolding init_cloud_perms
  init_cloud_perms-Lacks spec = ground arith

  init_gcp-Lacks :
      (spec : CoreDbSpec)
      → Lacks is_closing (init_gcp_storage_workload_identity world config read_msg spec)
  unfolding init_gcp_storage_workload_identity
  init_gcp-Lacks spec = ground arith

  init_azure-Lacks :
      (spec : CoreDbSpec)
      → Lacks is_closing (init_azure_storage_workload_identity world config read_msg spec)
  unfolding init_azure_storage_workload_identity
  init_azure-Lacks spec = ground arith

  after_cloud_perms-Lacks :
      (a : Answer CoreDbSpec) → Lacks is_closing (after_cloud_perms world read_msg a)
  after_cloud_perms-Lacks a = ground (arith, requeue-Lacks CoreDbSpec)

  after_pg_conn-Lacks :
      (a : Answer ConnectionInfo) → Lacks is_closing (after_pg_conn world read_msg a)
  after_pg_conn-Lacks a = ground (arith, requeue-Lacks ConnectionInfo)

  prepare_spec-Lacks :
      (spec : CoreDbSpec) → Lacks is_closing (prepare_spec world config read_msg spec)
  unfolding prepare_spec
  prepare_spec-Lacks spec =
      Lacks->>= is_closing (catch (init_cloud_perms world config read_msg spec)) _
        (Lacks-catch is_closing (init_cloud_perms world config read_msg spec)
          (init_cloud_perms-Lacks spec))
        (λ perms.
          Lacks->>= is_closing (after_cloud_perms world read_msg perms) _
            (after_cloud_perms-Lacks perms)
            (λ with_perms.
              Lacks->>= is_closing
                (init_gcp_storage_workload_identity world config read_msg with_perms) _
                (init_gcp-Lacks with_perms) (λ with_gcs. init_azure-Lacks with_gcs)))

  apply_spec-Lacks : (spec : CoreDbSpec) → Lacks is_closing (apply_spec world config read_msg spec)
  unfolding apply_spec
  apply_spec-Lacks spec = ground (
    arith,
    after_pg_conn-Lacks (
        world.get_pg_conn read_msg.message.namespace
          (include_storage_configuration config.storage_archive_bucket read_msg spec)),
  )

  stop_cloudformation-Lacks :
      (status : Option CoreDbStatus)
      → Lacks is_closing (stop_cloudformation world config read_msg status)
  unfolding stop_cloudformation
  stop_cloudformation-Lacks status = ground (arith, requeue-Lacks (Unit {0}))

  or_requeue-Lacks : {A : Type 0} (x : Answer A) → Lacks is_closing (or_requeue world read_msg x)
  or_requeue-Lacks (ok x) = refl
  or_requeue-Lacks {A = A} (err e) = requeue-Lacks A

  handle_restart-closing : Lacks is_closing (handle_restart world read_msg)
  unfolding handle_restart
  handle_restart-closing =
      let namespace = read_msg.message.namespace in
      Lacks->>= is_closing
        (or_requeue world read_msg (world.restart_coredb namespace read_msg.enqueued_at)) _
        (or_requeue-Lacks (world.restart_coredb namespace read_msg.enqueued_at))
        (λ _.
          Lacks->>= is_closing
            (or_requeue world read_msg (world.get_coredb_error_without_status namespace)) _
            (or_requeue-Lacks (world.get_coredb_error_without_status namespace)) (λ current. refl))

  -- Closing calls of a kind that a missing specification does not lead to are not made at all.
  pub handle_upsert-Lacks :
      (p : Effect → Bool)
      → Weakens p is_closing
      → Lacks p (require_spec world read_msg.msg_id read_msg.message.spec)
      → Lacks p (handle_upsert world config read_msg)
  unfolding handle_upsert
  handle_upsert-Lacks p weakens h =
      let namespace = read_msg.message.namespace in
      Lacks->>= p (require_spec world read_msg.msg_id read_msg.message.spec) _ h (λ msg_spec.
        any-Weakens p is_closing _ weakens (
          Lacks->>= is_closing (prepare_spec world config read_msg msg_spec) _
            (prepare_spec-Lacks msg_spec)
            (λ prepared.
              Lacks->>= is_closing (apply_spec world config read_msg prepared) _
                (apply_spec-Lacks prepared)
                (λ conn_info.
                  Lacks->>= is_closing (call (get_one namespace) (world.get_one namespace)) _ refl
                    (λ current.
                      Lacks->>= is_closing
                        (stop_cloudformation world config read_msg current.status) _
                        (stop_cloudformation-Lacks current.status) (λ _. refl))))))

  pub handle_restart-Lacks :
      (p : Effect → Bool) → Weakens p is_closing → Lacks p (handle_restart world read_msg)
  handle_restart-Lacks p weakens =
      any-Weakens p is_closing (handle_restart world read_msg).0 weakens handle_restart-closing
