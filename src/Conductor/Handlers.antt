-- ===== src/Conductor/Handlers.antt =====
-- No handler of an event settles its message: it is answered and archived after the handler
-- (conductor/src/main.rs).
use tembo.Prelude.{◌≡◌, refl, ◌⊎◌, inl, inr, true, Option, none, some, Option-cases, arith}
use tembo.Operator.Types.{CoreDbSpec, CoreDbStatus}
use tembo.Conductor.Types.{
  Config, Message, Event, create, update, restore, start, stop, restart, delete, ConnectionInfo,
}
use tembo.Conductor.Round.{
  World, archive, send, get_one, delete_coredb, delete_namespace, call, pure,
}
use tembo.Conductor.Events.{
  require_spec, prepare_spec, apply_spec, stop_cloudformation, handle_upsert, handle_delete,
  handle_restart, handle_event, handle_unhandled, needs_spec, IsAnswer, reply, report_event,
  or_requeue, when,
}
use tembo.Conductor.Lacks.{is_settling, is_closing, Weakens, Lacks, Ends, Ends->>=, done-injective}
use tembo.Conductor.Closing.{handle_upsert-Lacks, handle_restart-Lacks}

module _ (world : World) (config : Config) (read_msg : Message) where
  handle_delete-Lacks : Lacks is_settling (handle_delete world config read_msg)
  unfolding handle_delete
  handle_delete-Lacks = ground arith

  settling-Weakens : Weakens is_settling is_closing
  settling-Weakens (archive _) h = h
  settling-Weakens (send _) h = h
  settling-Weakens _ h = refl

  require_spec-Lacks :
      (o : Option CoreDbSpec) (spec : CoreDbSpec)
      → o ≡ some spec
      → Lacks is_settling (require_spec world read_msg.msg_id o)
  require_spec-Lacks none spec h = cc
  require_spec-Lacks (some s) spec h = refl

  upsert :
      Lacks is_settling (handle_upsert world config read_msg)
      ⊎ ((true ≡ true) × (read_msg.message.spec ≡ none))
  upsert = elim (Option-cases read_msg.message.spec) [
    | inl absent ↦ inr (refl, absent)
    | inr (spec, h) ↦ inl (
        handle_upsert-Lacks world config read_msg is_settling settling-Weakens
          (require_spec-Lacks read_msg.message.spec spec h))
  ]

  -- A handler settles nothing, unless the event needs a specification and has none.
  pub handle_event-Lacks :
      (event : Event)
      → Lacks is_settling (handle_event world config read_msg event)
        ⊎ ((needs_spec event ≡ true) × (read_msg.message.spec ≡ none))
  unfolding handle_event handle_unhandled
  handle_event-Lacks create = upsert
  handle_event-Lacks update = upsert
  handle_event-Lacks restore = upsert
  handle_event-Lacks start = upsert
  handle_event-Lacks stop = upsert
  handle_event-Lacks delete = inl handle_delete-Lacks
  handle_event-Lacks restart =
      inl (handle_restart-Lacks world config read_msg is_settling settling-Weakens)
  handle_event-Lacks _ = inl refl

  IsAnswer-Ends :
      (event : Event) (spec : Option CoreDbSpec) (status : Option CoreDbStatus)
      (connection : Option ConnectionInfo)
      → Ends
          (IsAnswer read_msg event)
          (pure (reply read_msg (report_event event) spec status connection))
  IsAnswer-Ends event spec status connection x h = rw (← done-injective h) (refl, refl, refl, refl)

  upsert-Ends :
      Ends (IsAnswer read_msg read_msg.message.event_type) (handle_upsert world config read_msg)
  unfolding handle_upsert
  upsert-Ends =
      let namespace = read_msg.message.namespace in
      let P = IsAnswer read_msg read_msg.message.event_type in
      Ends->>= P (require_spec world read_msg.msg_id read_msg.message.spec) _ (λ msg_spec.
        Ends->>= P (prepare_spec world config read_msg msg_spec) _ (λ prepared.
          Ends->>= P (apply_spec world config read_msg prepared) _ (λ conn_info.
            Ends->>= P (call (get_one namespace) (world.get_one namespace)) _ (λ current.
              Ends->>= P (stop_cloudformation world config read_msg current.status) _
                (λ _. IsAnswer-Ends read_msg.message.event_type _ _ _)))))

  upsert_at :
      (event : Event)
      → read_msg.message.event_type ≡ event
      → Ends (IsAnswer read_msg event) (handle_upsert world config read_msg)
  upsert_at event h = rw (← h) upsert-Ends

  delete-Ends : Ends (IsAnswer read_msg delete) (handle_delete world config read_msg)
  unfolding handle_delete
  delete-Ends =
      let namespace = read_msg.message.namespace in
      let P = IsAnswer read_msg delete in
      Ends->>= P (call (delete_coredb namespace) (world.delete_coredb namespace)) _ (λ _.
        Ends->>= P (call (delete_namespace namespace) (world.delete_namespace namespace)) _ (λ _.
          Ends->>= P (when config.is_cloud_formation _) _ (λ _.
            Ends->>= P (when config.is_gcp _) _ (λ _.
              Ends->>= P (when config.is_azure _) _ (λ _. IsAnswer-Ends delete none none none)))))

  restart-Ends : Ends (IsAnswer read_msg restart) (handle_restart world read_msg)
  unfolding handle_restart
  restart-Ends =
      let namespace = read_msg.message.namespace in
      let P = IsAnswer read_msg restart in
      Ends->>= P (or_requeue world read_msg (world.restart_coredb namespace read_msg.enqueued_at)) _
        (λ _.
          Ends->>= P (or_requeue world read_msg (world.get_coredb_error_without_status namespace)) _
            (λ current. IsAnswer-Ends restart _ _ _))

  -- What a handler ends with is an answer to the message.
  pub handle_event-Ends :
      (event : Event)
      → read_msg.message.event_type ≡ event
      → Ends (IsAnswer read_msg event) (handle_event world config read_msg event)
  unfolding handle_event handle_unhandled
  handle_event-Ends create h = upsert_at create h
  handle_event-Ends update h = upsert_at update h
  handle_event-Ends restore h = upsert_at restore h
  handle_event-Ends start h = upsert_at start h
  handle_event-Ends stop h = upsert_at stop h
  handle_event-Ends delete h = delete-Ends
  handle_event-Ends restart h = restart-Ends
  handle_event-Ends _ h = λ x k. cc
