-- ===== src/Conductor/Untouched.antt =====
-- When a round leaves the cluster alone, and what the round of a deletion does
-- (conductor/src/main.rs).
use tembo.Prelude.{ℕ, ◌≡◌, ◌≢◌, refl, ◌⊎◌, inl, inr, true, false, Option, none, some, leb, arith}
use tembo.Prelude.Result.{ok, Result-cases}
use tembo.Operator.Types.{CoreDbSpec}
use tembo.Conductor.Types.{Config, Message, Event, create, update, restore, start, stop, delete}
use tembo.Conductor.Round.{Round, World, done, continue, failed, tell, add_total, ◌>>=◌, ◌>>◌}
use tembo.Conductor.Events.{
  check_deleted, check_read_ct, require_spec, handle_event, handle_upsert, handle_delete, finish,
  process, serve, admit, needs_spec, reply, report_event,
}
use tembo.Conductor.Lacks.{is_change, Lacks, Lacks->>=}
use tembo.Conductor.Archives.{IsMarked, IsWorn, IsMalformed, IsExcused}

-- A part that changes nothing and does not end with a value.
abbrev IsIdle : {A : Type 0} → Round A → Type 0
IsIdle {A = A} m = Lacks is_change m × ((x : A) → m.1 ≢ done x)

module _ {A B : Type 0} where
  IsIdle-first : (m : Round A) (f : A → Round B) → IsIdle m → IsIdle (m >>= f)
  IsIdle-first (es, done x) f (l, d) = absurd (d x refl)
  IsIdle-first (es, continue) f (l, d) = (l, λ x h. cc)
  IsIdle-first (es, failed e) f (l, d) = (l, λ x h. cc)

  IsIdle-later :
      (m : Round A) (f : A → Round B)
      → Lacks is_change m
      → ((x : A) → IsIdle (f x))
      → IsIdle (m >>= f)
  IsIdle-later (es, done x) f l k = (Lacks->>= is_change (es, done x) f l (λ x. (k x).0), (k x).1)
  IsIdle-later (es, continue) f l k = (l, λ x h. cc)
  IsIdle-later (es, failed e) f l k = (l, λ x h. cc)

module _ (world : World) (config : Config) (read_msg : Message) where
  marked-IsIdle : IsMarked world read_msg → IsIdle (check_deleted world read_msg)
  unfolding check_deleted
  marked-IsIdle (h, (row, k)) = rw (h, k) (refl, λ x l. cc)

  check_deleted-Lacks : Lacks is_change (check_deleted world read_msg)
  unfolding check_deleted
  check_deleted-Lacks = ground arith

  check_read_ct-Lacks : Lacks is_change (check_read_ct world config read_msg)
  unfolding check_read_ct
  check_read_ct-Lacks = ground arith

  worn-IsIdle : IsWorn config read_msg → IsIdle (check_read_ct world config read_msg)
  unfolding check_read_ct
  worn-IsIdle h = (ground arith, λ x k. ground arith)

  spec-IsIdle : (o : Option CoreDbSpec) → o ≡ none → IsIdle (require_spec world read_msg.msg_id o)
  spec-IsIdle none h = elim (Result-cases (world.archive read_msg.msg_id)) [
    | inl (x, k) ↦ rw k (refl, λ x l. cc)
    | inr (e, k) ↦ rw k (refl, λ x l. cc)
  ]
  spec-IsIdle (some spec) h = cc

  upsert-IsIdle : read_msg.message.spec ≡ none → IsIdle (handle_upsert world config read_msg)
  unfolding handle_upsert
  upsert-IsIdle h =
      IsIdle-first (require_spec world read_msg.msg_id read_msg.message.spec) _
        (spec-IsIdle read_msg.message.spec h)

  malformed-IsIdle :
      (event : Event)
      → needs_spec event ≡ true
      → read_msg.message.spec ≡ none
      → IsIdle (handle_event world config read_msg event)
  unfolding handle_event
  malformed-IsIdle create n h = upsert-IsIdle h
  malformed-IsIdle update n h = upsert-IsIdle h
  malformed-IsIdle restore n h = upsert-IsIdle h
  malformed-IsIdle start n h = upsert-IsIdle h
  malformed-IsIdle stop n h = upsert-IsIdle h
  malformed-IsIdle _ n h = cc

  -- A message of a deleted instance, unless its event is a deletion, one that was read too often,
  -- and one without the specification that its event needs change nothing in the cluster or the
  -- cloud.
  pub process-untouched :
      IsExcused world config read_msg → Lacks is_change (process world config read_msg)
  unfolding process
  process-untouched (inl marked) =
      (IsIdle-first {B = Unit} (check_deleted world read_msg)
        (λ _. tell add_total >> admit world config read_msg) (marked-IsIdle marked)).0
  process-untouched (inr excuse) =
      (IsIdle-later {B = Unit} (check_deleted world read_msg)
        (λ _. tell add_total >> admit world config read_msg) check_deleted-Lacks
        (λ _.
          IsIdle-later {B = Unit} (tell add_total) (λ _. admit world config read_msg) refl
            (λ _. admit_idle excuse))).0
    where
      admit_idle :
          IsWorn config read_msg ⊎ IsMalformed read_msg → IsIdle (admit world config read_msg)
      admit_idle (inl worn) =
          IsIdle-first {B = Unit} (check_read_ct world config read_msg)
            (λ _. serve world config read_msg) (worn-IsIdle worn)
      admit_idle (inr (n, h)) =
          IsIdle-later {B = Unit} (check_read_ct world config read_msg)
            (λ _. serve world config read_msg) check_read_ct-Lacks
            (λ _.
              IsIdle-first {B = Unit}
                (handle_event world config read_msg read_msg.message.event_type)
                (finish world read_msg) (malformed-IsIdle read_msg.message.event_type n h))

-- The round of a deletion comes to its end if the message was not read too often and its calls
-- succeed, whether or not the deletion could be recorded.
pub process-delete_done :
    (world : World) (config : Config) (read_msg : Message) (id : ℕ)
    → read_msg.message.event_type ≡ delete
    → leb config.max_read_ct read_msg.read_ct ≡ false
    → world.delete_coredb read_msg.message.namespace ≡ ok tt
    → world.delete_namespace read_msg.message.namespace ≡ ok tt
    → world.delete_cloudformation read_msg.message.namespace ≡ ok tt
    → world.delete_gcp_binding read_msg.message.namespace ≡ ok tt
    → world.delete_azure_binding read_msg.message.namespace ≡ ok tt
    → world.send (reply read_msg (report_event delete) none none none) ≡ ok id
    → world.archive read_msg.msg_id ≡ ok tt
    → (process world config read_msg).1 ≡ done tt
unfolding process check_deleted check_read_ct handle_event handle_delete finish
process-delete_done world config read_msg id h m a b c d e f g = ground arith
