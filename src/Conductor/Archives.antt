-- ===== src/Conductor/Archives.antt =====
-- When a message is archived (conductor/src/main.rs).
use tembo.Prelude.{
  ℕ, String, ◌≡◌, refl, ◌∙◌, ap, sym, ◌⊎◌, inl, inr, Bool, true, false, ◌||◌, none, some, List, [],
  ◌∷◌, ◌++◌, any, any-append, leb, Bool-cases, Option-cases, arith,
}
use tembo.Prelude.Result.{ok, err, Result-cases}
use tembo.Conductor.Types.{Config, Message, StateToControlPlane, ConductorError, is_delete}
use tembo.Conductor.Round.{
  Round, World, Effect, done, continue, failed, archive, send, tell, add_total, add_completed,
  ◌>>=◌, ◌>>◌,
}
use tembo.Conductor.Events.{
  check_deleted, check_read_ct, handle_event, finish, process, serve, admit, needs_spec, IsAnswer,
}
use tembo.Conductor.Lacks.{is_archive, is_settling, Lacks, both_false}
use tembo.Conductor.Handlers.{handle_event-Lacks, handle_event-Ends}

-- The namespace is in the table of the deleted instances, and the event is not its deletion.
abbrev pub IsMarked : World → Message → Type 0
IsMarked world read_msg =
    (is_delete read_msg.message.event_type ≡ false)
    × ((row : String) × (world.select_deleted read_msg.message.namespace ≡ ok (some row)))

-- The message was read too often.
abbrev pub IsWorn : Config → Message → Type 0
IsWorn config read_msg = leb config.max_read_ct read_msg.read_ct ≡ true

-- The event needs a specification, and has none.
abbrev pub IsMalformed : Message → Type 0
IsMalformed read_msg =
    (needs_spec read_msg.message.event_type ≡ true) × (read_msg.message.spec ≡ none)

-- The control plane's queue took an answer to the message, the first call that settles it, and the
-- archive comes next.
abbrev pub IsAnswered : World → Message → List Effect → Type 0
IsAnswered world read_msg es =
    (answer : StateToControlPlane) × (id : ℕ) × (before : List Effect) × (after : List Effect) × (es
      ≡ before ++ send answer ∷ archive read_msg.msg_id ∷ after)
    × (any is_settling before ≡ false)
    × (world.send answer ≡ ok id)
    × IsAnswer read_msg read_msg.message.event_type answer

not_archive : (es : List Effect) → any is_settling es ≡ false → any is_archive es ≡ false
not_archive [] h = refl
not_archive (e ∷ es) h = let ih = not_archive es in ground arith

append_assoc : (xs ys zs : List Effect) → xs ++ (ys ++ zs) ≡ (xs ++ ys) ++ zs
append_assoc [] ys zs = refl
append_assoc (x ∷ xs) ys zs = ap (λ l. x ∷ l) (append_assoc xs ys zs)

later : (b c : Bool) → b ≡ false → (b || c) ≡ true → c ≡ true
later b c h k = ground arith

false_of : (b : Bool) → b ≡ false → b ≡ true → ⊥
false_of b h k = ground arith

module _ (world : World) (config : Config) (read_msg : Message) where
  abbrev pub IsExcused : Type 0
  IsExcused = IsMarked world read_msg ⊎ (IsWorn config read_msg ⊎ IsMalformed read_msg)

  -- What is to show of each part of the round.
  abbrev Settles : {A : Type 0} → Round A → Type 0
  Settles m = any is_archive m.0 ≡ true → IsAnswered world read_msg m.0 ⊎ IsExcused

  check_deleted-Lacks : Lacks is_settling (check_deleted world read_msg) ⊎ IsMarked world read_msg
  unfolding check_deleted
  check_deleted-Lacks = elim (Bool-cases (is_delete read_msg.message.event_type)) [
    | inl h ↦ inl (rw h refl)
    | inr h ↦ elim (Result-cases (world.select_deleted read_msg.message.namespace)) [
      | inr (e, k) ↦ inl (rw (h, k) refl)
      | inl (o, k) ↦ elim (Option-cases o) [
        | inl l ↦ inl (rw (h, k, l) refl)
        | inr (row, l) ↦ inr (h, (row, k ∙ ap ok l))
      ]
    ]
  ]

  check_read_ct-Lacks :
      Lacks is_settling (check_read_ct world config read_msg) ⊎ IsWorn config read_msg
  unfolding check_read_ct
  check_read_ct-Lacks = elim (Bool-cases (leb config.max_read_ct read_msg.read_ct)) [
    | inl h ↦ inr h
    | inr h ↦ inl (rw h refl)
  ]

  prefixed :
      (pre es : List Effect)
      → any is_settling pre ≡ false
      → IsAnswered world read_msg es
      → IsAnswered world read_msg (pre ++ es)
  prefixed pre es h (answer, id, before, after, shape, quiet, sent, a) = (
    answer,
    id,
    pre ++ before,
    after,
    ap (λ x. pre ++ x) shape ∙ append_assoc pre before _,
    any-append is_settling pre before ∙ both_false _ _ h quiet,
    sent,
    a,
  )

  -- A part that settles nothing goes before one that is as it should be.
  Settles->>= :
      {A B : Type 0} (m : Round A) (f : A → Round B)
      → Lacks is_settling m ⊎ IsExcused
      → ((x : A) → m.1 ≡ done x → Settles (f x))
      → Settles (m >>= f)
  Settles->>= m f (inr excuse) k h = inr excuse
  Settles->>= (es, continue) f (inl quiet) k h = absurd (false_of _ (not_archive es quiet) h)
  Settles->>= (es, failed e) f (inl quiet) k h = absurd (false_of _ (not_archive es quiet) h)
  Settles->>= (es, done x) f (inl quiet) k h =
      elim (k x refl
        (later _ _ (not_archive es quiet) (sym (any-append is_archive es (f x).0) ∙ h))) [
          | inl a ↦ inl (prefixed es (f x).0 quiet a)
          | inr excuse ↦ inr excuse
        ]

  finish_unsent :
      (answer : StateToControlPlane) (e : ConductorError)
      → world.send answer ≡ err e
      → any is_archive (finish world read_msg answer).0 ≡ false
  unfolding finish
  finish_unsent answer e k = rw k refl

  finish_sent :
      (answer : StateToControlPlane) (id : ℕ)
      → world.send answer ≡ ok id
      → (after : List Effect) × ((finish world read_msg answer).0
          ≡ send answer ∷ archive read_msg.msg_id ∷ after)
  unfolding finish
  finish_sent answer id k = elim (Result-cases (world.archive read_msg.msg_id)) [
    | inl (x, l) ↦ (add_completed ∷ [], rw (k, l) refl)
    | inr (e, l) ↦ ([], rw (k, l) refl)
  ]

  finish-Settles :
      (answer : StateToControlPlane)
      → IsAnswer read_msg read_msg.message.event_type answer
      → Settles (finish world read_msg answer)
  finish-Settles answer a h = elim (Result-cases (world.send answer)) [
    | inr (e, k) ↦ absurd (false_of _ (finish_unsent answer e k) h)
    | inl (id, k) ↦
        let (after, shape) = finish_sent answer id k in
        inl (answer, id, [], after, shape, refl, k, a)
  ]

  weaken : {P : Type 0} {Q : Type 0} (x : P ⊎ Q) (f : Q → IsExcused) → P ⊎ IsExcused
  weaken (inl p) f = inl p
  weaken (inr q) f = inr (f q)

  -- A message is archived only once the control plane's queue has taken an answer to it, of the
  -- right event; or if its namespace is marked as deleted, it was read too often, or it lacks the
  -- specification that its event needs.
  pub process-archives :
      any is_archive (process world config read_msg).0 ≡ true
      → IsAnswered world read_msg (process world config read_msg).0 ⊎ IsExcused
  unfolding process
  process-archives =
      let event = read_msg.message.event_type in
      Settles->>= {B = Unit} (check_deleted world read_msg)
        (λ _. tell add_total >> admit world config read_msg)
        (weaken check_deleted-Lacks (λ x. inl x))
        (λ _ _.
          Settles->>= {B = Unit} (tell add_total) (λ _. admit world config read_msg) (inl refl)
            (λ _ _.
              Settles->>= {B = Unit} (check_read_ct world config read_msg)
                (λ _. serve world config read_msg) (weaken check_read_ct-Lacks (λ x. inr (inl x)))
                (λ _ _.
                  Settles->>= {B = Unit} (handle_event world config read_msg event)
                    (finish world read_msg)
                    (weaken (handle_event-Lacks world config read_msg event) (λ x. inr (inr x)))
                    (λ answer h.
                      finish-Settles answer
                        (handle_event-Ends world config read_msg event refl answer h)))))
