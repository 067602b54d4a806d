-- ===== src/Gateway/Batches.antt =====
-- The batches in which billing events are sent (inference-gateway/src/events_reporter.rs).
use tembo.Prelude.{
  ℕ, zero, suc, ◌≤◌, ◌<◌, ◌≡◌, refl, ◌∙◌, ap, String, List, [], ◌∷◌, ◌++◌, length, All, arith,
}

pub record Payload : Type 0 where
  pub completed_at : String
  pub model : String
  pub prompt_tokens : String
  pub completion_tokens : String

pub record Events : Type 0 where
  pub idempotency_key : String
  pub organization_id : String
  pub instance_id : String
  pub payload : Payload

pub record Message : Type 0 where
  pub id : String
  pub message : List Events

module _ {ℓ} {A : Type ℓ} where
  unfoldable pub take : ℕ → List A → List A
  take zero xs = []
  take (suc n) [] = []
  take (suc n) (x ∷ xs) = x ∷ take n xs

  unfoldable pub drop : ℕ → List A → List A
  drop zero xs = xs
  drop (suc n) [] = []
  drop (suc n) (x ∷ xs) = drop n xs

  -- `chunks`, with at most as many rounds as the list is long.
  unfoldable pub chunks : ℕ → ℕ → List A → List (List A)
  chunks fuel chunk_size [] = []
  chunks zero chunk_size (x ∷ xs) = []
  chunks (suc fuel) chunk_size (x ∷ xs) =
      take chunk_size (x ∷ xs) ∷ chunks fuel chunk_size (drop chunk_size (x ∷ xs))

  take-drop : (n : ℕ) (xs : List A) → take n xs ++ drop n xs ≡ xs
  unfolding take drop
  take-drop zero xs = refl
  take-drop (suc n) [] = refl
  take-drop (suc n) (x ∷ xs) = ap (λ ys. x ∷ ys) (take-drop n xs)

  length-take : (n : ℕ) (xs : List A) → length (take n xs) ≤ n
  unfolding take
  length-take zero xs = ground arith
  length-take (suc n) [] = ground arith
  length-take (suc n) (x ∷ xs) = let ih = length-take n xs in ground arith

  length-drop : (n : ℕ) (xs : List A) → length (drop n xs) ≤ length xs
  unfolding drop
  length-drop zero xs = ground arith
  length-drop (suc n) [] = ground arith
  length-drop (suc n) (x ∷ xs) = let ih = length-drop n xs in ground arith

-- `Uuid::new_v4` at each call, by the number of the call.
abbrev pub messages : (ℕ → String) → ℕ → List (List Events) → List Message
messages new_v4 i [] = []
messages new_v4 i (chunk ∷ later) =
    record { id = new_v4 i; message = chunk } ∷ messages new_v4 (suc i) later

-- `chunks` panics if the size is zero; the only caller's is 1000.
unfoldable pub split_events : (ℕ → String) → List Events → ℕ → List Message
split_events new_v4 events max_size = messages new_v4 0 (chunks (length events) max_size events)

-- All events of the messages, in order.
abbrev pub events_of : List Message → List Events
events_of [] = []
events_of (m ∷ ms) = m.message ++ events_of ms

events_of-messages :
    (new_v4 : ℕ → String) (i fuel n : ℕ) (xs : List Events)
    → length xs ≤ fuel
    → events_of (messages new_v4 i (chunks fuel (suc n) xs)) ≡ xs
unfolding chunks drop
events_of-messages new_v4 i fuel n [] h = refl
events_of-messages new_v4 i zero n (x ∷ xs) h = ground arith
events_of-messages new_v4 i (suc fuel) n (x ∷ xs) h =
    let fits = length-drop n xs in
    ap (λ ys. take (suc n) (x ∷ xs) ++ ys)
      (events_of-messages new_v4 (suc i) fuel n (drop n xs) (ground arith))
    ∙ take-drop (suc n) (x ∷ xs)

messages-All :
    (new_v4 : ℕ → String) (i fuel n : ℕ) (xs : List Events)
    → All (λ m. length m.message ≤ n) (messages new_v4 i (chunks fuel n xs))
unfolding chunks
messages-All new_v4 i fuel n [] = tt
messages-All new_v4 i zero n (x ∷ xs) = tt
messages-All new_v4 i (suc fuel) n (x ∷ xs) =
    (length-take n (x ∷ xs), messages-All new_v4 (suc i) fuel n (drop n (x ∷ xs)))

-- The messages hold every event once and in order, and none holds more than the size allows, which
-- is not zero.
pub split_events_lem :
    (new_v4 : ℕ → String) (events : List Events) (max_size : ℕ)
    → 0 < max_size
    → (events_of (split_events new_v4 events max_size) ≡ events)
      × All (λ m. length m.message ≤ max_size) (split_events new_v4 events max_size)
unfolding split_events
split_events_lem new_v4 events zero h = ground arith
split_events_lem new_v4 events (suc n) h = (
  events_of-messages new_v4 0 (length events) n events (omega arith),
  messages-All new_v4 0 (length events) (suc n) events,
)
