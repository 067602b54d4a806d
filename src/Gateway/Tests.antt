-- ===== src/Gateway/Tests.antt =====
-- A split of billing events into messages (inference-gateway/src/events_reporter.rs).
use tembo.Prelude.{ℕ, ◌≤◌, ◌≡◌, String, List, [], ◌∷◌, All, length, arith}
use tembo.Gateway.Batches.{Events, split_events, events_of, split_events_lem}

abbrev usage : String → Events
usage key = record {
  idempotency_key = key;
  organization_id = "org";
  instance_id = "inst";
  payload = record {
    completed_at = "2024-01-01 00:00:00 UTC";
    model = "model";
    prompt_tokens = "10";
    completion_tokens = "20";
  };
}

abbrev uuid : ℕ → String
uuid call = "00000000-0000-4000-8000-000000000000"

abbrev three_events : List Events
three_events = usage "a" ∷ usage "b" ∷ usage "c" ∷ []

split_events_lem_example :
    (events_of (split_events uuid three_events 2) ≡ three_events)
    × All (λ m. length m.message ≤ 2) (split_events uuid three_events 2)
split_events_lem_example = split_events_lem uuid three_events 2 (omega arith)
