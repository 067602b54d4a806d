-- ===== src/Gateway/Reporter/Tests.antt =====
-- The reports at concrete times (inference-gateway/src/events_reporter.rs).
use tembo.Prelude.{ℕ, ◌≤◌, List, some, true, false, ◌≡◌, refl, [], ◌∷◌, arith}
use tembo.Gateway.Reporter.{
  start_of_the_hour, chunks_from, get_hourly_chunks, Round, enqueue_all, reported,
}
use tembo.Gateway.Reporter.Rounds.{get_hourly_chunks-rounds}
use tembo.Gateway.Reporter.Covered.{times_reported, times_reported-least, times_reported-reported}

-- From half past one to ten past three there are two whole hours.
get_hourly_chunks_test :
    get_hourly_chunks 5400000000000 11400000000000
    ≡ (3600000000000, 7199999999999) ∷ (7200000000000, 10799999999999) ∷ []
unfolding get_hourly_chunks start_of_the_hour chunks_from
get_hourly_chunks_test = refl

abbrev smooth_round : ℕ → Round
smooth_round now = record {
  asked = now;
  now = now;
  enqueue_event = λ chunk. true;
  save_reporter_watermark = true;
}

-- The first round enqueues its hour, and then cannot save its watermark.
abbrev unsaved_first : List Round
unsaved_first =
    record (smooth_round 9000000000000) { save_reporter_watermark = false }
    ∷ smooth_round 11400000000000
    ∷ []

-- What the failed round has enqueued is enqueued again.
reported_again_test :
    times_reported 3600000000000 (reported (some 5400000000000) unsaved_first).0 ≡ 2
unfolding reported enqueue_all get_hourly_chunks chunks_from start_of_the_hour
reported_again_test = refl

times_reported-least_example :
    1 ≤ times_reported 7200000000000 (reported (some 5400000000000) unsaved_first).0
unfolding reported enqueue_all get_hourly_chunks chunks_from start_of_the_hour
times_reported-least_example =
    times_reported-least 5400000000000 11400000000000 unsaved_first 7200000000000 refl (omega arith)
      (omega arith)

times_reported-reported_example :
    times_reported 7200000000000
      (reported
        (some 5400000000000)
        (smooth_round 9000000000000 ∷ smooth_round 11400000000000 ∷ [])).0
    ≡ 1
unfolding start_of_the_hour
times_reported-reported_example =
    times_reported-reported 5400000000000
      (smooth_round 9000000000000 ∷ smooth_round 11400000000000 ∷ []) 7200000000000
      (omega arith, (omega arith, tt)) ((λ chunk. refl, refl), ((λ chunk. refl, refl), tt))

get_hourly_chunks-rounds_example :
    chunks_from 40 (start_of_the_hour 5400000000000) (start_of_the_hour 11400000000000)
    ≡ get_hourly_chunks 5400000000000 11400000000000
get_hourly_chunks-rounds_example =
    get_hourly_chunks-rounds 5400000000000 11400000000000 40 (omega arith)
