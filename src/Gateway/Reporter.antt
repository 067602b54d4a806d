-- ===== src/Gateway/Reporter.antt =====
-- The reporter of billing events (inference-gateway/src/events_reporter.rs). A `DateTime<Utc>` is
-- the number of nanoseconds since 1970, and not before.
pub mod Covered
pub mod Rounds
mod Tests
use tembo.Prelude.{
  ℕ, zero, suc, ◌+◌, ◌-◌, ◌*◌, ◌/◌, String, Bool, true, false, ◌&&◌, Option, none, some, List, [],
  ◌∷◌, ◌++◌, ltb, if◌then◌else◌,
}

-- `ChronoDuration::hours(1)`
abbrev pub hour : ℕ
hour = 3600000000000

unfoldable pub start_of_the_hour : ℕ → ℕ
start_of_the_hour datetime = datetime / hour * hour

-- The loop of `get_hourly_chunks`; the fuel bounds its rounds.
unfoldable pub chunks_from : ℕ → ℕ → ℕ → List (ℕ × ℕ)
chunks_from zero chunk_start last_complete_hour = []
chunks_from (suc fuel) chunk_start last_complete_hour =
    let rest = chunks_from fuel (chunk_start + hour) last_complete_hour in
    if ltb chunk_start last_complete_hour then (chunk_start, chunk_start + hour - 1) ∷ rest else []

-- As many rounds as there were hours since 1970 are enough.
unfoldable pub get_hourly_chunks : ℕ → ℕ → List (ℕ × ℕ)
get_hourly_chunks last_reported_at now =
    chunks_from (now / hour) (start_of_the_hour last_reported_at) (start_of_the_hour now)

-- One round of the loop of `run_events_reporter`, by what it meets: the times at which the clock is
-- read, which chunks `enqueue_event` takes, and whether the watermark can be saved.
-- A round that cannot read the watermark does nothing, and is none of these.
pub record Round : Type 0 where
  -- `Utc::now()` where there is no watermark, and `now`.
  pub asked : ℕ
  pub now : ℕ
  pub enqueue_event : ℕ × ℕ → Bool
  pub save_reporter_watermark : Bool

-- The chunks that are enqueued whole, up to the first that fails, and whether none fails. Of the one
-- that fails a part of the events may have been sent.
unfoldable pub enqueue_all : (ℕ × ℕ → Bool) → List (ℕ × ℕ) → List (ℕ × ℕ) × Bool
enqueue_all enqueue_event [] = ([], true)
enqueue_all enqueue_event (chunk ∷ chunks) =
    let rest = enqueue_all enqueue_event chunks in
    if enqueue_event chunk then (chunk ∷ rest.0, rest.1) else ([], false)

abbrev pub last_reported_at : Option ℕ → Round → ℕ
last_reported_at none round = round.asked - hour
last_reported_at (some watermark) round = watermark

abbrev pub chunks_of : Option ℕ → Round → List (ℕ × ℕ) × Bool
chunks_of watermark round =
    enqueue_all round.enqueue_event (get_hourly_chunks (last_reported_at watermark round) round.now)

-- The watermark is an update of the row that there is: without a row there still is none.
abbrev pub saved : Option ℕ → ℕ → Option ℕ
saved none now = none
saved (some watermark) now = some now

abbrev pub watermark_after : Option ℕ → Round → Option ℕ
watermark_after watermark round =
    if (chunks_of watermark round).1 && round.save_reporter_watermark
    then saved watermark round.now
    else watermark

-- What the rounds enqueue, and the watermark that they leave. A failure ends the loop, and the next
-- round is the first of the next start.
unfoldable pub reported : Option ℕ → List Round → List (ℕ × ℕ) × Option ℕ
reported watermark [] = ([], watermark)
reported watermark (round ∷ later) =
    let rest = reported (watermark_after watermark round) later in
    ((chunks_of watermark round).0 ++ rest.0, rest.1)
