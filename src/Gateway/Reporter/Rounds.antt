-- ===== src/Gateway/Reporter/Rounds.antt =====
-- The rounds of the loop over the hours (inference-gateway/src/events_reporter.rs).
use tembo.Prelude.{ℕ, zero, suc, ◌+◌, ◌*◌, ◌/◌, ◌≤◌, ◌≡◌, refl, sym, [], arith}
use tembo.Gateway.Reporter.{hour, start_of_the_hour, chunks_from, get_hourly_chunks}

-- Once the start is not before the end, there are no chunks.
past : (fuel start end : ℕ) → end ≤ start → chunks_from fuel start end ≡ []
unfolding chunks_from
past zero start end h = refl
past (suc fuel) start end h = ground arith

same_rounds :
    (f g start end : ℕ)
    → end ≤ start + f * hour
    → end ≤ start + g * hour
    → chunks_from f start end ≡ chunks_from g start end
unfolding chunks_from
same_rounds zero g start end h k = sym (past g start end (omega arith))
same_rounds (suc f) zero start end h k = past (suc f) start end (omega arith)
same_rounds (suc f) (suc g) start end h k =
    let rest : chunks_from f (start + hour) end ≡ chunks_from g (start + hour) end =
      same_rounds f g (start + hour) end (omega arith) (omega arith) in
    rw rest refl

-- The loop over the hours ends by its own condition, and not for want of rounds: with any number of
-- rounds from that of the hours since 1970 on it gives the same chunks.
pub get_hourly_chunks-rounds :
    (last_reported_at now fuel : ℕ)
    → now / hour ≤ fuel
    → chunks_from fuel (start_of_the_hour last_reported_at) (start_of_the_hour now)
      ≡ get_hourly_chunks last_reported_at now
unfolding get_hourly_chunks start_of_the_hour
get_hourly_chunks-rounds last_reported_at now fuel h =
    same_rounds fuel (now / hour) _ _ (omega arith) (omega arith)
