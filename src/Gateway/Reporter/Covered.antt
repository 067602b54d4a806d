-- ===== src/Gateway/Reporter/Covered.antt =====
-- Which moments the reports cover (inference-gateway/src/events_reporter.rs).
use tembo.Prelude.{
  ℕ, zero, suc, ◌+◌, ◌*◌, ◌/◌, ◌≤◌, ◌≡◌, refl, ◌∙◌, Bool, true, false, ◌&&◌, List, [], ◌∷◌, ◌++◌,
  ltb, leb, arith, ap, All, some, Bool-cases, inl, inr, if◌then◌else◌, ◌<◌,
}
use tembo.Gateway.Reporter.{
  hour, start_of_the_hour, chunks_from, get_hourly_chunks, Round, enqueue_all, chunks_of, reported,
}

abbrev pub one_if : Bool → ℕ
one_if true = 1
one_if false = 0

-- How many of the chunks a moment lies in. The query takes both ends of a chunk.
abbrev pub times_reported : ℕ → List (ℕ × ℕ) → ℕ
times_reported t [] = 0
times_reported t ((start, end) ∷ chunks) =
    one_if (leb start t && leb t end) + times_reported t chunks

times_reported-append :
    (t : ℕ) (xs ys : List (ℕ × ℕ))
    → times_reported t (xs ++ ys) ≡ times_reported t xs + times_reported t ys
times_reported-append t [] ys = ground arith
times_reported-append t (x ∷ xs) ys = ground (arith, times_reported-append t xs ys)

times_reported-chunks_from :
    (fuel a b start last t : ℕ)
    → start ≡ a * hour
    → last ≡ b * hour
    → b ≤ a + fuel
    → times_reported t (chunks_from fuel start last) ≡ one_if (leb start t && ltb t last)
unfolding chunks_from
times_reported-chunks_from zero a b start last t h k l = ground arith
times_reported-chunks_from (suc fuel) a b start last t h k l =
    let ih =
      times_reported-chunks_from fuel (suc a) b (start + hour) last t (omega arith) k
        (omega arith) in
    ground (arith, ih)

-- A moment is reported once if it lies in the hours from that of the last report, which counts, up
-- to the present one, which does not; and else not at all.
pub times_reported-get_hourly_chunks :
    (last_reported_at now t : ℕ)
    → times_reported t (get_hourly_chunks last_reported_at now)
      ≡ one_if (leb (start_of_the_hour last_reported_at) t && ltb t (start_of_the_hour now))
unfolding get_hourly_chunks start_of_the_hour
times_reported-get_hourly_chunks last_reported_at now t =
    times_reported-chunks_from (now / hour) (last_reported_at / hour) (now / hour)
      (last_reported_at / hour * hour) (now / hour * hour) t refl refl (omega arith)

-- The times of the rounds are in order.
abbrev pub IsAscending : ℕ → List Round → Type 0
IsAscending time [] = Unit
IsAscending time (round ∷ later) = (time ≤ round.now) × IsAscending round.now later

-- Nothing fails in the rounds.
abbrev pub IsSmooth : Round → Type 0
IsSmooth round =
    ((chunk : ℕ × ℕ) → round.enqueue_event chunk ≡ true) × (round.save_reporter_watermark ≡ true)

-- The time of the last round.
abbrev pub last_of : ℕ → List Round → ℕ
last_of time [] = time
last_of time (round ∷ later) = last_of round.now later

le-last_of : (time : ℕ) (rounds : List Round) → IsAscending time rounds → time ≤ last_of time rounds
le-last_of time [] h = omega arith
le-last_of time (round ∷ later) (h, hs) = let ih = le-last_of round.now later hs in omega arith

start_of_the_hour-le : (a b : ℕ) → a ≤ b → start_of_the_hour a ≤ start_of_the_hour b
unfolding start_of_the_hour
start_of_the_hour-le a b h = omega arith

enqueue_all-whole :
    (enqueue_event : ℕ × ℕ → Bool) (chunks : List (ℕ × ℕ))
    → (enqueue_all enqueue_event chunks).1 ≡ true
    → (enqueue_all enqueue_event chunks).0 ≡ chunks
unfolding enqueue_all
enqueue_all-whole enqueue_event [] h = refl
enqueue_all-whole enqueue_event (chunk ∷ chunks) h = elim (Bool-cases (enqueue_event chunk)) [
  | inl e ↦
      rw (e, if◌then◌else◌)
        (ap (λ l. chunk ∷ l) (enqueue_all-whole enqueue_event chunks (rw (e, if◌then◌else◌) at h)))
  | inr e ↦ let same : false ≡ true = rw (e, if◌then◌else◌) at h in cc
]

enqueue_all-smooth :
    (enqueue_event : ℕ × ℕ → Bool) (chunks : List (ℕ × ℕ))
    → ((chunk : ℕ × ℕ) → enqueue_event chunk ≡ true)
    → enqueue_all enqueue_event chunks ≡ (chunks, true)
unfolding enqueue_all
enqueue_all-smooth enqueue_event [] h = refl
enqueue_all-smooth enqueue_event (chunk ∷ chunks) h =
    rw (h chunk, enqueue_all-smooth enqueue_event chunks h) refl

at_least_one :
    (here there t start end : ℕ)
    → here ≡ one_if (leb start t && ltb t end)
    → start ≤ t
    → (end ≤ t → 1 ≤ there)
    → 1 ≤ here + there
at_least_one here there t start end h k l = ground arith

-- However the rounds fail, a moment in the hours from the first watermark up to the one that is left
-- lies in a chunk that was enqueued whole: what the reporter has passed it has reported, once at
-- least.
pub times_reported-least :
    (first left : ℕ) (rounds : List Round) (t : ℕ)
    → (reported (some first) rounds).1 ≡ some left
    → start_of_the_hour first ≤ t
    → t < start_of_the_hour left
    → 1 ≤ times_reported t (reported (some first) rounds).0
unfolding reported
times_reported-least first left [] t h k l =
    let same : first ≡ left = cc in ground (arith, ap start_of_the_hour same)
times_reported-least first left (round ∷ later) t h k l =
    let part = chunks_of (some first) round in
    elim (Bool-cases (part.1 && round.save_reporter_watermark)) [
      | inl e ↦
          let rest = reported (some round.now) later in
          let whole : part.0 ≡ get_hourly_chunks first round.now =
            enqueue_all-whole round.enqueue_event _ (ground arith) in
          let here = times_reported-get_hourly_chunks first round.now t in
          let there = times_reported-least round.now left later t (rw (e, if◌then◌else◌) at h) in
          rw (e, if◌then◌else◌)
            (rw (whole, times_reported-append t (get_hourly_chunks first round.now) rest.0)
              (at_least_one _ _ t (start_of_the_hour first) (start_of_the_hour round.now) here k
                (λ below. there below l)))
      | inr e ↦
          let rest = reported (some first) later in
          let there = times_reported-least first left later t (rw (e, if◌then◌else◌) at h) k l in
          rw (e, if◌then◌else◌) (rw (times_reported-append t part.0 rest.0) (omega arith))
    ]

-- Where nothing fails and the times of the rounds are in order, a moment in the hours from the first
-- watermark up to the last round is reported once over all the rounds, however they fall, and every
-- other moment never.
pub times_reported-reported :
    (first : ℕ) (rounds : List Round) (t : ℕ)
    → IsAscending first rounds
    → All IsSmooth rounds
    → times_reported t (reported (some first) rounds).0
      ≡ one_if (leb (start_of_the_hour first) t && ltb t (start_of_the_hour (last_of first rounds)))
unfolding reported
times_reported-reported w [] t h s = ground arith
times_reported-reported w (round ∷ later) t (h, hs) ((taken, kept), s) =
    let ih = times_reported-reported round.now later t hs s in
    let first = times_reported-get_hourly_chunks w round.now t in
    let le1 = start_of_the_hour-le w round.now h in
    let le2 =
      start_of_the_hour-le round.now (last_of round.now later) (le-last_of round.now later hs) in
    rw (enqueue_all-smooth round.enqueue_event (get_hourly_chunks w round.now) taken, kept)
      (times_reported-append t (get_hourly_chunks w round.now) _ ∙ ground (arith, ih, first))
