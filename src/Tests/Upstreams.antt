-- ===== src/Tests/Upstreams.antt =====
-- The tracker and the ranking, on two upstreams of which one has failed twice.
use mathlib.Core.List.{Memᴰ}
use em_wall.Prelude.{
  ℕ, ◌≡◌, ◌⊎◌, refl, ◌<◌, Bool, not, All, arith, true, false, [], ◌∷◌, Text, codes, lookup, text_eq,
  text_beq,
}
use em_wall.Latency.{Rate, Sample, zero_sample, failure_rate}
use em_wall.Latency.Record.{Tracker, new_tracker, record_outcome, record_sample, reset}
use em_wall.Latency.Bounds.{IsBounded, record_outcome-IsBounded}
use em_wall.Latency.Turns.{MayClose, StaysOpen, next_trip}
use em_wall.Latency.Breaker.{Recording, record_one, record_all, cooled, stays_open}
use em_wall.Latency.Rank.{rank_from}
use em_wall.Latency.Rank.Working.{failing, working_first}

abbrev near : Text
near = codes "near"

abbrev far : Text
far = codes "far"

abbrev empty_tracker : Tracker
empty_tracker = new_tracker 60000000000

-- `near` failed twice and `far` answered in 90 milliseconds
abbrev outage : Tracker
outage = record {
  samples =
      (near, record zero_sample { fails = 2; suspect_since = 5 })
      ∷ (far, record zero_sample { rtt = 90000000; ok = true; at = 7 })
      ∷ [];
  ttl = 60000000000;
  grace_until = 0;
}

abbrev by_rtt : Sample → Rate → ℕ → ℕ
by_rtt s rate now = s.rtt

far_leads : rank_from by_rtt outage (near ∷ far ∷ []) near 10 ≡ far ∷ near ∷ []
unfolding rank_from text_beq lookup failure_rate
far_leads = refl

far_works : failing outage far ≡ false
unfolding lookup text_beq
far_works = refl

working_first_example : failing outage far ≡ false
working_first_example =
    working_first by_rtt outage 10 (near ∷ far ∷ []) near far (near ∷ []) far far_leads
      (Memᴰ.tail (Memᴰ.head refl)) far_works

-- the third outage within ten minutes
abbrev flapping : Sample
flapping = record zero_sample { fails = 1; outages = 5 ∷ 6 ∷ [] }

opened : (record_sample [] near flapping 0 false true 9).is_open ≡ true
unfolding record_sample
opened = refl

-- the recording that opens it, two that fail again or succeed, and a success after the cooldown
abbrev recording : Bool → ℕ → Recording
recording ok at = record { samples = []; rtt = 0; ok = ok; from_traffic = not ok; at = at }

opens : (record_one near flapping (recording false 9)).is_open ≡ true
unfolding record_one
opens = opened

before-cooled :
    All
      (λ e. e.at < cooled 9 (next_trip flapping 9))
      (recording false 10 ∷ recording true 29000000000 ∷ [])
before-cooled = (omega arith, (omega arith, tt))

stays_open_example :
    let first = recording false 9 in
    let es = recording false 10 ∷ recording true 29000000000 ∷ [] in
    let next = recording true 31000000000 in
    StaysOpen (record_all near (record_one near flapping first) es) 9 (next_trip flapping 9)
    × (StaysOpen
          (record_one near (record_all near (record_one near flapping first) es) next)
          9
          (next_trip flapping 9)
        ⊎ MayClose
            (record_one near (record_all near (record_one near flapping first) es) next)
            (cooled 9 (next_trip flapping 9))
            31000000000)
stays_open_example =
    stays_open near flapping (recording false 9)
      (recording false 10 ∷ recording true 29000000000 ∷ []) (recording true 31000000000) refl opens
      before-cooled

empty-IsBounded : IsBounded empty_tracker
unfolding lookup
empty-IsBounded n s e = cc

record_outcome-IsBounded_example :
    IsBounded (record_outcome empty_tracker near 5 true false 9).0
    × IsBounded (reset empty_tracker 9)
record_outcome-IsBounded_example =
    record_outcome-IsBounded empty_tracker near 5 true false 9 empty-IsBounded
