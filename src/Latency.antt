-- ===== src/Latency.antt =====
-- core/netprobe/latency.go: what the tracker keeps of each upstream, its windows of recent outcomes
-- and its circuit breaker. Times and durations are nanoseconds, 0 the zero time. A failure rate is the
-- fraction that the code's float stands for; at ten outcomes at most, the floats compare as the
-- fractions do. The timing of handshakes (handshake.go) is left out of a sample.
pub mod Record
pub mod Bounds
pub mod Cooldown
pub mod Turns
pub mod Breaker
pub mod Seats
pub mod Rank
use em_wall.Prelude.{
  ℕ, zero, suc, ◌+◌, ◌-◌, ◌*◌, ◌/◌, Bool, true, false, not, ◌&&◌, ◌||◌, Option, none, some, List,
  [], ◌∷◌, ◌++◌, Text, ◌==◌, nat_eq, ltb, leb, length, drop, if◌then◌else◌,
}

abbrev pub dead_strike_threshold : ℕ
dead_strike_threshold = 2

abbrev pub breaker_window : ℕ
breaker_window = 10

abbrev pub breaker_window_ttl : ℕ
breaker_window_ttl = 300000000000

abbrev pub breaker_min_samples : ℕ
breaker_min_samples = 4

abbrev pub breaker_cooldown : ℕ
breaker_cooldown = 30000000000

abbrev pub breaker_cooldown_max : ℕ
breaker_cooldown_max = 600000000000

abbrev pub breaker_trip_memory : ℕ
breaker_trip_memory = 900000000000

abbrev pub flap_outages : ℕ
flap_outages = 3

abbrev pub flap_window : ℕ
flap_window = 600000000000

abbrev pub reset_grace : ℕ
reset_grace = 15000000000

abbrev pub breaker_close_streak : ℕ
breaker_close_streak = 2

abbrev pub traffic_sample_interval : ℕ
traffic_sample_interval = 2000000000

abbrev pub seat_grace : ℕ
seat_grace = 15000000000

abbrev pub probation_window : ℕ
probation_window = 300000000000

abbrev pub rtt_samples : ℕ
rtt_samples = 5

-- A failure rate: `bad` out of `total`.
pub record Rate : Type 0 where
  pub bad : ℕ
  pub total : ℕ

-- rate >= breakerOpenRate, which is 0.4
abbrev pub is_bad : Rate → Bool
is_bad r = leb (2 * r.total) (5 * r.bad)

-- rate > breakerCloseRate, which is 0.2
abbrev pub not_clean : Rate → Bool
not_clean r = ltb r.total (5 * r.bad)

-- rate - baseline >= breakerRelativeMargin, which is 0.25
abbrev pub worse_than : Rate → Rate → Bool
worse_than r b = leb (4 * b.bad * r.total + r.total * b.total) (4 * r.bad * b.total)

abbrev pub rate_less : Rate → Rate → Bool
rate_less a b = ltb (a.bad * b.total) (b.bad * a.total)

pub record Outcome : Type 0 where
  pub ok : Bool
  pub at : ℕ

pub record Sample : Type 0 where
  pub rtt : ℕ
  pub ok : Bool
  pub at : ℕ
  pub fails : ℕ
  pub last_fail : ℕ
  pub suspect_since : ℕ
  pub rtts : List ℕ
  pub window : List Outcome
  pub last_traffic : ℕ
  pub is_open : Bool
  pub opened_at : ℕ
  pub closed_at : ℕ
  pub trips : ℕ
  pub outages : List ℕ

abbrev pub zero_sample : Sample
zero_sample = record {
  rtt = 0;
  ok = false;
  at = 0;
  fails = 0;
  last_fail = 0;
  suspect_since = 0;
  rtts = [];
  window = [];
  last_traffic = 0;
  is_open = false;
  opened_at = 0;
  closed_at = 0;
  trips = 0;
  outages = [];
}

abbrev pub suspect : Sample → Bool
suspect s = leb dead_strike_threshold s.fails

abbrev pub recent_edge : ℕ → ℕ → Bool
recent_edge now t = not (t == 0) && ltb now (t + probation_window)

-- onProbation
abbrev pub on_probation : Sample → ℕ → Bool
on_probation s now =
    recent_edge now s.suspect_since || recent_edge now s.opened_at || recent_edge now s.closed_at

-- the loop of cooldown: `n` doublings at most, none from the maximum on
pub doubled : ℕ → ℕ → ℕ
doubled zero d = d
doubled (suc n) d = let next = doubled n (d * 2) in if ltb d breaker_cooldown_max then next else d

unfoldable pub cooldown : Sample → ℕ
unfolding doubled
cooldown s =
    let d = doubled (s.trips - 1) breaker_cooldown in
    if ltb breaker_cooldown_max d then breaker_cooldown_max else d

-- trimOutcomes, and trimmedCopy: the outcomes that are too old are a prefix
pub trim_outcomes : List Outcome → ℕ → List Outcome
trim_outcomes [] now = []
trim_outcomes (o ∷ w) now =
    let rest = trim_outcomes w now in if ltb (o.at + breaker_window_ttl) now then rest else o ∷ w

pub trim_times : List ℕ → ℕ → ℕ → List ℕ
trim_times [] now span = []
trim_times (t ∷ ts) now span =
    let rest = trim_times ts now span in if ltb (t + span) now then rest else t ∷ ts

-- the last n of a list that is longer
abbrev pub keep_last {ℓ} : {A : Type ℓ} → ℕ → List A → List A
keep_last n xs = if ltb n (length xs) then drop (length xs - n) xs else xs

-- appendOutcome
unfoldable pub append_outcome : List Outcome → Outcome → ℕ → List Outcome
unfolding trim_outcomes
append_outcome w o now = keep_last breaker_window (trim_outcomes w now ++ (o ∷ []))

-- w[:end], without the run of failures at its end
pub strip_failures : List Outcome → List Outcome
strip_failures [] = []
strip_failures (o ∷ w) =
    let rest = strip_failures w in if leb (length rest) 0 && not o.ok then [] else o ∷ rest

abbrev pub last_of : List Outcome → Option Outcome
last_of [] = none
last_of (o ∷ []) = some o
last_of (o ∷ p ∷ w) = last_of (p ∷ w)

abbrev pub all_but_last : List Outcome → List Outcome
all_but_last [] = []
all_but_last (o ∷ []) = []
all_but_last (o ∷ p ∷ w) = o ∷ all_but_last (p ∷ w)

-- clearOutage
unfoldable pub clear_outage : List Outcome → List Outcome
unfolding strip_failures
clear_outage w = elim (last_of w) [
  | none ↦ []
  | some o ↦ if o.ok then strip_failures (all_but_last w) ++ (o ∷ []) else strip_failures w
]

pub failures : List Outcome → ℕ
failures [] = 0
failures (o ∷ w) = let n = failures w in if o.ok then n else n + 1

-- failureRate; no outcome at all is a rate of 0
unfoldable pub failure_rate : List Outcome → Rate
unfolding failures
failure_rate [] = record { bad = 0; total = 1 }
failure_rate (o ∷ w) = record { bad = failures (o ∷ w); total = length (o ∷ w) }

abbrev pub all_ok : List Outcome → Bool
all_ok [] = true
all_ok (o ∷ w) = o.ok && all_ok w

-- endsWithSuccesses
abbrev pub ends_with_successes : List Outcome → ℕ → Bool
ends_with_successes w n = if ltb (length w) n then false else all_ok (drop (length w - n) w)

-- evaluateBreaker; n is the number of outcomes in the window
unfoldable pub evaluate_breaker : Sample → Rate → ℕ → ℕ → Rate → Bool
unfolding trim_times cooldown
evaluate_breaker s rate n now baseline =
    if not s.is_open
    then (if leb flap_outages (length (trim_times s.outages now flap_window))
        then true
        else if suspect s
        then false
        else leb breaker_min_samples n && is_bad rate && worse_than rate baseline)
    else if ltb now (s.opened_at + cooldown s)
    then true
    else if ltb n breaker_min_samples || not_clean rate
    then true
    else not (ends_with_successes s.window breaker_close_streak)
