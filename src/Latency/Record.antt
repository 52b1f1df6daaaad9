-- ===== src/Latency/Record.antt =====
-- core/netprobe/latency.go: Record, Fail and Succeed, which record outcomes, and Reset, Seat and
-- Unsettled. The callbacks are returned as the changes that they are told.
use em_wall.Prelude.{
  ℕ, zero, suc, ◌+◌, ◌*◌, ◌/◌, Bool, true, false, not, ◌&&◌, ◌||◌, Option, none, some, List, [],
  ◌∷◌, ◌++◌, Text, ◌==◌, nat_eq, text_eq, ltb, leb, length, lookup, insert, if◌then◌else◌,
}
use em_wall.Latency.{
  Rate, Sample, zero_sample, suspect, is_bad, rate_less, rtt_samples, keep_last,
  breaker_min_samples, breaker_trip_memory, flap_window, reset_grace, seat_grace,
  traffic_sample_interval, trim_outcomes, trim_times, append_outcome, clear_outage, failure_rate,
  evaluate_breaker,
}

pub record Tracker : Type 0 where
  pub samples : List (Text × Sample)
  pub ttl : ℕ
  pub grace_until : ℕ

-- NewLatencyTracker; a negative duration is taken for 0
abbrev pub new_tracker : ℕ → Tracker
new_tracker ttl = record {
  samples = [];
  ttl = if ttl == 0 then 60000000000 else ttl;
  grace_until = 0;
}

abbrev pub or_zero : Option Sample → Sample
or_zero none = zero_sample
or_zero (some s) = s

-- the names other than `self`, and those of them in an outage
abbrev pub others_total : Text → List (Text × Sample) → ℕ
others_total self [] = 0
others_total self ((n, s) ∷ m) = if n == self then others_total self m else others_total self m + 1

abbrev pub others_down : Text → List (Text × Sample) → ℕ
others_down self [] = 0
others_down self ((n, s) ∷ m) =
    if not (n == self) && suspect s then others_down self m + 1 else others_down self m

-- mostOthersDownLocked
abbrev pub most_others_down : List (Text × Sample) → Text → Bool
most_others_down m self =
    leb 2 (others_total self m) && leb (others_total self m) (others_down self m * 2)

-- sort.Float64s
abbrev pub insert_rate : Rate → List Rate → List Rate
insert_rate r [] = r ∷ []
insert_rate r (q ∷ rs) = if rate_less q r then q ∷ insert_rate r rs else r ∷ q ∷ rs

abbrev pub sort_rates : List Rate → List Rate
sort_rates [] = []
sort_rates (r ∷ rs) = insert_rate r (sort_rates rs)

abbrev pub rate_at : ℕ → List Rate → Rate
rate_at n [] = record { bad = 0; total = 1 }
rate_at zero (r ∷ rs) = r
rate_at (suc n) (r ∷ rs) = rate_at n rs

-- the loop of peerFailureRateLocked: how many others have recent outcomes, and the rates of those
-- that have enough
pub peer_rates : List (Text × Sample) → Text → ℕ → ℕ × List Rate
unfolding trim_outcomes failure_rate
peer_rates [] self now = (0, [])
peer_rates ((n, s) ∷ m) self now =
    let (others, rates) = peer_rates m self now in
    let w = trim_outcomes s.window now in
    if n == self || leb (length w) 0
    then (others, rates)
    else if leb breaker_min_samples (length w)
    then (others + 1, failure_rate w ∷ rates)
    else (others + 1, rates)

-- peerFailureRateLocked
unfoldable pub peer_failure_rate : List (Text × Sample) → Text → ℕ → Rate
unfolding peer_rates
peer_failure_rate m self now =
    let (others, rates) = peer_rates m self now in
    if ltb others 2
    then record { bad = 0; total = 1 }
    else if ltb (length rates) 2
    then record { bad = 1; total = 1 }
    else rate_at (length rates / 2) (sort_rates rates)

-- streak and last sample
unfoldable pub note_outcome : Sample → ℕ → Bool → Bool → ℕ → Sample
note_outcome s rtt true true now = record s { ok = true; fails = 0 }
note_outcome s rtt true false now = record s {
  ok = true;
  fails = 0;
  rtt = rtt;
  rtts = keep_last rtt_samples (s.rtts ++ (rtt ∷ []));
  at = now;
}
note_outcome s rtt false true now = record s { fails = s.fails + 1; last_fail = now }
note_outcome s rtt false false now = record s {
  ok = false;
  fails = s.fails + 1;
  last_fail = now;
  at = now;
}

-- the outcome enters the window, if it is a probe's or the last one of traffic is long enough ago
unfoldable pub enter_window : Sample → Bool → Bool → ℕ → Sample
unfolding append_outcome trim_outcomes
enter_window s ok from_traffic now =
    if not from_traffic || leb (s.last_traffic + traffic_sample_interval) now
    then record s {
      last_traffic = if from_traffic then now else s.last_traffic;
      window = append_outcome s.window (record { ok = ok; at = now }) now;
    }
    else record s { window = trim_outcomes s.window now }

-- an outage begins, or is over
unfoldable pub mark_outage : List (Text × Sample) → Text → Bool → Sample → ℕ → Sample
unfolding trim_times clear_outage
mark_outage m name was_suspect s now =
    if suspect s && not was_suspect
    then (if most_others_down m name then record s { suspect_since = now } else record s {
      suspect_since = now;
      outages = trim_times s.outages now flap_window ++ (now ∷ []);
    })
    else if was_suspect && not (suspect s)
    then record s { window = clear_outage s.window }
    else s

-- the breaker: `is_open` is its new state
unfoldable pub turn : Sample → Bool → ℕ → Sample
turn s is_open now =
    if is_open && not s.is_open
    then record s {
      is_open = true;
      trips =
          (if not (s.closed_at == 0) && ltb (s.closed_at + breaker_trip_memory) now
            then 0
            else s.trips)
          + 1;
      opened_at = now;
      outages = [];
    }
    else if s.is_open && not is_open
    then record s { is_open = false; closed_at = now }
    else record s { is_open = is_open }

unfoldable pub judge : List (Text × Sample) → Text → Sample → ℕ → Sample
unfolding failure_rate peer_failure_rate evaluate_breaker turn
judge m name s now =
    let rate = failure_rate s.window in
    let baseline =
      if not s.is_open && is_bad rate
      then peer_failure_rate m name now
      else record { bad = 0; total = 1 } in
    turn s (evaluate_breaker s rate (length s.window) now baseline) now

-- what record makes of the sample of the name
unfoldable pub record_sample : List (Text × Sample) → Text → Sample → ℕ → Bool → Bool → ℕ → Sample
unfolding note_outcome enter_window mark_outage judge
record_sample m name s rtt ok from_traffic now =
    judge m name
      (mark_outage m name (suspect s)
        (enter_window (note_outcome s rtt ok from_traffic now) ok from_traffic now) now)
      now

-- what the two callbacks are told, where there is something to tell
pub record Changes : Type 0 where
  pub suspect_now : Option Bool
  pub open_now : Option Bool

abbrev pub differs : Bool → Bool → Bool
differs a b = if a then not b else b

abbrev pub changes : Sample → Sample → Changes
changes s r = record {
  suspect_now = if differs (suspect s) (suspect r) then some (suspect r) else none;
  open_now = if differs s.is_open r.is_open then some r.is_open else none;
}

-- record
unfoldable pub record_outcome : Tracker → Text → ℕ → Bool → Bool → ℕ → Tracker × Changes
unfolding lookup insert record_sample
record_outcome t name rtt ok from_traffic now =
    if not ok && ltb now t.grace_until
    then (t, record { suspect_now = none; open_now = none })
    else let s = or_zero (lookup name t.samples) in
      let r = record_sample t.samples name s rtt ok from_traffic now in
      (record t { samples = insert name r t.samples }, changes s r)

-- Record, Fail and Succeed
abbrev pub record_probe : Tracker → Text → ℕ → Bool → ℕ → Tracker × Changes
record_probe t name rtt ok now = record_outcome t name rtt ok false now

abbrev pub fail : Tracker → Text → ℕ → Tracker × Changes
fail t name now = record_outcome t name 0 false true now

abbrev pub succeed : Tracker → Text → ℕ → Tracker × Changes
succeed t name now = record_outcome t name 0 true true now

unfoldable pub reset : Tracker → ℕ → Tracker
reset t now = record t { samples = []; grace_until = now + reset_grace }

pub data Seat : Type 0 where
  held outage lost : Seat

unfoldable pub seat : Tracker → Text → ℕ → Seat
unfolding lookup
seat t name now = elim (lookup name t.samples) [
  | none ↦ held
  | some s ↦
      if s.is_open
      then lost
      else if suspect s
      then (if leb (s.suspect_since + seat_grace) now then lost else outage)
      else held
]

abbrev pub is_unsettled : Tracker → ℕ → Option Sample → Bool
is_unsettled t now none = true
is_unsettled t now (some s) = s.is_open || not s.ok || ltb (s.at + t.ttl) now

unfoldable pub unsettled : Tracker → List Text → ℕ → List Text
unfolding lookup
unsettled t [] now = []
unsettled t (n ∷ names) now =
    let rest = unsettled t names now in
    if is_unsettled t now (lookup n t.samples) then n ∷ rest else rest
